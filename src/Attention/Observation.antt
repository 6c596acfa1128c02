-- ===== src/Attention/Observation.antt =====
-- attention_observation.py: what a snapshot of the host is, and how it is built from a sample.
mod Defs
mod Build
pub mod Envelope
pub mod Returns
pub mod Bounds
pub mod Discovered
mod Tests
unfoldable pub use Defs.{
  validate_snapshot, available_for_new_work, deterministic_resource_observation_id,
}
pub use Defs.*
unfoldable pub use Build.{build_resource_observation, observe_pools, total_llm_committed}
pub use Build.*
