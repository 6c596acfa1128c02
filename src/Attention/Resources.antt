-- ===== src/Attention/Resources.antt =====
-- attention_resources.py: resource pools, requirements, process estimates and reservations.
mod Defs
mod Class
pub mod Valid
pub use Class.*
unfoldable pub use Defs.{
  execution_resource, admissible_capacity, resource_requirements, deterministic_reservation_id,
  validate_admission_plan,
}
pub use Defs.*
