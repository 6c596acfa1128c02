-- ===== src/Attention/Metadata.antt =====
-- The scheduling metadata of attention.py: priorities, service guarantees, interruption policies,
-- and the resource contract of a task.
mod Defs
unfoldable pub use Defs.{
  normalize_resource_contract, quantitative_resource_requirements, units_of, derive_priority,
}
pub use Defs.*
