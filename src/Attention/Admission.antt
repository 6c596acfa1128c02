-- ===== src/Attention/Admission.antt =====
-- The admission of tasks to execution resources: `reconcile_resource_admission` of attention.py.
mod Defs
mod Rounds
pub mod Capacity
mod Tests
unfoldable pub use Defs.{reconcile_resource_admission}
pub use Defs.*
