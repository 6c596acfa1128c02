-- ===== src/Attention/Allocation.antt =====
-- The allocation of pools to a task's contract: `_allocate_task_resources`,
-- `_resource_class_deficits` and `_hold_available_task_capacity` of attention.py.
mod Tests
mod Defs
pub mod Reserve
pub mod Contract
pub mod Deficits
unfoldable pub use Defs.{reserve_from, allocate, deficits, hold_from, hold, available, units_at}
pub use Defs.*
