-- ===== src/Attention/Assignments.antt =====
-- Scheduling epochs and their plans: attention_assignments.py.
mod Defs
mod Checks
mod Identity
pub mod Plans
mod Tests
unfoldable pub use Defs.{normalize_complete_set, validate_reservation_ids}
unfoldable pub use Checks.{validate_complete_plan, list_eq, version_is}
pub use Identity.{deterministic_assignment_id, deterministic_epoch_id}
pub use Defs.*
