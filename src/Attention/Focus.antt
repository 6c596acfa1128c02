-- ===== src/Attention/Focus.antt =====
-- The single-focus operations of `JITAttentionScheduler` (attention.py).
mod Candidate
mod Tests
mod Choices
mod Preserved
pub mod Decisions
pub mod Preempts
mod Shifts
pub mod Completion
pub mod Reach
mod Defs
mod Lifecycle
mod Focused
mod Triples
mod Steps
unfoldable pub use Defs.{
  submit, advance_cycle, reconcile_focus, require_legacy_focus_mode, start_task, requeue_active,
}
pub use Defs.*
unfoldable pub use Lifecycle.{
  checkpoint_active, complete_active, fail_active, set_resumable_state, complete_task,
  validate_focus,
}
pub use Lifecycle.*
