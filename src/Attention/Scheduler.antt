-- ===== src/Attention/Scheduler.antt =====
-- The state of `JITAttentionScheduler` (attention.py), its ranking of queued tasks, and the private
-- methods that its operations share.
mod State
mod Ranking
mod Tasks
pub mod Laws
pub mod Aging
unfoldable pub use State.{invalidate_scheduling_plan, find_task, put_task}
pub use State.*
unfoldable pub use Ranking.{
  service_due, effective_priority, dependencies_satisfied, resources_satisfied, ranked_queued,
  strictly_outprioritizes, ranked_dependency_satisfied, running_ids,
}
pub use Ranking.*
unfoldable pub use Tasks.{transition, replace_task}
pub use Tasks.*
