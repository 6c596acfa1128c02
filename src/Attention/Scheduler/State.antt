-- ===== src/Attention/Scheduler/State.antt =====
-- attention.py: `AttentionTask`, `TaskTransition` and the fields of `JITAttentionScheduler` that
-- the single-focus operations and the admission of tasks use.
use prometheist.Base.{
  ℕ, Bool, false, Option, none, some, List, [], ◌∷◌, String, Result, ok, err, if◌then◌else◌, ◌==◌,
  ℕ_eq,
}
use prometheist.Attention.Resources.{ExecutionResource, ResourceReservation}
use prometheist.Attention.Metadata.{SchedulingMetadata, ServiceClass, ServiceGuarantee}

pub data TaskStatus : Type 0 where
  new queued running suspended blocked completed failed : TaskStatus

-- `resumable_state` is JSON that the scheduler passes on unread: a text here.
pub record AttentionTask : Type 0 where
  pub task_id : ℕ
  pub task_key : String
  pub created_seq : ℕ
  pub metadata : SchedulingMetadata
  pub parent_task_id : Option ℕ
  pub status : TaskStatus
  pub enqueued_cycle : ℕ
  pub revision : ℕ
  pub resumable_state : String

pub record TaskTransition : Type 0 where
  pub transition_id : ℕ
  pub task_id : ℕ
  pub revision : ℕ
  pub scheduler_cycle : ℕ
  pub from_status : TaskStatus
  pub to_status : TaskStatus
  pub reason : String

-- The scheduler. `tasks` and `resources` are Python dictionaries keyed by the identifier of their
-- values, in insertion order. Of the epoch machinery the operations here ask only whether there
-- is a committed epoch, a provisional plan, or a pending observation.
pub record Scheduler : Type 0 where
  pub service_guarantees : ServiceClass → ServiceGuarantee
  pub tasks : List AttentionTask
  pub resources : List ExecutionResource
  pub admitted_task_ids : List ℕ
  pub resource_reservations : List ResourceReservation
  pub has_current_epoch : Bool
  pub has_pending_plan : Bool
  pub has_pending_observation : Bool
  pub resource_safety_required : Bool
  pub active_task_id : Option ℕ
  pub pending_preemption_task_id : Option ℕ
  pub cycle : ℕ
  pub transitions : List TaskTransition

-- A method returns or raises, and what it wrote before a raise stays written.
abbrev pub Action {ℓ} : Type ℓ → Type ℓ
Action A = Scheduler → Result A × Scheduler

infixl 10 ◌>>=◌ ◌>>◌
abbrev pub ◌>>=◌ {ℓ κ} : {A : Type ℓ} {B : Type κ} → Action A → (A → Action B) → Action B
◌>>=◌ m f s = elim (m s).0 [ ok a ↦ f a (m s).1 | err e ↦ (err e, (m s).1) ]

abbrev pub ◌>>◌ {ℓ} : {B : Type ℓ} → Action (Unit {0}) → Action B → Action B
m >> n = m >>= λ _. n

abbrev pub pure {ℓ} : {A : Type ℓ} → A → Action A
pure a s = (ok a, s)

-- self.tasks.get(task_id)
unfoldable pub find_task : List AttentionTask → ℕ → Option AttentionTask
find_task [] k = none
find_task (t ∷ ts) k = if t.task_id == k then some t else find_task ts k

-- self.tasks[task.task_id] = task
unfoldable pub put_task : AttentionTask → List AttentionTask → List AttentionTask
put_task t [] = t ∷ []
put_task t (x ∷ xs) = if x.task_id == t.task_id then t ∷ xs else x ∷ put_task t xs

-- _invalidate_scheduling_plan
unfoldable pub invalidate_scheduling_plan : Scheduler → Scheduler
invalidate_scheduling_plan s = record s {
  has_pending_plan = false;
  has_pending_observation = false;
  admitted_task_ids = if s.has_current_epoch then s.admitted_task_ids else [];
  resource_reservations = if s.has_current_epoch then s.resource_reservations else [];
}
