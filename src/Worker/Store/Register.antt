-- ===== src/Worker/Store/Register.antt =====
-- worker_store.py: register_worker_step.
use prometheist.Base.{
  ℕ, not, Option, none, some, List, [], ◌∷◌, String, Result, ok, value_error, if◌then◌else◌,
  worker_protocol_error, key_error, ◌>>=◌, ◌>>◌, raise_if, contains, strip, is_blank, ◌==◌, ℕ_eq,
  String_eq,
}
use prometheist.Attention.Resources.{Uuid}
use prometheist.Attention.Assignments.{DurableAssignment, validate_reservation_ids}
use prometheist.Worker.Protocol.{
  WorkerEffectPolicy, WorkerStep, worker_step, worker_protocol_version,
  deterministic_worker_step_id, deterministic_worker_idempotency_key,
}
use prometheist.Worker.Store.Tables.{Store, TaskRow, find_row}
use prometheist.Worker.Store.Load.{required, lock_scheduler_state}
use prometheist.Worker.Store.Writes.{insert_immutable_step}
use prometheist.Worker.Store.Leases.{Outcome, done, transaction}

-- SELECT ... FROM attention_tasks WHERE task_id = %s
unfoldable pub find_task_row : List TaskRow → ℕ → Option TaskRow
find_task_row [] task_id = none
find_task_row (t ∷ ts) task_id =
    let rest = find_task_row ts task_id in if t.task_id == task_id then some t else rest

module _ ⦃u : Uuid⦄ (key : String) where
  -- The committed assignment that a step may be registered for.
  unfoldable pub current_assignment : ℕ → Store → Result DurableAssignment
  unfolding find_row validate_reservation_ids
  current_assignment assignment_id s = do
    state ← lock_scheduler_state key s
    epoch_id ←
        required (worker_protocol_error "worker steps require a committed scheduling epoch")
          state.current_epoch_id
    epoch ←
        required (worker_protocol_error "scheduler state references a missing current epoch")
          (find_row key (λ e. e.epoch_id == epoch_id) s.scheduler.epochs)
    raise_if (not (contains epoch.assignment_ids assignment_id))
        (worker_protocol_error "worker step assignment is not in the current committed epoch")
    row ←
        required key_error
          (find_row key (λ a. a.assignment_id == assignment_id) s.scheduler.assignments)
    validate_reservation_ids row

  abbrev pub new_step :
      DurableAssignment → ℕ → String → String → List String → WorkerEffectPolicy → WorkerStep
  new_step assignment step_id step_key capability input_refs effect_policy = record {
    protocol_version = worker_protocol_version;
    step_id = step_id;
    assignment_id = assignment.assignment_id;
    task_id = assignment.task_id;
    task_revision = assignment.task_revision;
    created_epoch_sequence = assignment.created_epoch_sequence;
    step_key = step_key;
    capability = capability;
    reservation_ids = assignment.reservation_ids;
    input_refs = input_refs;
    idempotency_key = deterministic_worker_idempotency_key step_id;
    effect_policy = effect_policy;
  }

  unfoldable pub register_body :
      ℕ
      → String
      → String
      → List String
      → WorkerEffectPolicy
      → Store
      → Result (Outcome WorkerStep × Store)
  unfolding current_assignment find_task_row worker_step insert_immutable_step
  register_body assignment_id step_key capability input_refs effect_policy s = do
    assignment ← current_assignment assignment_id s
    task ←
        required (worker_protocol_error "worker assignment references a missing task")
          (find_task_row s.scheduler.tasks assignment.task_id)
    raise_if (not (task.revision == assignment.task_revision))
        (worker_protocol_error "worker assignment uses a stale task revision")
    raise_if (not (contains task.required_capabilities capability))
        (worker_protocol_error "worker capability is not declared by the durable task")
    step_id ← deterministic_worker_step_id assignment_id step_key
    step ← worker_step (new_step assignment step_id step_key capability input_refs effect_policy)
    next ← insert_immutable_step key step s
    ok (done step, next)

  unfoldable pub register_worker_step :
      ℕ → String → String → List String → WorkerEffectPolicy → Store → Result WorkerStep × Store
  unfolding register_body
  register_worker_step assignment_id step_key capability input_refs effect_policy s =
      transaction
        (raise_if (is_blank (strip step_key)) (value_error "step_key must not be empty")
          >> raise_if (is_blank (strip capability)) (value_error "capability must not be empty")
          >> register_body assignment_id (strip step_key) (strip capability) input_refs
              effect_policy s)
        s
