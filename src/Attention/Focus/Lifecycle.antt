-- ===== src/Attention/Focus/Lifecycle.antt =====
-- attention.py: `checkpoint_active`, `complete_active`, `fail_active`, `set_resumable_state`,
-- `complete_task`, and the part of `_validate_snapshot` that is about tasks and focus.
use prometheist.Base.{
  ℕ, Bool, true, false, not, Option, none, some, List, [], ◌∷◌, map, String, Result, ok, err,
  value_error, if◌then◌else◌, no_duplicates, ◌==◌, ℕ_eq, ◌+++◌,
}
use prometheist.Attention.Resources.{Uuid}
use prometheist.Attention.Metadata.{atomic, InterruptionPolicy}
use prometheist.Attention.Scheduler.{
  AttentionTask, TaskStatus, new, completed, failed, Scheduler, Action, ◌>>=◌, ◌>>◌, pure,
  find_task, transition, replace_task, strictly_outprioritizes, running_ids, queued_at,
}
use prometheist.Attention.Focus.Defs.{
  FocusDecision, continue, preempt, decide, raise, fetch, advance_cycle, require_legacy_focus_mode,
  best_queued_task_id, start_task, requeue_active, reconcile_focus,
}

abbrev pub is_atomic : InterruptionPolicy → Bool
is_atomic atomic = true
is_atomic _ = false

abbrev pub clear_pending : Action (Unit {0})
clear_pending s = (ok tt, record s { pending_preemption_task_id = none })

abbrev pub clear_focus : Action (Unit {0})
clear_focus s = (ok tt, record s { active_task_id = none; pending_preemption_task_id = none })

module _ ⦃u : Uuid⦄ where
  unfoldable pub checkpoint_candidate : AttentionTask → Option ℕ → Action FocusDecision
  unfolding fetch
  checkpoint_candidate active none = do
    clear_pending
    decide continue (some active.task_id) none "checkpoint reached with no runnable queued task"
  checkpoint_candidate active (some c) = do
    candidate ← fetch c
    λ s.
        if not (strictly_outprioritizes s candidate active s.cycle)
        then (do
          clear_pending
          decide continue (some active.task_id) (some candidate.task_id)
              "checkpoint reached but queued task no longer outranks active task")
            s
        else (do
          requeue_active "yielded at checkpoint to higher-priority task"
          start_task candidate.task_id ("checkpoint preemption of " +++ u.text active.task_id)
          decide preempt (some candidate.task_id) (some candidate.task_id)
              ("checkpoint preemption of " +++ u.text active.task_id))
            s

  unfoldable pub checkpoint_from : Option ℕ → Action FocusDecision
  unfolding checkpoint_candidate
  checkpoint_from none = reconcile_focus
  checkpoint_from (some a) = do
    _ ← advance_cycle 1
    active ← fetch a
    λ s.
        if is_atomic active.metadata.interruption_policy
        then decide continue (some active.task_id) none
            "atomic task ignores checkpoints for preemption" s
        else checkpoint_candidate active (best_queued_task_id s) s

  unfoldable pub checkpoint_active : Action FocusDecision
  unfolding checkpoint_from
  checkpoint_active = do require_legacy_focus_mode; λ s. checkpoint_from s.active_task_id s

  -- resumable_state is written where one is given.
  unfoldable pub store_state : ℕ → Option String → Action (Unit {0})
  store_state k none = pure tt
  store_state k (some state) = replace_task k (λ t. record t { resumable_state = state })

  unfoldable pub finish_active : TaskStatus → String → Option String → Option ℕ → Action (Unit {0})
  unfolding store_state
  finish_active status reason state none = raise "No active task"
  finish_active status reason state (some k) = do
    store_state k state
    transition k status reason
    clear_focus

  unfoldable pub complete_active : Option String → Action (Unit {0})
  unfolding finish_active
  complete_active state = do
    require_legacy_focus_mode
    λ s. finish_active completed "task completed" state s.active_task_id s

  unfoldable pub fail_active : Option String → Action (Unit {0})
  unfolding finish_active
  fail_active state = do
    require_legacy_focus_mode
    λ s. finish_active failed "task failed" state s.active_task_id s

  unfoldable pub set_resumable_state : ℕ → String → Action (Unit {0})
  unfolding fetch
  set_resumable_state k state = do
    _ ← fetch k
    replace_task k (λ t. record t { resumable_state = state })

  unfoldable pub complete_from : ℕ → Option String → TaskStatus → Action (Unit {0})
  unfolding store_state
  complete_from k state completed = pure tt
  complete_from k state failed = raise "Task cannot complete from FAILED"
  complete_from k state new = raise "Task cannot complete from NEW"
  complete_from k state _ = do
    store_state k state
    transition k completed "all durable worker steps completed"

  unfoldable pub complete_task : ℕ → Option String → Action (Unit {0})
  unfolding fetch complete_from
  complete_task k state = do t ← fetch k; complete_from k state t.status

unfoldable pub focus_check : Option ℕ → List ℕ → Result (Unit {0})
focus_check none [] = ok tt
focus_check none (k ∷ ks) = err (value_error "Snapshot has RUNNING task but no active_task_id")
focus_check (some a) (k ∷ []) =
    if k == a
    then ok tt
    else err (value_error "Snapshot active_task_id does not match exactly one RUNNING task")
focus_check (some a) _ =
    err (value_error "Snapshot active_task_id does not match exactly one RUNNING task")

unfoldable pub pending_check : Option ℕ → List AttentionTask → Result (Unit {0})
pending_check none ts = ok tt
pending_check (some p) ts =
    if queued_at (find_task ts p)
    then ok tt
    else err (value_error "pending_preemption_task_id must reference a queued task")

unfoldable pub andthen : Result (Unit {0}) → Result (Unit {0}) → Result (Unit {0})
andthen (ok _) r = r
andthen (err e) r = err e

-- The part of `_validate_snapshot` about the running task, the pending target and `created_seq`.
unfoldable pub validate_focus : Scheduler → Result (Unit {0})
unfolding focus_check pending_check andthen
validate_focus s = andthen (focus_check s.active_task_id (running_ids s.tasks)) (
    andthen (pending_check s.pending_preemption_task_id s.tasks) (
      if no_duplicates (map (λ t. t.created_seq) s.tasks)
      then ok tt
      else err (value_error "Snapshot contains duplicate created_seq values")))
