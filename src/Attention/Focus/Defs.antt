-- ===== src/Attention/Focus/Defs.antt =====
-- attention.py: `submit`, `advance_cycle`, `reconcile_focus`, and the private methods under them.
use prometheist.Base.{
  ℕ, ◌+◌, Bool, true, false, not, ◌||◌, Option, none, some, List, [], ◌∷◌, String, ok, err,
  value_error, runtime_error, key_error, if◌then◌else◌, nat_eq, any, ◌==◌, ℕ_eq, ◌+++◌,
}
use prometheist.Attention.Resources.{Uuid}
use prometheist.Attention.Metadata.{preemptible, checkpoint_only, atomic, InterruptionPolicy}
use prometheist.Attention.Scheduler.{
  AttentionTask, TaskStatus, new, queued, running, suspended, Scheduler, Action, ◌>>=◌, ◌>>◌, pure,
  find_task, put_task, invalidate_scheduling_plan, transition, replace_task, is_queued,
  ranked_queued, strictly_outprioritizes,
}

pub data FocusAction : Type 0 where
  idle start continue preempt wait_for_checkpoint : FocusAction

pub record FocusDecision : Type 0 where
  pub action : FocusAction
  pub active_task_id : Option ℕ
  pub candidate_task_id : Option ℕ
  pub reason : String

abbrev pub raise {ℓ} : {A : Type ℓ} → String → Action A
raise message s = (err (runtime_error message), s)

abbrev pub is_some {ℓ} : {A : Type ℓ} → Option A → Bool
is_some none = false
is_some (some a) = true

abbrev pub is_new : TaskStatus → Bool
is_new new = true
is_new _ = false

-- self.tasks[task_id]
unfoldable pub fetch : ℕ → Action AttentionTask
fetch k s = elim (find_task s.tasks k) [ none ↦ (err key_error, s) | some t ↦ (ok t, s) ]

unfoldable pub advance_cycle : ℕ → Action ℕ
unfolding invalidate_scheduling_plan
advance_cycle count s =
    let s' = if nat_eq count 0 then s else invalidate_scheduling_plan s in
    (ok (s'.cycle + count), record s' { cycle = s'.cycle + count })

-- _require_legacy_focus_mode
unfoldable pub require_legacy_focus_mode : Action (Unit {0})
require_legacy_focus_mode s =
    if s.resource_safety_required
    then (err (runtime_error "Host-safe execution requires observed scheduling epochs"), s)
    else if s.has_current_epoch || s.has_pending_plan
    then (err (runtime_error "Single-focus lifecycle operations are unavailable in epoch mode"), s)
    else (ok tt, s)

unfoldable pub first_id : List AttentionTask → Option ℕ
first_id [] = none
first_id (t ∷ ts) = some t.task_id

-- _best_queued_task_id
unfoldable pub best_queued_task_id : Scheduler → Option ℕ
unfolding first_id
best_queued_task_id s = first_id (ranked_queued s s.cycle)

module _ ⦃u : Uuid⦄ where
  -- The task is stored as NEW, queued, and stamped with the cycle.
  unfoldable pub submit : AttentionTask → Action (Unit {0})
  submit task s =
      if is_some (find_task s.tasks task.task_id)
      then (err (value_error "Duplicate task_id"), s)
      else if any (λ t. t.created_seq == task.created_seq) s.tasks
      then (err (value_error "Duplicate created_seq"), s)
      else if not (is_new task.status)
      then (err (value_error "Newly submitted tasks must be NEW"), s)
      else (do
        transition task.task_id queued "task submitted"
        replace_task task.task_id (λ t. record t { enqueued_cycle = s.cycle }))
          (record s { tasks = put_task task s.tasks })

  -- _start
  unfoldable pub start_task : ℕ → String → Action (Unit {0})
  unfolding fetch
  start_task k reason s =
      if is_some s.active_task_id
      then (err (runtime_error "Cannot start a second active task"), s)
      else (do
        t ← fetch k
        if not (is_queued t.status) then raise "Task is not queued" else do
          transition k running reason
          λ s'. (ok tt, record s' { active_task_id = some k; pending_preemption_task_id = none }))
          s

  unfoldable pub requeue : String → Option ℕ → Action (Unit {0})
  requeue reason none s = (err (runtime_error "No active task"), s)
  requeue reason (some k) s =
      (do
        transition k suspended reason
        transition k queued "suspended task returned to queue"
        replace_task k (λ t. record t { enqueued_cycle = s.cycle })
        λ s'. (ok tt, record s' { active_task_id = none; pending_preemption_task_id = none }))
        s

  -- _requeue_active
  unfoldable pub requeue_active : String → Action (Unit {0})
  unfolding requeue
  requeue_active reason s = requeue reason s.active_task_id s

  abbrev pub decide : FocusAction → Option ℕ → Option ℕ → String → Action FocusDecision
  decide action active candidate reason = pure (record {
    action = action;
    active_task_id = active;
    candidate_task_id = candidate;
    reason = reason;
  })

  unfoldable pub focus_idle : Option ℕ → Action FocusDecision
  focus_idle none = decide idle none none "no runnable queued tasks"
  focus_idle (some c) = do
    start_task c "highest-ranked runnable task"
    decide start (some c) (some c) "started highest-ranked runnable task"

  -- What a candidate that strictly outranks the active task leads to, by the active task's policy.
  unfoldable pub interrupt : InterruptionPolicy → ℕ → ℕ → Action FocusDecision
  interrupt atomic a c s = decide continue (some a) (some c) "active task is atomic" s
  interrupt checkpoint_only a c s =
      decide wait_for_checkpoint (some a) (some c)
        "higher-priority task waiting for safe checkpoint"
        (record s { pending_preemption_task_id = some c })
  interrupt preemptible a c s =
      (do
        requeue_active "preempted by higher-priority task"
        start_task c ("preempted " +++ u.text a)
        decide preempt (some c) (some c) ("preempted " +++ u.text a))
        s

  unfoldable pub focus_active : ℕ → Option ℕ → Action FocusDecision
  unfolding fetch interrupt
  focus_active a none = do
    active ← fetch a
    decide continue (some active.task_id) none "no higher-priority runnable task"
  focus_active a (some c) = do
    active ← fetch a
    candidate ← fetch c
    λ s.
        if not (strictly_outprioritizes s candidate active s.cycle)
        then decide continue (some active.task_id) (some candidate.task_id)
            "queued task does not strictly outrank active task" s
        else interrupt active.metadata.interruption_policy active.task_id candidate.task_id s

  unfoldable pub focus : Option ℕ → Option ℕ → Action FocusDecision
  unfolding focus_idle focus_active
  focus none candidate = focus_idle candidate
  focus (some a) candidate = focus_active a candidate

  unfoldable pub reconcile_focus : Action FocusDecision
  unfolding focus
  reconcile_focus = do
    require_legacy_focus_mode
    _ ← advance_cycle 1
    λ s. focus s.active_task_id (best_queued_task_id s) s
