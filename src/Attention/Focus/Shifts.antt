-- ===== src/Attention/Focus/Shifts.antt =====
-- Where the focus is after `reconcile_focus`, by the two priorities and the interruption policy.
use prometheist.Base.{
  ◌+◌, ℕ, ◌≤◌, ◌<◌, ◌≡◌, refl, sym, ap, ◌∙◌, subst, Bool, true, false, not, some, none, Result, ok,
  err, Bool-cases, inl, inr, String, if◌then◌else◌, ltb, arith, ok-injective, no_duplicates, ℕ_eq,
  ◌+++◌,
}
use prometheist.Attention.Resources.{Uuid}
use prometheist.Attention.Metadata.{
  preemptible, checkpoint_only, atomic, InterruptionPolicy, derive_priority,
}
use prometheist.Attention.Scheduler.{
  AttentionTask, Scheduler, Action, ◌>>=◌, ◌>>◌, find_task, ids_of, strictly_outprioritizes,
  effective_priority, is_queued, running, transition, invalidate_scheduling_plan,
}
use prometheist.Attention.Focus.Defs.{
  FocusDecision, interrupt, focus, reconcile_focus, best_queued_task_id, decide, fetch, is_some,
  continue, preempt, wait_for_checkpoint, raise, start_task, requeue_active,
}
use prometheist.Attention.Focus.Candidate.{IsBest, best_queued_task_id-IsBest}
use prometheist.Attention.Focus.Decisions.{ticked, reconcile_at, active_at, against}
use prometheist.Attention.Focus.Preempts.{interrupt-verdict}

-- What the decision `d` and the scheduler `after` are, where `c` is the candidate, and `eager` and
-- `base` are the numbers of its priority and of the active task's: a lower one is more urgent.
pub data Shifts (s after : Scheduler) (d : FocusDecision) (c eager base : ℕ)
    (policy : InterruptionPolicy) : Type 0 where
  outranks_not :
      base ≤ eager → d.action ≡ continue → after ≡ s → Shifts s after d c eager base policy
  is_atomic :
      policy ≡ atomic → d.action ≡ continue → after ≡ s → Shifts s after d c eager base policy
  waits :
      policy ≡ checkpoint_only
      → eager < base
      → d.action ≡ wait_for_checkpoint
      → after ≡ record s { pending_preemption_task_id = some c }
      → Shifts s after d c eager base policy
  takes_over :
      policy ≡ preemptible
      → eager < base
      → d.action ≡ preempt
      → after.active_task_id ≡ some c
      → after.pending_preemption_task_id ≡ none
      → Shifts s after d c eager base policy

-- Where the action returns, `Q` holds of the scheduler that it leaves.
abbrev Leads : {V : Type 0} → Action V → (Scheduler → Type 0) → Type 0
Leads {V = V} m Q = (s : Scheduler) (v : V) → (m s).0 ≡ ok v → Q (m s).1

Leads-bind :
    {A V : Type 0} (m : Action A) (f : A → Action V) (Q : Scheduler → Type 0)
    → ((a : A) → Leads (f a) Q)
    → Leads (m >>= f) Q
Leads-bind {A = A} {V = V} m f Q h s v e = run (m s) e
  where
    after : Result A × Scheduler → Result V × Scheduler
    after r = elim r.0 as (λ _. Result V × Scheduler) [ ok a ↦ f a r.1 | err x ↦ (err x, r.1) ]

    run : (r : Result A × Scheduler) → (after r).0 ≡ ok v → Q (after r).1
    run (ok a, s') k = h a s' v k
    run (err x, s') k = absurd (cc k)

Leads-then :
    {A V : Type 0} (m : Action A) (f : A → Action V) (Q : Scheduler → Type 0)
    → Leads m Q
    → ((a : A) (s : Scheduler) → (f a s).1 ≡ s)
    → Leads (m >>= f) Q
Leads-then {A = A} {V = V} m f Q h k s v e = run (m s) (h s) e
  where
    after : Result A × Scheduler → Result V × Scheduler
    after r = elim r.0 as (λ _. Result V × Scheduler) [ ok a ↦ f a r.1 | err x ↦ (err x, r.1) ]

    run :
        (r : Result A × Scheduler)
        → ((a : A) → r.0 ≡ ok a → Q r.1)
        → (after r).0 ≡ ok v
        → Q (after r).1
    run (ok a, s') q e = subst Q (sym (k a s')) (q a refl)
    run (err x, s') q e = absurd (cc e)

abbrev HasFocus : ℕ → Scheduler → Type 0
HasFocus c s = (s.active_task_id ≡ some c) × (s.pending_preemption_task_id ≡ none)

module _ ⦃u : Uuid⦄ where
  -- The parts of start_task behind its guard.
  abbrev set_focus : ℕ → Action (Unit {0})
  set_focus c s = (ok tt, record s { active_task_id = some c; pending_preemption_task_id = none })

  abbrev start_found : ℕ → String → AttentionTask → Action (Unit {0})
  start_found c reason t =
      if not (is_queued t.status)
      then raise "Task is not queued"
      else (transition c running reason >> set_focus c)

  start_if-HasFocus :
      (c : ℕ) (reason : String) (b : Bool)
      → Leads
          (if not b
            then raise "Task is not queued"
            else (transition c running reason >> set_focus c))
          (HasFocus c)
  start_if-HasFocus c reason true =
      Leads-bind (transition c running reason) (λ _. set_focus c) (HasFocus c)
        λ v s w e. (refl, refl)
  start_if-HasFocus c reason false = λ s v e. absurd (cc e)

  started-HasFocus :
      (c : ℕ) (reason : String) → Leads (fetch c >>= start_found c reason) (HasFocus c)
  started-HasFocus c reason =
      Leads-bind (fetch c) (start_found c reason) (HasFocus c)
        λ t. start_if-HasFocus c reason (is_queued t.status)

  start_task-HasFocus : (c : ℕ) (reason : String) → Leads (start_task c reason) (HasFocus c)
  unfolding start_task
  start_task-HasFocus c reason s v h = elim (Bool-cases (is_some s.active_task_id)) [
    | inl busy ↦ absurd (cc (rw busy at h))
    | inr free ↦ rw free (started-HasFocus c reason s v (rw free at h))
  ]

  preempts-HasFocus :
      (a c : ℕ) (s : Scheduler) (d : FocusDecision)
      → (interrupt preemptible a c s).0 ≡ ok d
      → HasFocus c (interrupt preemptible a c s).1
  unfolding interrupt
  preempts-HasFocus a c s d h =
      let last : Unit {0} → Action FocusDecision =
        λ _. decide preempt (some c) (some c) ("preempted " +++ u.text a) in
      Leads-bind (requeue_active "preempted by higher-priority task")
        (λ _. start_task c ("preempted " +++ u.text a) >>= last) (HasFocus c)
        (λ _.
          Leads-then (start_task c ("preempted " +++ u.text a)) last (HasFocus c)
            (start_task-HasFocus c ("preempted " +++ u.text a)) (λ v s. refl))
        s d h

  module _ (c eager base : ℕ) (t : AttentionTask) where
    interrupt-Shifts :
        (policy : InterruptionPolicy) (a : ℕ) (s : Scheduler) (d : FocusDecision)
        → eager < base
        → (interrupt policy a c s).0 ≡ ok d
        → Shifts s (interrupt policy a c s).1 d c eager base policy
    unfolding interrupt
    interrupt-Shifts atomic a s d more h = is_atomic refl (interrupt-verdict atomic a c s d h) refl
    interrupt-Shifts checkpoint_only a s d more h =
        waits refl more (interrupt-verdict checkpoint_only a c s d h) refl
    interrupt-Shifts preemptible a s d more h =
        let (focus, pending) = preempts-HasFocus a c s d h in
        takes_over refl more (interrupt-verdict preemptible a c s d h) focus pending

  against-Shifts :
      (t t' : AttentionTask) (s : Scheduler) (d : FocusDecision)
      → (against t t' s).0 ≡ ok d
      → Shifts s
          (against t t' s).1
          d
          t'.task_id
          (effective_priority s t' s.cycle)
          (derive_priority t.metadata)
          t.metadata.interruption_policy
  unfolding strictly_outprioritizes
  against-Shifts t t' s d h =
      elim (Bool-cases (ltb (effective_priority s t' s.cycle) (derive_priority t.metadata))) [
        | inl e ↦ rw e (
            interrupt-Shifts t'.task_id (effective_priority s t' s.cycle)
              (derive_priority t.metadata) t t.metadata.interruption_policy t.task_id s d
              (ground (arith, e)) (rw e at h))
        | inr e ↦ rw e (
            outranks_not (ground (arith, e)) (ap (λ x. x.action) (sym (ok-injective (rw e at h))))
              refl)
      ]

  -- Where task identifiers are distinct, a task is active and there is a best candidate after the
  -- cycle advanced, that candidate is runnable and has the least queue key, and a decision that is
  -- returned goes with one of four outcomes: the number of the effective priority of the candidate
  -- is not below that of the criticality of the active task, or the active task is atomic, and
  -- nothing changes any more; it is below and the active task may be interrupted at checkpoints
  -- only, and nothing changes but that the candidate is the pending replacement; it is below and
  -- the active task is preemptible, and the candidate has the focus with no replacement pending.
  -- The action of the decision says which.
  pub reconcile_focus-Shifts :
      (s : Scheduler) (d : FocusDecision) (a c : ℕ) (t : AttentionTask)
      → no_duplicates (ids_of s.tasks) ≡ true
      → (reconcile_focus s).0 ≡ ok d
      → s.active_task_id ≡ some a
      → find_task s.tasks a ≡ some t
      → best_queued_task_id (ticked s) ≡ some c
      → (t' : AttentionTask) × IsBest (ticked s) c t'
        × Shifts
            (ticked s)
            (reconcile_focus s).1
            d
            t'.task_id
            (effective_priority (ticked s) t' (s.cycle + 1))
            (derive_priority t.metadata)
            t.metadata.interruption_policy
  unfolding ticked invalidate_scheduling_plan focus
  reconcile_focus-Shifts s d a c t distinct h e found best =
      let (t', is_best) = best_queued_task_id-IsBest (ticked s) c distinct best in
      let chosen =
        reconcile_at s d h
        ∙ ap (λ o. focus o (best_queued_task_id (ticked s)) (ticked s)) e
        ∙ ap (λ o. focus (some a) o (ticked s)) best
        ∙ active_at (ticked s) a c t t' found is_best.found in
      (
        t',
        is_best,
        subst
            (λ (r : Result FocusDecision × Scheduler).
              Shifts (ticked s) r.1 d t'.task_id (effective_priority (ticked s) t' (s.cycle + 1))
                (derive_priority t.metadata) t.metadata.interruption_policy)
            (sym chosen) (against-Shifts t t' (ticked s) d (sym (ap (λ r. r.0) chosen) ∙ h)),
      )
