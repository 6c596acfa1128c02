-- ===== src/Attention/Focus/Preempts.antt =====
-- What `reconcile_focus` does to the active task, by its interruption policy.
use prometheist.Base.{
  ℕ, ◌≡◌, refl, sym, ap, ◌∙◌, Bool, true, false, some, ok, Option-cases, Bool-cases, inl, inr,
  ok-injective, no_duplicates, ℕ_eq, ◌+++◌,
}
use prometheist.Attention.Resources.{Uuid}
use prometheist.Attention.Metadata.{preemptible, checkpoint_only, atomic, InterruptionPolicy}
use prometheist.Attention.Scheduler.{
  AttentionTask, Scheduler, Action, ◌>>=◌, find_task, ids_of, strictly_outprioritizes,
  invalidate_scheduling_plan,
}
use prometheist.Attention.Focus.Defs.{
  FocusAction, FocusDecision, interrupt, focus, reconcile_focus, best_queued_task_id, decide,
  continue, preempt, wait_for_checkpoint, start_task, requeue_active,
}
use prometheist.Attention.Focus.Candidate.{best_queued_task_id-IsBest}
use prometheist.Attention.Focus.Decisions.{
  ticked, Ends-bind, reconcile_at, active_at, active_alone, against,
}

-- The decision by the table that the policies give: the candidate outranks or not.
abbrev pub verdict : Bool → InterruptionPolicy → FocusAction
verdict false policy = continue
verdict true atomic = continue
verdict true checkpoint_only = wait_for_checkpoint
verdict true preemptible = preempt

module _ ⦃u : Uuid⦄ where
  pub interrupt-verdict :
      (policy : InterruptionPolicy) (a c : ℕ) (s : Scheduler) (d : FocusDecision)
      → (interrupt policy a c s).0 ≡ ok d
      → d.action ≡ verdict true policy
  unfolding interrupt
  interrupt-verdict atomic a c s d h = ap (λ x. x.action) (sym (ok-injective h))
  interrupt-verdict checkpoint_only a c s d h = ap (λ x. x.action) (sym (ok-injective h))
  interrupt-verdict preemptible a c s d h =
      let last : Unit {0} → Action FocusDecision =
        λ _. decide preempt (some c) (some c) ("preempted " +++ u.text a) in
      let d' : FocusDecision = record {
        action = preempt;
        active_task_id = some c;
        candidate_task_id = some c;
        reason = "preempted " +++ u.text a;
      } in
      ap (λ x. x.action)
        (Ends-bind (requeue_active "preempted by higher-priority task")
          (λ _. start_task c ("preempted " +++ u.text a) >>= last) d'
          (λ _.
            Ends-bind (start_task c ("preempted " +++ u.text a)) last d'
              (λ _ s d'' e. sym (ok-injective e)))
          s d h)

  against-verdict :
      (t t' : AttentionTask) (s : Scheduler) (d : FocusDecision)
      → (against t t' s).0 ≡ ok d
      → d.action ≡ verdict (strictly_outprioritizes s t' t s.cycle) t.metadata.interruption_policy
  against-verdict t t' s d h = elim (Bool-cases (strictly_outprioritizes s t' t s.cycle)) [
    | inl e ↦
        rw e (interrupt-verdict t.metadata.interruption_policy t.task_id t'.task_id s d (rw e at h))
    | inr e ↦ rw e (ap (λ x. x.action) (sym (ok-injective (rw e at h))))
  ]

  verdict_atomic :
      (b : Bool) {policy : InterruptionPolicy} → policy ≡ atomic → verdict b policy ≡ continue
  verdict_atomic true e = ap (verdict true) e
  verdict_atomic false e = refl

  against_atomic :
      (t t' : AttentionTask) (s : Scheduler)
      → t.metadata.interruption_policy ≡ atomic
      → (against t t' s).1 ≡ s
  unfolding interrupt
  against_atomic t t' s e = elim (Bool-cases (strictly_outprioritizes s t' t s.cycle)) [
    | inl b ↦ rw b (ap (λ p. (interrupt p t.task_id t'.task_id s).1) e)
    | inr b ↦ rw b refl
  ]

  -- Where task identifiers are distinct and the active task is atomic, a decision that is returned
  -- is to continue, and nothing changes but the cycle and the scheduling plan.
  pub reconcile_focus-atomic :
      (s : Scheduler) (d : FocusDecision) (a : ℕ) (t : AttentionTask)
      → no_duplicates (ids_of s.tasks) ≡ true
      → (reconcile_focus s).0 ≡ ok d
      → s.active_task_id ≡ some a
      → find_task s.tasks a ≡ some t
      → t.metadata.interruption_policy ≡ atomic
      → (d.action ≡ continue) × ((reconcile_focus s).1 ≡ ticked s)
  unfolding ticked invalidate_scheduling_plan focus interrupt
  reconcile_focus-atomic s d a t distinct h e found policy =
      elim (Option-cases (best_queued_task_id (ticked s))) [
        | inl best ↦
            let chosen =
              reconcile_at s d h
              ∙ ap (λ o. focus o (best_queued_task_id (ticked s)) (ticked s)) e
              ∙ ap (λ o. focus (some a) o (ticked s)) best
              ∙ active_alone (ticked s) a t found in
            (
              ap (λ x. x.action) (sym (ok-injective (sym (ap (λ r. r.0) chosen) ∙ h))),
              ap (λ r. r.1) chosen,
            )
        | inr (c, best) ↦
            let (t', is_best) = best_queued_task_id-IsBest (ticked s) c distinct best in
            let chosen =
              reconcile_at s d h
              ∙ ap (λ o. focus o (best_queued_task_id (ticked s)) (ticked s)) e
              ∙ ap (λ o. focus (some a) o (ticked s)) best
              ∙ active_at (ticked s) a c t t' found is_best.found in
            (
              against-verdict t t' (ticked s) d (sym (ap (λ r. r.0) chosen) ∙ h)
                  ∙ verdict_atomic (strictly_outprioritizes (ticked s) t' t (ticked s).cycle)
                      policy,
              ap (λ r. r.1) chosen ∙ against_atomic t t' (ticked s) policy,
            )
      ]
