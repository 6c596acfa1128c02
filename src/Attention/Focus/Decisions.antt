-- ===== src/Attention/Focus/Decisions.antt =====
-- When `reconcile_focus` starts, keeps or preempts a task.
use prometheist.Base.{
  ℕ, ◌+◌, ◌≡◌, ◌⊎◌, refl, sym, ap, ◌∙◌, Bool, true, false, not, ◌||◌, none, some, if◌then◌else◌,
  Result, Error, ok, err, inl, inr, ℕ_eq,
}
use prometheist.Attention.Resources.{Uuid}
use prometheist.Attention.Scheduler.{
  AttentionTask, Scheduler, Action, ◌>>=◌, find_task, strictly_outprioritizes,
  invalidate_scheduling_plan,
}
use prometheist.Attention.Focus.Defs.{
  FocusDecision, fetch, advance_cycle, require_legacy_focus_mode, interrupt, focus_active, focus,
  reconcile_focus, best_queued_task_id, decide, continue,
}
use prometheist.Attention.Focus.Steps.{fetch_found}

-- The scheduler in which `reconcile_focus` chooses.
unfoldable pub ticked : Scheduler → Scheduler
ticked s = let s' = invalidate_scheduling_plan s in record s' { cycle = s.cycle + 1 }

module _ {A B : Type 0} (m : Action A) (f : A → Action B) (s s' : Scheduler) where
  abbrev next : Result A × Scheduler → Result B × Scheduler
  next r = elim r.0 as (λ _. Result B × Scheduler) [ ok a ↦ f a r.1 | err e ↦ (err e, r.1) ]

  pub bind_ok : (a : A) → m s ≡ (ok a, s') → (m >>= f) s ≡ f a s'
  bind_ok a e = ap next e

  pub bind_err : (x : Error) → m s ≡ (err x, s') → (m >>= f) s ≡ (err x, s')
  bind_err x e = ap next e

outcome_cases :
    (m : Action (Unit {0})) (s : Scheduler) (b c : Bool) (x x' : Error)
    → m s ≡ (if b then (err x, s) else if c then (err x', s) else (ok tt, s))
    → (m s ≡ (ok tt, s)) ⊎ ((y : Error) × (m s ≡ (err y, s)))
outcome_cases m s true c x x' h = inr (x, h)
outcome_cases m s false true x x' h = inr (x', h)
outcome_cases m s false false x x' h = inl h

legacy_cases :
    (s : Scheduler)
    → (require_legacy_focus_mode s ≡ (ok tt, s))
      ⊎ ((x : Error) × (require_legacy_focus_mode s ≡ (err x, s)))
unfolding require_legacy_focus_mode
legacy_cases s =
    outcome_cases require_legacy_focus_mode s s.resource_safety_required
      (s.has_current_epoch || s.has_pending_plan) _ _ refl

err_ok : (x : Error) (d : FocusDecision) → ◌≡◌ {A = Result FocusDecision} (err x) (ok d) → ⊥
err_ok x d h = cc

-- Where the method returns, it returns `d`.
abbrev pub Ends : Action FocusDecision → FocusDecision → Type 0
Ends m d = (s : Scheduler) (d' : FocusDecision) → (m s).0 ≡ ok d' → d' ≡ d

pub Ends-bind :
    {A : Type 0} (m : Action A) (f : A → Action FocusDecision) (d : FocusDecision)
    → ((a : A) → Ends (f a) d)
    → Ends (m >>= f) d
Ends-bind {A = A} m f d h s d' e = run (m s).0 (m s).1 e
  where
    run : (r : Result A) (s' : Scheduler) → (next m f s s' (r, s')).0 ≡ ok d' → d' ≡ d
    run (ok a) s' k = h a s' d' k
    run (err x) s' k = absurd (err_ok x d' k)

module _ ⦃u : Uuid⦄ where
  abbrev choose : Action FocusDecision
  choose s = focus s.active_task_id (best_queued_task_id s) s

  abbrev pub against : AttentionTask → AttentionTask → Action FocusDecision
  against t t' s =
      if not (strictly_outprioritizes s t' t s.cycle)
      then decide continue (some t.task_id) (some t'.task_id)
          "queued task does not strictly outrank active task" s
      else interrupt t.metadata.interruption_policy t.task_id t'.task_id s

  -- Where `reconcile_focus` returns, it chose after the cycle advanced.
  pub reconcile_at :
      (s : Scheduler) (d : FocusDecision)
      → (reconcile_focus s).0 ≡ ok d
      → reconcile_focus s ≡ choose (ticked s)
  unfolding reconcile_focus advance_cycle ticked invalidate_scheduling_plan
  reconcile_at s d h =
      let rest : Unit {0} → Action FocusDecision = λ _. advance_cycle 1 >>= λ _. choose in
      elim (legacy_cases s) [
        | inl e ↦ bind_ok require_legacy_focus_mode rest s s tt e
        | inr (x, e) ↦
            absurd (
              err_ok x d
                (sym (ap (λ r. r.0) (bind_err require_legacy_focus_mode rest s s x e)) ∙ h))
      ]

  pub active_at :
      (s : Scheduler) (a c : ℕ) (t t' : AttentionTask)
      → find_task s.tasks a ≡ some t
      → find_task s.tasks c ≡ some t'
      → focus_active a (some c) s ≡ against t t' s
  unfolding focus_active
  active_at s a c t t' found found' =
      bind_ok (fetch a) (λ t. fetch c >>= against t) s s t (fetch_found s a t found)
      ∙ bind_ok (fetch c) (against t) s s t' (fetch_found s c t' found')

  pub active_alone :
      (s : Scheduler) (a : ℕ) (t : AttentionTask)
      → find_task s.tasks a ≡ some t
      → focus_active a none s
        ≡ decide continue (some t.task_id) none "no higher-priority runnable task" s
  unfolding focus_active
  active_alone s a t found =
      bind_ok (fetch a)
        (λ t. decide continue (some t.task_id) none "no higher-priority runnable task") s s t
        (fetch_found s a t found)
