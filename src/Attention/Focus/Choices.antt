-- ===== src/Attention/Focus/Choices.antt =====
-- `reconcile_focus` and `checkpoint_active` keep the focus consistent, and what they return names
-- the active task.
use prometheist.Base.{
  ℕ, ◌≡◌, refl, sym, ap, subst, ◌∙◌, Bool, true, false, not, Option, none, some, String,
  if◌then◌else◌, Result, Error, ◌||◌, ok, err, Option-cases, Bool-cases, inl, inr, ◌+++◌,
}
use prometheist.Attention.Resources.{Uuid}
use prometheist.Attention.Metadata.{preemptible, checkpoint_only, atomic, InterruptionPolicy}
use prometheist.Attention.Scheduler.{
  AttentionTask, Scheduler, Action, ◌>>◌, find_task, queued_at, strictly_outprioritizes,
  invalidate_scheduling_plan,
}
use prometheist.Attention.Scheduler.Laws.{find_task-id}
use prometheist.Attention.Focus.Defs.{
  FocusAction, FocusDecision, fetch, decide, advance_cycle, require_legacy_focus_mode, start_task,
  requeue_active, focus_idle, interrupt, focus_active, focus, reconcile_focus, best_queued_task_id,
  idle, start, continue, preempt,
}
use prometheist.Attention.Focus.Lifecycle.{
  is_atomic, clear_pending, checkpoint_candidate, checkpoint_from, checkpoint_active,
}
use prometheist.Attention.Focus.Focused.{Focused-aim, Focused-clear}
use prometheist.Attention.Focus.Triples.{IsFocused, Active, Outcome, Triple, Triple-bind}
use prometheist.Attention.Focus.Steps.{Has, Triple-fetch, Triple-start, Triple-requeue}
use prometheist.Attention.Focus.Candidate.{best_queued_task_id-queued}

-- The active task is the one that a decision names.
abbrev pub Answers : FocusDecision → Scheduler → Type 0
Answers d = Active d.active_task_id

-- Task `c`, if there is one, is queued.
abbrev pub Waiting : Option ℕ → Scheduler → Type 0
Waiting none s = Unit
Waiting (some c) s = queued_at (find_task s.tasks c) ≡ true

abbrev pub Facing : Option ℕ → Option ℕ → Scheduler → Type 0
Facing a c s = Active a s × Waiting c s

module _ ⦃u : Uuid⦄ where
  pub Triple-decide :
      (action : FocusAction) (a c : Option ℕ) (reason : String)
      → Triple (Active a) (decide action a c reason) Answers
  Triple-decide action a c reason = record { at = λ s p. p }

pub Triple-pre :
    {A : Type 0} {P P' : Scheduler → Type 0} {Q : A → Scheduler → Type 0} (m : Action A)
    → ((s : Scheduler) → P' s → P s)
    → Triple P m Q
    → Triple P' m Q
Triple-pre m f h = record { at = λ s p. h.at s (f s p) }

pub Triple-test :
    {A : Type 0} {P : Scheduler → Type 0} {Q : A → Scheduler → Type 0} (b : Scheduler → Bool)
    (m n : Action A)
    → Triple P m Q
    → Triple P n Q
    → Triple P (λ s. if b s then m s else n s) Q
Triple-test b m n h k = record {
  at = λ s p. elim (Bool-cases (b s)) [ inl e ↦ rw e (h.at s p) | inr e ↦ rw e (k.at s p) ];
}

-- A task that was fetched has the identifier that it was fetched by.
pub Active-fetched :
    (s : Scheduler) (a : ℕ) (t : AttentionTask)
    → Active (some a) s
    → find_task s.tasks a ≡ some t
    → Active (some t.task_id) s
Active-fetched s a t (f, e) found = (f, e ∙ ap some (sym (find_task-id s.tasks a t found)))

pub Waiting-fetched :
    (s : Scheduler) (c : ℕ) (t : AttentionTask)
    → Waiting (some c) s
    → find_task s.tasks c ≡ some t
    → Waiting (some t.task_id) s
Waiting-fetched s c t w found =
    subst (λ k. Waiting (some k) s) (sym (find_task-id s.tasks c t found)) w

pub Triple-legacy :
    (P : Scheduler → Type 0)
    → ((s : Scheduler) → P s → IsFocused s)
    → Triple P require_legacy_focus_mode (λ _. P)
unfolding require_legacy_focus_mode
Triple-legacy P f = record {
  at = λ s p. guard s.resource_safety_required (s.has_current_epoch || s.has_pending_plan) s _ _ p;
}
  where
    choice : (b c : Bool) (s : Scheduler) → Error → Error → Result (Unit {0}) × Scheduler
    choice b c s e e' = if b then (err e, s) else if c then (err e', s) else (ok tt, s)

    guard :
        (b c : Bool) (s : Scheduler) (e e' : Error)
        → P s
        → Outcome (λ _. P) (choice b c s e e').0 (choice b c s e e').1
    guard true c s e e' p = f s p
    guard false true s e e' p = f s p
    guard false false s e e' p = p

pub Triple-tick : Triple IsFocused (advance_cycle 1) (λ _. IsFocused)
unfolding advance_cycle invalidate_scheduling_plan
Triple-tick = record { at = λ s f. f }

pub Triple-advance : (a : Option ℕ) → Triple (Active a) (advance_cycle 1) (λ _. Active a)
unfolding advance_cycle invalidate_scheduling_plan
Triple-advance a = record { at = λ s p. p }

module _ ⦃u : Uuid⦄ where
  Triple-idle : (c : Option ℕ) → Triple (Active none) (focus_idle c) Answers
  unfolding focus_idle
  Triple-idle none = Triple-decide idle none none "no runnable queued tasks"
  Triple-idle (some c) =
      Triple-bind (start_task c "highest-ranked runnable task") _
        (Triple-start c "highest-ranked runnable task")
        (λ _. Triple-decide start (some c) (some c) "started highest-ranked runnable task")

  -- The active task gives way to task `c`.
  pub Triple-preempt :
      (a c : ℕ) (r r' r'' : String)
      → Triple
          (Active (some a))
          (do requeue_active r; start_task c r'; decide preempt (some c) (some c) r'')
          Answers
  Triple-preempt a c r r' r'' = Triple-bind (requeue_active r) _ (Triple-requeue a r) (λ _.
      Triple-bind (start_task c r') _ (Triple-start c r')
        (λ _. Triple-decide preempt (some c) (some c) r''))

  Triple-interrupt :
      (policy : InterruptionPolicy) (a c : ℕ)
      → Triple (Facing (some a) (some c)) (interrupt policy a c) Answers
  unfolding interrupt
  Triple-interrupt atomic a c = record { at = λ s p. p.0 }
  Triple-interrupt checkpoint_only a c = record { at = λ s ((f, e), w). (Focused-aim c f w, e) }
  Triple-interrupt preemptible a c = record {
    at = λ s p.
        (Triple-preempt a c "preempted by higher-priority task" ("preempted " +++ u.text a)
            ("preempted " +++ u.text a)).at
          s p.0;
  }

  Triple-active : (a : ℕ) (c : Option ℕ) → Triple (Facing (some a) c) (focus_active a c) Answers
  unfolding focus_active
  Triple-active a none =
      Triple-bind (fetch a) _ (Triple-fetch (Facing (some a) none) a (λ s p. p.0.0)) (λ t.
        Triple-pre _ (λ s (p, found). Active-fetched s a t p.0 found)
          (Triple-decide continue (some t.task_id) none "no higher-priority runnable task"))
  Triple-active a (some c) =
      Triple-bind (fetch a) _ (Triple-fetch (Facing (some a) (some c)) a (λ s p. p.0.0)) (λ t.
        Triple-bind (fetch c) _
          (Triple-fetch (Has (Facing (some a) (some c)) a t) c (λ s p. p.0.0.0))
          (λ t'. Triple-pre _ (fetched t t') (
            Triple-test (λ s. not (strictly_outprioritizes s t' t s.cycle)) _ _
              (Triple-pre _ (λ s p. p.0)
                (Triple-decide continue (some t.task_id) (some t'.task_id)
                  "queued task does not strictly outrank active task"))
              (Triple-interrupt t.metadata.interruption_policy t.task_id t'.task_id))))
    where
      fetched :
          (t t' : AttentionTask) (s : Scheduler)
          → Has (Has (Facing (some a) (some c)) a t) c t' s
          → Facing (some t.task_id) (some t'.task_id) s
      fetched t t' s ((p, found), found') =
          (Active-fetched s a t p.0 found, Waiting-fetched s c t' p.1 found')

  Triple-focus : (a c : Option ℕ) → Triple (Facing a c) (focus a c) Answers
  unfolding focus
  Triple-focus none c = Triple-pre (focus_idle c) (λ s p. p.0) (Triple-idle c)
  Triple-focus (some a) c = Triple-active a c

-- The best queued task is waiting.
pub Waiting-best : (s : Scheduler) → IsFocused s → Waiting (best_queued_task_id s) s
Waiting-best s f = elim (Option-cases (best_queued_task_id s)) [
  | inl e ↦ rw (e, Waiting) tt
  | inr (c, e) ↦ subst (λ o. Waiting o s) (sym e) (best_queued_task_id-queued s c f.distinct e)
]

module _ ⦃u : Uuid⦄ where
  -- `reconcile_focus`
  pub Triple-reconcile : Triple IsFocused reconcile_focus Answers
  unfolding reconcile_focus
  Triple-reconcile =
      Triple-bind require_legacy_focus_mode _ (Triple-legacy IsFocused (λ s f. f)) (λ _.
        Triple-bind (advance_cycle 1) _ Triple-tick (λ _. record {
          at = λ s f.
              (Triple-focus s.active_task_id (best_queued_task_id s)).at s
                ((f, refl), Waiting-best s f);
        }))

  Triple-keep :
      (a c : Option ℕ) (r : String)
      → Triple (Active a) (do clear_pending; decide continue a c r) Answers
  Triple-keep a c r = record { at = λ s (f, e). (Focused-clear f, e) }

  Triple-candidate :
      (t : AttentionTask) (c : Option ℕ)
      → Triple (Active (some t.task_id)) (checkpoint_candidate t c) Answers
  unfolding checkpoint_candidate
  Triple-candidate t none =
      Triple-keep (some t.task_id) none "checkpoint reached with no runnable queued task"
  Triple-candidate t (some c) =
      Triple-bind (fetch c) _ (Triple-fetch (Active (some t.task_id)) c (λ s p. p.0)) (λ t'.
        Triple-pre _ (λ s p. p.0)
          (Triple-test (λ s. not (strictly_outprioritizes s t' t s.cycle)) _ _
            (Triple-keep (some t.task_id) (some t'.task_id)
              "checkpoint reached but queued task no longer outranks active task")
            (Triple-preempt t.task_id t'.task_id "yielded at checkpoint to higher-priority task"
              ("checkpoint preemption of " +++ u.text t.task_id)
              ("checkpoint preemption of " +++ u.text t.task_id))))

  Triple-from : (a : Option ℕ) → Triple (Active a) (checkpoint_from a) Answers
  unfolding checkpoint_from
  Triple-from none = Triple-pre reconcile_focus (λ s p. p.0) Triple-reconcile
  Triple-from (some a) = Triple-bind (advance_cycle 1) _ (Triple-advance (some a)) (λ _.
      Triple-bind (fetch a) _ (Triple-fetch (Active (some a)) a (λ s p. p.0)) (λ t.
        Triple-pre _ (λ s (p, found). Active-fetched s a t p found)
          (Triple-test (λ s. is_atomic t.metadata.interruption_policy) _ _
            (Triple-decide continue (some t.task_id) none
              "atomic task ignores checkpoints for preemption")
            (record { at = λ s p. (Triple-candidate t (best_queued_task_id s)).at s p }))))

  -- `checkpoint_active`
  pub Triple-checkpoint : Triple IsFocused checkpoint_active Answers
  unfolding checkpoint_active
  Triple-checkpoint =
      Triple-bind require_legacy_focus_mode _ (Triple-legacy IsFocused (λ s f. f))
        (λ _. record { at = λ s f. (Triple-from s.active_task_id).at s (f, refl) })
