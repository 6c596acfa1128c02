-- ===== src/Attention/Focus/Reach.antt =====
-- Sequences of single-focus operations, and the snapshot check on the states they lead to.
use prometheist.Base.{
  ℕ, ◌≡◌, refl, sym, ap, subst, ◌∙◌, Bool, true, false, Option, none, some, List, [], ◌∷◌, String,
  if◌then◌else◌, Result, ok, err, value_error, Bool-cases, inl, inr, arith, no_duplicates, ℕ_eq,
  nat_eq_iff, beq_refl, some-injective, ok-injective,
}
use prometheist.Attention.Resources.{Uuid}
use prometheist.Attention.Scheduler.{
  AttentionTask, Scheduler, find_task, queued_at, ids_of, running_ids,
}
use prometheist.Attention.Focus.Defs.{FocusDecision, advance_cycle, submit, reconcile_focus}
use prometheist.Attention.Focus.Lifecycle.{
  complete_active, fail_active, set_resumable_state, checkpoint_active, focus_check, pending_check,
  andthen, validate_focus,
}
use prometheist.Attention.Focus.Focused.{option_list, created_of}
use prometheist.Attention.Focus.Triples.{IsFocused, Active, Outcome}
use prometheist.Attention.Focus.Choices.{Answers, Triple-reconcile, Triple-checkpoint}
use prometheist.Attention.Focus.Preserved.{
  Triple-submit, Triple-complete, Triple-fail, Triple-state, Triple-cycles,
}

-- A call of a single-focus operation, with its arguments.
pub data Operation : Type 0 where
  submitting : AttentionTask → Operation
  advancing : ℕ → Operation
  reconciling : Operation
  reaching_checkpoint : Operation
  completing : Option String → Operation
  failing : Option String → Operation
  storing : ℕ → String → Operation

module _ ⦃u : Uuid⦄ where
  -- The scheduler after the call, whether it returned or raised.
  unfoldable pub perform : Operation → Scheduler → Scheduler
  perform (submitting t) s = (submit t s).1
  perform (advancing count) s = (advance_cycle count s).1
  perform reconciling s = (reconcile_focus s).1
  perform reaching_checkpoint s = (checkpoint_active s).1
  perform (completing state) s = (complete_active state s).1
  perform (failing state) s = (fail_active state s).1
  perform (storing k state) s = (set_resumable_state k state s).1

  unfoldable pub perform_all : List Operation → Scheduler → Scheduler
  unfolding perform
  perform_all [] s = s
  perform_all (op ∷ ops) s = perform_all ops (perform op s)

focus_check_sound : (a : Option ℕ) (ks : List ℕ) → focus_check a ks ≡ ok tt → ks ≡ option_list a
unfolding focus_check
focus_check_sound none [] h = refl
focus_check_sound none (k ∷ ks) h = absurd (cc h)
focus_check_sound (some a) [] h = absurd (cc h)
focus_check_sound (some a) (k ∷ []) h = ground (arith, nat_eq_iff k a)
focus_check_sound (some a) (k ∷ j ∷ ks) h = absurd (cc h)

focus_check-own : (a : Option ℕ) → focus_check a (option_list a) ≡ ok tt
unfolding focus_check
focus_check-own none = refl
focus_check-own (some a) = rw (beq_refl a) refl

pending_check_sound :
    (p : Option ℕ) (ts : List AttentionTask)
    → pending_check p ts ≡ ok tt
    → (q : ℕ) → p ≡ some q
    → queued_at (find_task ts q) ≡ true
unfolding pending_check
pending_check_sound none ts h q e = cc
pending_check_sound (some p) ts h q e = elim (Bool-cases (queued_at (find_task ts p))) [
  | inl yes_q ↦ subst (λ k. queued_at (find_task ts k) ≡ true) (some-injective p q e) yes_q
  | inr no_q ↦ absurd (cc (rw no_q at h))
]

pending_check_complete :
    (p : Option ℕ) (ts : List AttentionTask)
    → ((q : ℕ) → p ≡ some q → queued_at (find_task ts q) ≡ true)
    → pending_check p ts ≡ ok tt
unfolding pending_check
pending_check_complete none ts h = refl
pending_check_complete (some p) ts h = rw (h p refl) refl

checks : Result (Unit {0}) → Result (Unit {0}) → Bool → Result (Unit {0})
unfolding andthen
checks a p b = andthen a (
    andthen p
      (if b then ok tt else err (value_error "Snapshot contains duplicate created_seq values")))

checks-all :
    (a p : Result (Unit {0})) (b : Bool)
    → checks a p b ≡ ok tt
    → (a ≡ ok tt) × (p ≡ ok tt) × (b ≡ true)
unfolding checks andthen
checks-all (ok x) (ok y) true h = (refl, refl, refl)
checks-all (ok x) (ok y) false h = absurd (cc h)
checks-all (ok x) (err e) b h = absurd (cc h)
checks-all (err e) p b h = absurd (cc h)

-- The snapshot check accepts exactly the states whose focus is consistent.
pub validate_focus_sound :
    (s : Scheduler) → no_duplicates (ids_of s.tasks) ≡ true → validate_focus s ≡ ok tt → IsFocused s
unfolding validate_focus checks
validate_focus_sound s d h =
    let (a, p, c) =
      checks-all (focus_check s.active_task_id (running_ids s.tasks))
        (pending_check s.pending_preemption_task_id s.tasks) (no_duplicates (created_of s.tasks))
        h in
    record {
      distinct = d;
      created = c;
      running = focus_check_sound s.active_task_id (running_ids s.tasks) a;
      target = pending_check_sound s.pending_preemption_task_id s.tasks p;
    }

pub validate_focus_complete : (s : Scheduler) → IsFocused s → validate_focus s ≡ ok tt
unfolding validate_focus andthen
validate_focus_complete s f =
    rw
      (
        f.running,
        focus_check-own s.active_task_id,
        pending_check_complete s.pending_preemption_task_id s.tasks f.target,
        f.created,
      )
      refl

-- What an operation leaves, whether it returned or raised.
after :
    {A : Type 0} (Q : A → Scheduler → Type 0) (r : Result A) (s : Scheduler)
    → ((a : A) → Q a s → IsFocused s)
    → Outcome Q r s
    → IsFocused s
after Q (ok a) s f q = f a q
after Q (err e) s f q = q

module _ ⦃u : Uuid⦄ where
  pub perform-IsFocused : (op : Operation) (s : Scheduler) → IsFocused s → IsFocused (perform op s)
  unfolding perform
  perform-IsFocused (submitting t) s f =
      after (λ _. IsFocused) (submit t s).0 (submit t s).1 (λ x q. q) ((Triple-submit t).at s f)
  perform-IsFocused (advancing count) s f =
      after (λ _. IsFocused) (advance_cycle count s).0 (advance_cycle count s).1 (λ x q. q)
        ((Triple-cycles count).at s f)
  perform-IsFocused reconciling s f =
      after Answers (reconcile_focus s).0 (reconcile_focus s).1 (λ x q. q.0)
        (Triple-reconcile.at s f)
  perform-IsFocused reaching_checkpoint s f =
      after Answers (checkpoint_active s).0 (checkpoint_active s).1 (λ x q. q.0)
        (Triple-checkpoint.at s f)
  perform-IsFocused (completing state) s f =
      after (λ _. Active none) (complete_active state s).0 (complete_active state s).1 (λ x q. q.0)
        ((Triple-complete state).at s f)
  perform-IsFocused (failing state) s f =
      after (λ _. Active none) (fail_active state s).0 (fail_active state s).1 (λ x q. q.0)
        ((Triple-fail state).at s f)
  perform-IsFocused (storing k state) s f =
      after (λ _. IsFocused) (set_resumable_state k state s).0 (set_resumable_state k state s).1
        (λ x q. q) ((Triple-state k state).at s f)

  pub perform_all-IsFocused :
      (ops : List Operation) (s : Scheduler) → IsFocused s → IsFocused (perform_all ops s)
  unfolding perform_all
  perform_all-IsFocused [] s f = f
  perform_all-IsFocused (op ∷ ops) s f =
      perform_all-IsFocused ops (perform op s) (perform-IsFocused op s f)

  -- Whatever calls of `submit`, `advance_cycle`, `reconcile_focus`, `checkpoint_active`,
  -- `complete_active`, `fail_active` and `set_resumable_state` follow, in whatever order, on a
  -- scheduler whose task identifiers are distinct and which the snapshot check on tasks and focus
  -- accepts, and whether each returns or raises, the check accepts the scheduler that results.
  pub validate_focus-perform_all :
      (ops : List Operation) (s : Scheduler)
      → no_duplicates (ids_of s.tasks) ≡ true
      → validate_focus s ≡ ok tt
      → validate_focus (perform_all ops s) ≡ ok tt
  validate_focus-perform_all ops s d h =
      validate_focus_complete (perform_all ops s)
        (perform_all-IsFocused ops s (validate_focus_sound s d h))

  answered :
      (r : Result FocusDecision) (s : Scheduler) (d : FocusDecision)
      → r ≡ ok d
      → Outcome Answers r s
      → IsFocused s × (d.active_task_id ≡ s.active_task_id)
  answered (ok d') s d e (f, q) = (f, sym (q ∙ ap (λ x. x.active_task_id) (ok-injective e)))
  answered (err x) s d e q = absurd (cc e)

  -- A decision that `reconcile_focus` returns, on a scheduler whose task identifiers are distinct
  -- and which the snapshot check on tasks and focus accepts, names the task that is active
  -- afterwards, and that task, if there is one, is the only one that runs.
  pub reconcile_focus-answers :
      (s : Scheduler) (d : FocusDecision)
      → no_duplicates (ids_of s.tasks) ≡ true
      → validate_focus s ≡ ok tt
      → (reconcile_focus s).0 ≡ ok d
      → (d.active_task_id ≡ (reconcile_focus s).1.active_task_id)
        × (running_ids (reconcile_focus s).1.tasks ≡ option_list d.active_task_id)
  reconcile_focus-answers s d distinct h e =
      let (f, q) =
        answered (reconcile_focus s).0 (reconcile_focus s).1 d e
          (Triple-reconcile.at s (validate_focus_sound s distinct h)) in
      (q, f.running ∙ ap option_list (sym q))
