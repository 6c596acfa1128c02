-- ===== src/Attention/Focus/Steps.antt =====
-- The methods that the focus operations are made of, with their pre- and postconditions.
use prometheist.Base.{
  ℕ, ◌+◌, ◌≡◌, refl, sym, ap, subst, ◌∙◌, Bool, true, false, not, Option, none, some, String, ok,
  err, key_error, if◌then◌else◌, Option-cases, inl, inr,
}
use prometheist.Attention.Resources.{Uuid}
use prometheist.Attention.Scheduler.{
  AttentionTask, queued, running, suspended, Scheduler, Action, ◌>>=◌, ◌>>◌, find_task, put_task,
  is_running, is_queued, transition, replace_task, invalidate_scheduling_plan,
}
use prometheist.Attention.Scheduler.Laws.{find_task-id}
use prometheist.Attention.Focus.Defs.{raise, fetch, start_task, requeue_active, requeue, is_some}
use prometheist.Attention.Focus.Lifecycle.{clear_focus}
use prometheist.Attention.Focus.Focused.{Focused, Focused-same, Focused-quiet, Focused-start}
use prometheist.Attention.Focus.Triples.{
  IsFocused, Active, Loose, Outcome, Triple, Triple-bind, Triple-stop, Triple-move, transition_at,
  replace_at, IsUpdate, put_found, moved,
}

abbrev pub Keeps : {A : Type 0} → Action A → Type 0
Keeps m = Triple IsFocused m (λ _. IsFocused)

-- A write that leaves identifier, submission number and status alone keeps the focus consistent,
-- whether or not the task is there.
pub Triple-update :
    (a : Option ℕ) (k : ℕ) (update : AttentionTask → AttentionTask)
    → IsUpdate update
    → Triple (Active a) (replace_task k update) (λ _. Active a)
unfolding replace_task
Triple-update a k update u = record {
  at = λ s (f, e). elim (Option-cases (find_task s.tasks k)) [
    | inl gone ↦ rw gone f
    | inr (t, found) ↦
        let here =
          subst (λ j. find_task s.tasks j ≡ some t)
            (sym (u.same_id t ∙ find_task-id s.tasks k t found)) found in
        rw found (
          Focused-same (update t) s.tasks t here (u.same_seq t) f (ap is_running (u.same_status t))
              (ap is_queued (u.same_status t)),
          e,
        )
  ];
}

pub Triple-update-Loose :
    (k : ℕ) (update : AttentionTask → AttentionTask)
    → IsUpdate update
    → Triple (Loose k) (replace_task k update) (λ _. Loose k)
unfolding invalidate_scheduling_plan
Triple-update-Loose k update u = record {
  at = λ s (f, (t, found)).
      let name = u.same_id t ∙ find_task-id s.tasks k t found in
      let here = subst (λ j. find_task s.tasks j ≡ some t) (sym name) found in
      subst (λ r. Outcome (λ _. Loose k) r.0 r.1) (sym (replace_at s k update t found))
        (
          Focused-quiet (update t) s.tasks t here (u.same_seq t) f
              (ap is_running (u.same_status t)),
          (update t, put_found s.tasks k (update t) name),
        );
}

module _ {A : Type 0} {P : Scheduler → Type 0} {Q : A → Scheduler → Type 0} where
  pub Triple-if :
      (b : Bool) (m n : Action A)
      → (b ≡ true → Triple P m Q)
      → (b ≡ false → Triple P n Q)
      → Triple P (if b then m else n) Q
  Triple-if true m n h k = h refl
  Triple-if false m n h k = k refl

  pub Triple-raise :
      (message : String) → ((s : Scheduler) → P s → IsFocused s) → Triple P (raise message) Q
  Triple-raise message h = record { at = h }

-- Task `k` is `t`.
abbrev pub Has : (Scheduler → Type 0) → ℕ → AttentionTask → Scheduler → Type 0
Has P k t s = P s × (find_task s.tasks k ≡ some t)

pub fetch_found :
    (s : Scheduler) (k : ℕ) (t : AttentionTask)
    → find_task s.tasks k ≡ some t
    → fetch k s ≡ (ok t, s)
unfolding fetch
fetch_found s k t found = rw (found, fetch)

pub fetch_absent :
    (s : Scheduler) (k : ℕ) → find_task s.tasks k ≡ none → fetch k s ≡ (err key_error, s)
unfolding fetch
fetch_absent s k gone = rw (gone, fetch)

pub Triple-fetch :
    (P : Scheduler → Type 0) (k : ℕ)
    → ((s : Scheduler) → P s → IsFocused s)
    → Triple P (fetch k) (Has P k)
Triple-fetch P k h = record {
  at = λ s p. elim (Option-cases (find_task s.tasks k)) [
    | inl gone ↦ subst (λ r. Outcome (Has P k) r.0 r.1) (sym (fetch_absent s k gone)) (h s p)
    | inr (t, found) ↦
        subst (λ r. Outcome (Has P k) r.0 r.1) (sym (fetch_found s k t found)) (p, found)
  ];
}

module _ ⦃u : Uuid⦄ where
  started :
      (s : Scheduler) (k : ℕ) (reason : String) (t : AttentionTask)
      → IsFocused s
      → s.active_task_id ≡ none
      → find_task s.tasks k ≡ some t
      → Focused (moved s t running reason).tasks (some k) none
  unfolding invalidate_scheduling_plan
  started s k reason t f e found =
      let name = find_task-id s.tasks k t found in
      let here = subst (λ j. find_task s.tasks j ≡ some t) (sym name) found in
      let focused = subst (λ a. Focused s.tasks a s.pending_preemption_task_id) e f in
      let t' : AttentionTask = record t { status = running; revision = t.revision + 1 } in
      subst (λ j. Focused (put_task t' s.tasks) (some j) none) name
        (Focused-start t' s.tasks t here refl focused refl)

  abbrev Ran : ℕ → Scheduler → Type 0
  Ran k s = Focused s.tasks (some k) none

  abbrev set_focus : ℕ → Action (Unit {0})
  set_focus k s = (ok tt, record s { active_task_id = some k; pending_preemption_task_id = none })

  Triple-focus : (k : ℕ) → Triple (Ran k) (set_focus k) (λ _. Active (some k))
  Triple-focus k = record { at = λ s f. (f, refl) }

  Triple-run :
      (k : ℕ) (reason : String) (t : AttentionTask)
      → Triple
          (Has (Active none) k t)
          (do
            transition k running reason
            λ s. (ok tt, record s { active_task_id = some k; pending_preemption_task_id = none }))
          (λ _. Active (some k))
  Triple-run k reason t =
      Triple-bind {Q = λ _. Ran k} (transition k running reason) _
        (record {
          at = λ s ((f, e), found).
              subst (λ r. Outcome (λ _. Ran k) r.0 r.1)
                (sym (transition_at s k running reason t found)) (started s k reason t f e found);
        })
        (λ _. Triple-focus k)

  -- `_start`, where nothing is active
  pub Triple-start :
      (k : ℕ) (reason : String) → Triple (Active none) (start_task k reason) (λ _. Active (some k))
  unfolding start_task
  Triple-start k reason = record { at = λ s p. rw (ap is_some p.1) (body.at s p) }
    where
      body :
          Triple
            (Active none)
            (do
              t ← fetch k
              if not (is_queued t.status) then raise "Task is not queued" else do
                transition k running reason
                λ s. (
                  ok tt,
                  record s { active_task_id = some k; pending_preemption_task_id = none },
                ))
            (λ _. Active (some k))
      body = Triple-bind (fetch k) _ (Triple-fetch (Active none) k (λ s p. p.0)) (λ t.
          Triple-if (not (is_queued t.status)) _ _
            (λ _. Triple-raise "Task is not queued" (λ s p. p.0.0)) (λ _. Triple-run k reason t))

  pub stamp-IsUpdate : (cycle : ℕ) → IsUpdate (λ t. record t { enqueued_cycle = cycle })
  stamp-IsUpdate cycle = record {
    same_id = λ t. refl;
    same_seq = λ t. refl;
    same_status = λ t. refl;
  }

  pub Triple-clear : (k : ℕ) → Triple (Loose k) clear_focus (λ _. Active none)
  Triple-clear k = record { at = λ s (f, _). (f, refl) }

  -- `_requeue_active`
  pub Triple-requeue :
      (k : ℕ) (reason : String)
      → Triple (Active (some k)) (requeue_active reason) (λ _. Active none)
  unfolding requeue_active requeue
  Triple-requeue k reason = record {
    at = λ s p.
        subst (λ a. Outcome (λ _. Active none) (requeue reason a s).0 (requeue reason a s).1)
          (sym p.1) ((body s.cycle).at s p);
  }
    where
      body :
          (cycle : ℕ)
          → Triple
              (Active (some k))
              (do
                transition k suspended reason
                transition k queued "suspended task returned to queue"
                replace_task k (λ t. record t { enqueued_cycle = cycle })
                clear_focus)
              (λ _. Active none)
      body cycle =
          Triple-bind (transition k suspended reason) _ (Triple-stop k suspended reason refl) (λ _.
            Triple-bind (transition k queued "suspended task returned to queue") _
              (Triple-move k queued "suspended task returned to queue" refl)
              (λ _.
                Triple-bind (replace_task k (λ t. record t { enqueued_cycle = cycle })) _
                  (Triple-update-Loose k (λ t. record t { enqueued_cycle = cycle })
                    (stamp-IsUpdate cycle))
                  (λ _. Triple-clear k)))
