-- ===== src/Attention/Focus/Triples.antt =====
-- Pre- and postconditions of the scheduler's methods. A method that raises leaves a state whose
-- focus is consistent.
use prometheist.Base.{
  ℕ, ◌+◌, ◌≡◌, refl, sym, ap, subst, ◌∙◌, false, Option, none, some, List, [], ◌∷◌, ◌++◌, String,
  arith, Result, ok, err, nat_eq_iff,
}
use prometheist.Attention.Resources.{Uuid}
use prometheist.Attention.Scheduler.{
  AttentionTask, TaskStatus, Scheduler, Action, ◌>>=◌, find_task, put_task, is_running, transition,
  transition_of, replace_task, invalidate_scheduling_plan,
}
use prometheist.Attention.Scheduler.Laws.{
  find_task-put_task, find_task-id, runner_found, found_rests,
}
use prometheist.Attention.Focus.Focused.{Focused, option_list, Focused-quiet, Focused-stop}

abbrev pub IsFocused : Scheduler → Type 0
IsFocused s = Focused s.tasks s.active_task_id s.pending_preemption_task_id

module _ {A : Type 0} where
  abbrev pub Outcome : (A → Scheduler → Type 0) → Result A → Scheduler → Type 0
  Outcome Q (ok a) s = Q a s
  Outcome Q (err e) s = IsFocused s

  pub record Triple (P : Scheduler → Type 0) (m : Action A) (Q : A → Scheduler → Type 0)
      : Type 0 where
    pub at : (s : Scheduler) → P s → Outcome Q (m s).0 (m s).1

Outcome-bind :
    {A B : Type 0} {Q : A → Scheduler → Type 0} {R : B → Scheduler → Type 0} (r : Result A)
    (s : Scheduler) (f : A → Action B)
    → Outcome Q r s
    → ((a : A) → Triple (Q a) (f a) R)
    → Outcome R
        (elim r as (λ _. Result B × Scheduler) [ ok a ↦ f a s | err e ↦ (err e, s) ]).0
        (elim r as (λ _. Result B × Scheduler) [ ok a ↦ f a s | err e ↦ (err e, s) ]).1
Outcome-bind (ok a) s f q h = (h a).at s q
Outcome-bind (err e) s f q h = q

module _ {A B : Type 0} {P : Scheduler → Type 0} {Q : A → Scheduler → Type 0}
    {R : B → Scheduler → Type 0} where
  pub Triple-bind :
      (m : Action A) (f : A → Action B)
      → Triple P m Q
      → ((a : A) → Triple (Q a) (f a) R)
      → Triple P (m >>= f) R
  Triple-bind m f h k = record { at = λ s p. Outcome-bind (m s).0 (m s).1 f (h.at s p) k }

-- The active task is `a`, and the focus is consistent.
abbrev pub Active : Option ℕ → Scheduler → Type 0
Active a s = IsFocused s × (s.active_task_id ≡ a)

-- Between the moment that task `k` stops and the moment that the focus is cleared, no task runs.
abbrev pub Loose : ℕ → Scheduler → Type 0
Loose k s = Focused s.tasks none none × ((t : AttentionTask) × (find_task s.tasks k ≡ some t))

-- Task `k` is there after a write to it.
pub put_found :
    (ts : List AttentionTask) (k : ℕ) (t : AttentionTask)
    → t.task_id ≡ k
    → find_task (put_task t ts) k ≡ some t
put_found ts k t e = ground (arith, find_task-put_task t ts k, nat_eq_iff t.task_id k)

module _ ⦃u : Uuid⦄ where
  abbrev pub moved : Scheduler → AttentionTask → TaskStatus → String → Scheduler
  moved s t to_status reason =
      let s' = invalidate_scheduling_plan s in
      record s' {
        transitions = s'.transitions ++ transition_of t to_status s'.cycle reason ∷ [];
        tasks = put_task (record t { status = to_status; revision = t.revision + 1 }) s'.tasks;
      }

  pub transition_at :
      (s : Scheduler) (k : ℕ) (to_status : TaskStatus) (reason : String) (t : AttentionTask)
      → find_task s.tasks k ≡ some t
      → transition k to_status reason s ≡ (ok tt, moved s t to_status reason)
  unfolding transition
  transition_at s k to_status reason t found = rw found

  -- The active task stops.
  pub Triple-stop :
      (k : ℕ) (to_status : TaskStatus) (reason : String)
      → is_running to_status ≡ false
      → Triple (Active (some k)) (transition k to_status reason) (λ _. Loose k)
  unfolding invalidate_scheduling_plan
  Triple-stop k to_status reason rests = record {
    at = λ s (f, e).
        let (t, found, _) = runner_found s.tasks k f.distinct (f.running ∙ ap option_list e) in
        let name = find_task-id s.tasks k t found in
        let t' : AttentionTask = record t { status = to_status; revision = t.revision + 1 } in
        let here = subst (λ j. find_task s.tasks j ≡ some t) (sym name) found in
        let focused =
          subst (λ a. Focused s.tasks a s.pending_preemption_task_id) (e ∙ ap some (sym name)) f in
        subst (λ r. Outcome (λ _. Loose k) r.0 r.1)
          (sym (transition_at s k to_status reason t found))
          (Focused-stop t' s.tasks t here refl focused rests, (t', put_found s.tasks k t' name));
  }

  -- A task moves between statuses in which it does not run.
  pub Triple-move :
      (k : ℕ) (to_status : TaskStatus) (reason : String)
      → is_running to_status ≡ false
      → Triple (Loose k) (transition k to_status reason) (λ _. Loose k)
  unfolding invalidate_scheduling_plan
  Triple-move k to_status reason rests = record {
    at = λ s (f, (t, found)).
        let name = find_task-id s.tasks k t found in
        let t' : AttentionTask = record t { status = to_status; revision = t.revision + 1 } in
        let here = subst (λ j. find_task s.tasks j ≡ some t) (sym name) found in
        let same = rests ∙ sym (found_rests s.tasks k t f.running found) in
        subst (λ r. Outcome (λ _. Loose k) r.0 r.1)
          (sym (transition_at s k to_status reason t found))
          (Focused-quiet t' s.tasks t here refl f same, (t', put_found s.tasks k t' name));
  }

abbrev pub updated : Scheduler → AttentionTask → Scheduler
updated s t = let s' = invalidate_scheduling_plan s in record s' { tasks = put_task t s'.tasks }

pub replace_at :
    (s : Scheduler) (k : ℕ) (update : AttentionTask → AttentionTask) (t : AttentionTask)
    → find_task s.tasks k ≡ some t
    → replace_task k update s ≡ (ok tt, updated s (update t))
unfolding replace_task
replace_at s k update t found = rw found

-- What the updates of `_replace_task` leave alone.
pub record IsUpdate (update : AttentionTask → AttentionTask) : Type 0 where
  pub same_id : (t : AttentionTask) → (update t).task_id ≡ t.task_id
  pub same_seq : (t : AttentionTask) → (update t).created_seq ≡ t.created_seq
  pub same_status : (t : AttentionTask) → (update t).status ≡ t.status
