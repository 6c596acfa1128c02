-- ===== src/Attention/Focus/Candidate.antt =====
-- What `_best_queued_task_id` finds.
use prometheist.Base.{
  ℕ, ◌≡◌, refl, subst, Bool, true, false, ◌&&◌, some, List, [], ◌∷◌, arith, keep, no_duplicates,
  contains, ℕ_eq, nat_eq_iff, beq_refl, ◌<?◌, ℕ_ordered, pair_ordered, first_sorted, All, All-keep,
  All-pair, All-imp, kept,
}
use prometheist.Attention.Scheduler.{
  AttentionTask, Scheduler, find_task, is_queued, queued_at, ids_of, queue_key,
  dependencies_satisfied, resources_satisfied, ranked_dependency_satisfied, ranked_queued,
}
use prometheist.Attention.Focus.Defs.{best_queued_task_id, first_id}

unfoldable pub waiting_ready : Scheduler → AttentionTask → Bool
waiting_ready s t = is_queued t.status && dependencies_satisfied s t

-- What the scheduler asks of a task before it may take the focus.
unfoldable pub is_runnable : Scheduler → AttentionTask → Bool
unfolding waiting_ready
is_runnable s t = waiting_ready s t && resources_satisfied s t

-- Task `t` has identifier `c`, is runnable, and no runnable task has a smaller key in the queue.
pub record IsBest (s : Scheduler) (c : ℕ) (t : AttentionTask) : Type 0 where
  pub found : find_task s.tasks c ≡ some t
  pub runnable : is_runnable s t ≡ true
  pub least :
      All (λ x. (is_runnable s x && queue_key s s.cycle x <? queue_key s s.cycle t) ≡ false) s.tasks

-- Every task is found under its identifier, where identifiers are distinct.
pub find_task-own :
    (ts : List AttentionTask)
    → no_duplicates (ids_of ts) ≡ true
    → All (λ t. find_task ts t.task_id ≡ some t) ts
unfolding find_task no_duplicates contains
find_task-own [] d = tt
find_task-own (x ∷ xs) d =
    (ground (arith, beq_refl x.task_id), later xs (ground arith) (find_task-own xs (ground arith)))
  where
    later :
        (ys : List AttentionTask)
        → contains (ids_of ys) x.task_id ≡ false
        → All (λ t. find_task xs t.task_id ≡ some t) ys
        → All (λ t. find_task (x ∷ xs) t.task_id ≡ some t) ys
    later [] h p = tt
    later (y ∷ ys) h p = (
      ground (arith, p.0, nat_eq_iff y.task_id x.task_id, nat_eq_iff x.task_id y.task_id),
      later ys (ground arith) p.1,
    )

and_assoc : (a b c : Bool) → (a && (b && c)) ≡ false → ((a && b) && c) ≡ false
and_assoc a b c h = ground arith

first_cons :
    (ts : List AttentionTask) (c : ℕ)
    → first_id ts ≡ some c
    → (t : AttentionTask) × (us : List AttentionTask) × (ts ≡ t ∷ us) × (t.task_id ≡ c)
unfolding first_id
first_cons [] c h = absurd (cc h)
first_cons (t ∷ us) c h = (t, us, refl, some_eq h)
  where
    some_eq : {a b : ℕ} → some a ≡ some b → a ≡ b
    some_eq e = cc

-- Where task identifiers are distinct, the candidate for the focus is a queued task whose
-- dependencies are completed and whose contract fits the pools, and no such task has a smaller
-- queue key.
pub best_queued_task_id-IsBest :
    (s : Scheduler) (c : ℕ)
    → no_duplicates (ids_of s.tasks) ≡ true
    → best_queued_task_id s ≡ some c
    → (t : AttentionTask) × IsBest s c t
unfolding best_queued_task_id ranked_queued ranked_dependency_satisfied is_runnable waiting_ready
best_queued_task_id-IsBest s c d h =
    let (t, us, e, name) = first_cons (ranked_queued s s.cycle) c h in
    let own = find_task-own s.tasks d in
    let P : AttentionTask → Type 0 =
      λ x. (find_task s.tasks x.task_id ≡ some x) × (waiting_ready s x ≡ true) in
    let ((found, q), r, below) =
      first_sorted (queue_key s s.cycle) (waiting_ready s) (resources_satisfied s) P s.tasks t us
        (All-pair _ _ (keep (waiting_ready s) s.tasks) (All-keep _ (waiting_ready s) s.tasks own)
          (kept (waiting_ready s) s.tasks))
        e in
    (
      t,
      record {
        found = subst (λ k. find_task s.tasks k ≡ some t) name found;
        runnable = rw (q, r) refl;
        least =
            All-imp _ _ (λ x e. and_assoc (waiting_ready s x) (resources_satisfied s x) _ e) s.tasks
              below;
      },
    )

-- The candidate is queued.
pub best_queued_task_id-queued :
    (s : Scheduler) (c : ℕ)
    → no_duplicates (ids_of s.tasks) ≡ true
    → best_queued_task_id s ≡ some c
    → queued_at (find_task s.tasks c) ≡ true
unfolding is_runnable waiting_ready
best_queued_task_id-queued s c d h =
    let (t, best) = best_queued_task_id-IsBest s c d h in
    rw best.found (ground (arith, best.runnable))
