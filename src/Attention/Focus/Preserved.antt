-- ===== src/Attention/Focus/Preserved.antt =====
-- The other single-focus operations keep the focus consistent, and so does every sequence of them.
use prometheist.Base.{
  no_duplicates-snoc, ℕ, ◌≡◌, ◌+◌, refl, sym, ap, subst, ◌∙◌, Bool, true, false, not, Option, none,
  some, List, [], ◌∷◌, ◌++◌, map, String, if◌then◌else◌, Result, ok, err, Bool-cases, inl, inr,
  arith, any, no_duplicates, contains, nat_eq, ◌==◌, ℕ_eq, nat_eq_iff,
}
use prometheist.Attention.Resources.{Uuid}
use prometheist.Attention.Scheduler.{
  AttentionTask, TaskStatus, new, queued, running, suspended, blocked, completed, failed, Scheduler,
  Action, ◌>>◌, find_task, put_task, is_running, replace_task, transition,
  invalidate_scheduling_plan,
}
use prometheist.Attention.Scheduler.Laws.{
  find_task-put_task, find_task-absent, put_task_new, running-put_new, running-put_same,
  ids_of-put_task, created-put_task, find_task-id,
}
use prometheist.Attention.Focus.Defs.{
  is_some, is_new, fetch, advance_cycle, require_legacy_focus_mode, submit,
}
use prometheist.Attention.Focus.Lifecycle.{
  store_state, finish_active, complete_active, fail_active, set_resumable_state,
}
use prometheist.Attention.Focus.Focused.{Focused, created_of}
use prometheist.Attention.Focus.Triples.{
  IsFocused, Active, Outcome, Triple, Triple-bind, Triple-stop, IsUpdate, transition_at, put_found,
}
use prometheist.Attention.Focus.Steps.{
  Triple-fetch, Triple-raise, Triple-update, Triple-clear, stamp-IsUpdate,
}
use prometheist.Attention.Focus.Choices.{Triple-legacy, Triple-pre}

pub state-IsUpdate : (state : String) → IsUpdate (λ t. record t { resumable_state = state })
state-IsUpdate state = record { same_id = λ t. refl; same_seq = λ t. refl; same_status = λ t. refl }

Outcome-forget :
    {A : Type 0} (a : Option ℕ) (r : Result A) (s : Scheduler)
    → Outcome (λ _. Active a) r s
    → Outcome (λ _. IsFocused) r s
Outcome-forget a (ok x) s p = p.0
Outcome-forget a (err e) s p = p

forget :
    {A : Type 0} {P : Scheduler → Type 0} {m : Action A} {a : Option ℕ}
    → Triple P m (λ _. Active a)
    → Triple P m (λ _. IsFocused)
forget {m} {a} h = record { at = λ s p. Outcome-forget a (m s).0 (m s).1 (h.at s p) }

replaced :
    (k : ℕ) (update : AttentionTask → AttentionTask)
    → IsUpdate update
    → Triple IsFocused (replace_task k update) (λ _. IsFocused)
replaced k update h = record {
  at = λ s f. (forget (Triple-update s.active_task_id k update h)).at s (f, refl);
}

module _ ⦃u : Uuid⦄ where
  Triple-store :
      (a : Option ℕ) (k : ℕ) (state : Option String)
      → Triple (Active a) (store_state k state) (λ _. Active a)
  unfolding store_state
  Triple-store a k none = record { at = λ s p. p }
  Triple-store a k (some state) =
      Triple-update a k (λ t. record t { resumable_state = state }) (state-IsUpdate state)

  Triple-finish :
      (status : TaskStatus) (reason : String) (state : Option String) (a : Option ℕ)
      → is_running status ≡ false
      → Triple (Active a) (finish_active status reason state a) (λ _. Active none)
  unfolding finish_active
  Triple-finish status reason state none rests = Triple-raise "No active task" (λ s p. p.0)
  Triple-finish status reason state (some k) rests =
      Triple-bind (store_state k state) _ (Triple-store (some k) k state) (λ _.
        Triple-bind (transition k status reason) _ (Triple-stop k status reason rests)
          (λ _. Triple-clear k))

  Triple-close :
      (status : TaskStatus) (reason : String) (state : Option String)
      → is_running status ≡ false
      → Triple IsFocused
          (do require_legacy_focus_mode; λ s. finish_active status reason state s.active_task_id s)
          (λ _. Active none)
  Triple-close status reason state rests =
      Triple-bind require_legacy_focus_mode _ (Triple-legacy IsFocused (λ s f. f)) (λ _. record {
        at = λ s f. (Triple-finish status reason state s.active_task_id rests).at s (f, refl);
      })

  pub Triple-complete :
      (state : Option String) → Triple IsFocused (complete_active state) (λ _. Active none)
  unfolding complete_active
  Triple-complete state = Triple-close completed "task completed" state refl

  pub Triple-fail :
      (state : Option String) → Triple IsFocused (fail_active state) (λ _. Active none)
  unfolding fail_active
  Triple-fail state = Triple-close failed "task failed" state refl

  pub Triple-state :
      (k : ℕ) (state : String) → Triple IsFocused (set_resumable_state k state) (λ _. IsFocused)
  unfolding set_resumable_state
  Triple-state k state = Triple-bind (fetch k) _ (Triple-fetch IsFocused k (λ s f. f)) (λ t.
      Triple-pre _ (λ s p. p.0)
        (replaced k (λ t. record t { resumable_state = state }) (state-IsUpdate state)))

pub Triple-cycles : (count : ℕ) → Triple IsFocused (advance_cycle count) (λ _. IsFocused)
unfolding advance_cycle invalidate_scheduling_plan
Triple-cycles count = record { at = λ s f. kept_by (nat_eq count 0) s f }
  where
    kept_by :
        (b : Bool) (s : Scheduler)
        → IsFocused s
        → IsFocused (if b then s else invalidate_scheduling_plan s)
    kept_by true s f = f
    kept_by false s f = f

map-append :
    (f : AttentionTask → ℕ) (xs ys : List AttentionTask) → map f (xs ++ ys) ≡ map f xs ++ map f ys
map-append f [] ys = refl
map-append f (x ∷ xs) ys = ap (λ zs. f x ∷ zs) (map-append f xs ys)

snoc_distinct :
    (f : AttentionTask → ℕ) (ts : List AttentionTask) (t : AttentionTask)
    → no_duplicates (map f ts) ≡ true
    → contains (map f ts) (f t) ≡ false
    → no_duplicates (map f (ts ++ t ∷ [])) ≡ true
snoc_distinct f ts t d h =
    subst (λ ks. no_duplicates ks ≡ true) (sym (map-append f ts (t ∷ [])))
      (no_duplicates-snoc (map f ts) (f t) d h)

fresh_seq :
    (ts : List AttentionTask) (k : ℕ)
    → any (λ x. x.created_seq == k) ts ≡ false
    → contains (created_of ts) k ≡ false
unfolding any contains
fresh_seq [] k h = refl
fresh_seq (x ∷ ts) k h = ground (arith, fresh_seq ts k)

-- A new task changes nothing about the focus.
Focused-new :
    (t : AttentionTask) (ts : List AttentionTask) {a p : Option ℕ}
    → Focused ts a p
    → find_task ts t.task_id ≡ none
    → any (λ x. x.created_seq == t.created_seq) ts ≡ false
    → is_running t.status ≡ false
    → Focused (put_task t ts) a p
Focused-new t ts {a} {p} f gone fresh rests = record {
  distinct =
      rw (put_task_new t ts gone)
        (snoc_distinct (λ x. x.task_id) ts t f.distinct (find_task-absent ts t.task_id gone));
  created =
      rw (put_task_new t ts gone)
        (snoc_distinct (λ x. x.created_seq) ts t f.created (fresh_seq ts t.created_seq fresh));
  running = running-put_new t ts gone rests ∙ f.running;
  target =
      λ k e. ground (arith, find_task-put_task t ts k, f.target k e, gone, nat_eq_iff t.task_id k);
}

-- A task that was not running is queued.
Focused-queue :
    (t : AttentionTask) (ts : List AttentionTask) (old : AttentionTask) {a p : Option ℕ}
    → find_task ts t.task_id ≡ some old
    → t.created_seq ≡ old.created_seq
    → is_running old.status ≡ false
    → t.status ≡ queued
    → Focused ts a p
    → Focused (put_task t ts) a p
Focused-queue t ts old {a} {p} found seq rests q f = record {
  distinct = rw (ids_of-put_task t ts old found) f.distinct;
  created = rw (created-put_task t ts old found seq) f.created;
  running = running-put_same t ts old found (ap is_running q ∙ sym rests) ∙ f.running;
  target =
      λ k e. ground (arith, find_task-put_task t ts k, f.target k e, q, nat_eq_iff t.task_id k);
}

-- Task `k` is there and does not run.
abbrev Resting : ℕ → Scheduler → Type 0
Resting k s =
    IsFocused s
    × ((t : AttentionTask) × (find_task s.tasks k ≡ some t) × (is_running t.status ≡ false))

new_rests : (x : TaskStatus) → not (is_new x) ≡ false → is_running x ≡ false
new_rests new h = refl
new_rests queued h = refl
new_rests running h = absurd (cc h)
new_rests suspended h = refl
new_rests blocked h = refl
new_rests completed h = refl
new_rests failed h = refl

is_some-none : {A : Type 0} (o : Option A) → is_some o ≡ false → o ≡ none
is_some-none none h = refl
is_some-none (some a) h = absurd (cc h)

module _ {A : Type 0} {P : Scheduler → Type 0} {Q : A → Scheduler → Type 0} where
  Triple-split :
      (b : Scheduler → Bool) (m n : Action A)
      → Triple (λ s. P s × (b s ≡ true)) m Q
      → Triple (λ s. P s × (b s ≡ false)) n Q
      → Triple P (λ s. if b s then m s else n s) Q
  Triple-split b m n h k = record {
    at = λ s p. elim (Bool-cases (b s)) [
      | inl e ↦
          subst (λ c. Outcome Q (if c then m s else n s).0 (if c then m s else n s).1) (sym e)
            (h.at s (p, e))
      | inr e ↦
          subst (λ c. Outcome Q (if c then m s else n s).0 (if c then m s else n s).1) (sym e)
            (k.at s (p, e))
    ];
  }

module _ ⦃u : Uuid⦄ where
  Triple-queue :
      (k : ℕ) (reason : String) → Triple (Resting k) (transition k queued reason) (λ _. IsFocused)
  unfolding invalidate_scheduling_plan
  Triple-queue k reason = record {
    at = λ s (f, (t, found, rests)).
        let name = find_task-id s.tasks k t found in
        let t' : AttentionTask = record t { status = queued; revision = t.revision + 1 } in
        let here = subst (λ j. find_task s.tasks j ≡ some t) (sym name) found in
        subst (λ r. Outcome (λ _. IsFocused) r.0 r.1)
          (sym (transition_at s k queued reason t found))
          (Focused-queue t' s.tasks t here refl rests refl f);
  }

  Triple-admit :
      (k cycle : ℕ)
      → Triple
          (Resting k)
          (do
            transition k queued "task submitted"
            replace_task k (λ t. record t { enqueued_cycle = cycle }))
          (λ _. IsFocused)
  Triple-admit k cycle =
      Triple-bind (transition k queued "task submitted") _ (Triple-queue k "task submitted")
        (λ _. replaced k (λ t. record t { enqueued_cycle = cycle }) (stamp-IsUpdate cycle))

  -- `submit`
  pub Triple-submit : (t : AttentionTask) → Triple IsFocused (submit t) (λ _. IsFocused)
  unfolding submit
  Triple-submit t =
      Triple-split (λ s. is_some (find_task s.tasks t.task_id)) _ _ (record { at = λ s p. p.0 })
        (Triple-split (λ s. any (λ x. x.created_seq == t.created_seq) s.tasks) _ _
          (record { at = λ s p. p.0.0 })
          (Triple-split (λ s. not (is_new t.status)) _ _ (record { at = λ s p. p.0.0.0 })
            (record {
              at = λ s (((f, gone), fresh), novel).
                  let rests = new_rests t.status novel in
                  let absent = is_some-none (find_task s.tasks t.task_id) gone in
                  (Triple-admit t.task_id s.cycle).at (record s { tasks = put_task t s.tasks })
                    (
                      Focused-new t s.tasks f absent fresh rests,
                      (t, put_found s.tasks t.task_id t refl, rests),
                    );
            })))
