-- ===== src/Attention/Scheduler/Laws.antt =====
-- The dictionary of tasks, and the tasks that run, under a write.
use prometheist.Base.{
  ℕ, ◌≡◌, refl, Bool, true, false, none, some, List, [], ◌∷◌, map, arith, if◌then◌else◌, ◌++◌, inl,
  inr, Bool-cases, nat_eq_iff, keep, contains, no_duplicates, discard, discard_absent, ◌==◌, ℕ_eq,
}
use prometheist.Attention.Scheduler.State.{AttentionTask, find_task, put_task}
use prometheist.Attention.Scheduler.Ranking.{is_running, running_ids, ids_of}

pub find_task-put_task :
    (t : AttentionTask) (ts : List AttentionTask) (k : ℕ)
    → find_task (put_task t ts) k ≡ (if t.task_id == k then some t else find_task ts k)
unfolding find_task put_task
find_task-put_task t [] k = refl
find_task-put_task t (x ∷ xs) k = ground (arith, find_task-put_task t xs k)

-- A task that is found has the identifier that was asked for.
pub find_task-id :
    (ts : List AttentionTask) (k : ℕ) (t : AttentionTask) → find_task ts k ≡ some t → t.task_id ≡ k
unfolding find_task
find_task-id [] k t h = cc
find_task-id (x ∷ xs) k t h = ground (arith, find_task-id xs k t)

module _ (t : AttentionTask) where
  pub ids_of-put_task :
      (ts : List AttentionTask) (old : AttentionTask)
      → find_task ts t.task_id ≡ some old
      → ids_of (put_task t ts) ≡ ids_of ts
  unfolding find_task put_task
  ids_of-put_task [] old h = cc
  ids_of-put_task (x ∷ xs) old h = ground (arith, ids_of-put_task xs old)

  pub created-put_task :
      (ts : List AttentionTask) (old : AttentionTask)
      → find_task ts t.task_id ≡ some old
      → t.created_seq ≡ old.created_seq
      → map (λ x. x.created_seq) (put_task t ts) ≡ map (λ x. x.created_seq) ts
  unfolding find_task put_task
  created-put_task [] old h e = cc
  created-put_task (x ∷ xs) old h e = ground (arith, created-put_task xs old)

-- The identifiers of the tasks that a test selects, under a write.
module _ (p : AttentionTask → Bool) where
  abbrev selected : List AttentionTask → List ℕ
  selected ts = ids_of (keep p ts)

  selected-put_same :
      (t : AttentionTask) (ts : List AttentionTask) (old : AttentionTask)
      → find_task ts t.task_id ≡ some old
      → p t ≡ p old
      → selected (put_task t ts) ≡ selected ts
  unfolding find_task put_task keep
  selected-put_same t [] old h e = cc
  selected-put_same t (x ∷ xs) old h e = ground (arith, selected-put_same t xs old)

  selected_absent :
      (k : ℕ) (ts : List AttentionTask)
      → contains (ids_of ts) k ≡ false
      → contains (selected ts) k ≡ false
  unfolding keep contains
  selected_absent k [] h = refl
  selected_absent k (x ∷ xs) h = ground (arith, selected_absent k xs)

  selected-put_stop :
      (t : AttentionTask) (ts : List AttentionTask) (old : AttentionTask)
      → find_task ts t.task_id ≡ some old
      → no_duplicates (ids_of ts) ≡ true
      → p t ≡ false
      → selected (put_task t ts) ≡ discard t.task_id (selected ts)
  unfolding find_task put_task keep discard no_duplicates contains
  selected-put_stop t [] old h d e = cc
  selected-put_stop t (x ∷ xs) old h d e = ground (
    arith,
    selected-put_stop t xs old,
    selected_absent t.task_id xs,
    discard_absent t.task_id (selected xs),
  )

  selected-put_start :
      (t : AttentionTask) (ts : List AttentionTask) (old : AttentionTask)
      → find_task ts t.task_id ≡ some old
      → selected ts ≡ []
      → p t ≡ true
      → selected (put_task t ts) ≡ t.task_id ∷ []
  unfolding find_task put_task keep
  selected-put_start t [] old h e r = cc
  selected-put_start t (x ∷ xs) old h e r = ground (arith, selected-put_start t xs old)

  selected_rests :
      (ts : List AttentionTask) (k : ℕ) (t : AttentionTask)
      → selected ts ≡ []
      → find_task ts k ≡ some t
      → p t ≡ false
  unfolding find_task keep
  selected_rests [] k t r h = cc
  selected_rests (x ∷ xs) k t r h = ground (arith, selected_rests xs k t)

  selected_found :
      (ts : List AttentionTask) (k : ℕ)
      → no_duplicates (ids_of ts) ≡ true
      → contains (selected ts) k ≡ true
      → (t : AttentionTask) × (find_task ts k ≡ some t) × (p t ≡ true)
  unfolding find_task keep contains no_duplicates
  selected_found [] k d h = absurd (cc h)
  selected_found (x ∷ xs) k d h = elim (Bool-cases (x.task_id == k)) [
    | inl e ↦ (x, rw e, ground (arith, e, selected_absent k xs, nat_eq_iff x.task_id k))
    | inr e ↦
        let (t, found, yes_p) = selected_found xs k (ground arith) (ground (arith, e)) in
        (t, rw e found, yes_p)
  ]

abbrev runs : AttentionTask → Bool
runs t = is_running t.status

module _ (t : AttentionTask) (ts : List AttentionTask) (old : AttentionTask)
    (found : find_task ts t.task_id ≡ some old) where
  pub running-put_same :
      is_running t.status ≡ is_running old.status → running_ids (put_task t ts) ≡ running_ids ts
  unfolding running_ids
  running-put_same = selected-put_same runs t ts old found

  -- A task that stops leaves the running ones.
  pub running-put_stop :
      no_duplicates (ids_of ts) ≡ true
      → is_running t.status ≡ false
      → running_ids (put_task t ts) ≡ discard t.task_id (running_ids ts)
  unfolding running_ids
  running-put_stop = selected-put_stop runs t ts old found

  -- A task that starts where none runs is the one that runs.
  pub running-put_start :
      running_ids ts ≡ []
      → is_running t.status ≡ true
      → running_ids (put_task t ts) ≡ t.task_id ∷ []
  unfolding running_ids
  running-put_start = selected-put_start runs t ts old found

-- Where no task runs, a task that is found does not.
pub found_rests :
    (ts : List AttentionTask) (k : ℕ) (t : AttentionTask)
    → running_ids ts ≡ []
    → find_task ts k ≡ some t
    → is_running t.status ≡ false
unfolding running_ids
found_rests = selected_rests runs

-- The one task that runs is found.
pub runner_found :
    (ts : List AttentionTask) (k : ℕ)
    → no_duplicates (ids_of ts) ≡ true
    → running_ids ts ≡ k ∷ []
    → (t : AttentionTask) × (find_task ts k ≡ some t) × (is_running t.status ≡ true)
unfolding running_ids contains
runner_found ts k d h = selected_found runs ts k d (rw h (ground (arith, nat_eq_iff k k)))

pub find_task-absent :
    (ts : List AttentionTask) (k : ℕ) → find_task ts k ≡ none → contains (ids_of ts) k ≡ false
unfolding find_task contains
find_task-absent [] k h = refl
find_task-absent (x ∷ xs) k h = ground (arith, find_task-absent xs k)

-- A new task comes last.
pub put_task_new :
    (t : AttentionTask) (ts : List AttentionTask)
    → find_task ts t.task_id ≡ none
    → put_task t ts ≡ ts ++ t ∷ []
unfolding put_task find_task
put_task_new t [] h = refl
put_task_new t (x ∷ xs) h = ground (arith, put_task_new t xs)

-- A new task that does not run changes nothing about those that do.
pub running-put_new :
    (t : AttentionTask) (ts : List AttentionTask)
    → find_task ts t.task_id ≡ none
    → is_running t.status ≡ false
    → running_ids (put_task t ts) ≡ running_ids ts
unfolding running_ids find_task put_task keep
running-put_new t [] h e = rw e
running-put_new t (x ∷ xs) h e = ground (arith, running-put_new t xs)
