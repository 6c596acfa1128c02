-- ===== src/Attention/Focus/Focused.antt =====
-- What the snapshot check asks of the tasks and of the focus, and how writes of a task keep it.
use prometheist.Base.{
  ℕ, ◌≡◌, ap, ◌∙◌, true, false, Option, none, some, List, [], ◌∷◌, map, arith, no_duplicates,
  discard, discard_only, ℕ_eq, nat_eq_iff,
}
use prometheist.Attention.Scheduler.{
  AttentionTask, find_task, put_task, is_running, is_queued, queued_at, running_ids, ids_of,
}
use prometheist.Attention.Scheduler.Laws.{
  find_task-put_task, ids_of-put_task, created-put_task, running-put_same, running-put_stop,
  running-put_start,
}

abbrev pub option_list {ℓ} : {A : Type ℓ} → Option A → List A
option_list none = []
option_list (some a) = a ∷ []

abbrev pub created_of : List AttentionTask → List ℕ
created_of ts = map (λ t. t.created_seq) ts

-- Identifiers and submission numbers are distinct, the running tasks are exactly the active one,
-- and a pending replacement is a queued task.
pub record Focused (ts : List AttentionTask) (active pending : Option ℕ) : Type 0 where
  pub distinct : no_duplicates (ids_of ts) ≡ true
  pub created : no_duplicates (created_of ts) ≡ true
  pub running : running_ids ts ≡ option_list active
  pub target : (p : ℕ) → pending ≡ some p → queued_at (find_task ts p) ≡ true

pub Focused-clear : {ts : List AttentionTask} {a p : Option ℕ} → Focused ts a p → Focused ts a none
Focused-clear f = record {
  distinct = f.distinct;
  created = f.created;
  running = f.running;
  target = λ q e. cc;
}

pub Focused-aim :
    {ts : List AttentionTask} {a p : Option ℕ} (c : ℕ)
    → Focused ts a p
    → queued_at (find_task ts c) ≡ true
    → Focused ts a (some c)
Focused-aim {ts} c f q = record {
  distinct = f.distinct;
  created = f.created;
  running = f.running;
  target = λ k e. rw (← some_eq c k e) q;
}
  where
    some_eq : (c k : ℕ) → some c ≡ some k → c ≡ k
    some_eq c k e = cc

module _ (t : AttentionTask) (ts : List AttentionTask) (old : AttentionTask)
    (found : find_task ts t.task_id ≡ some old) (seq : t.created_seq ≡ old.created_seq) where
  distinct-put : no_duplicates (ids_of ts) ≡ true → no_duplicates (ids_of (put_task t ts)) ≡ true
  distinct-put h = rw (ids_of-put_task t ts old found) h

  created-put :
      no_duplicates (created_of ts) ≡ true → no_duplicates (created_of (put_task t ts)) ≡ true
  created-put h = rw (created-put_task t ts old found seq) h

  -- A write that changes neither whether the task runs nor whether it is queued.
  pub Focused-same :
      {a p : Option ℕ}
      → Focused ts a p
      → is_running t.status ≡ is_running old.status
      → is_queued t.status ≡ is_queued old.status
      → Focused (put_task t ts) a p
  Focused-same f r q = record {
    distinct = distinct-put f.distinct;
    created = created-put f.created;
    running = running-put_same t ts old found r ∙ f.running;
    target = λ k e.
        ground (arith, find_task-put_task t ts k, f.target k e, found, nat_eq_iff t.task_id k);
  }

  -- A write to a task that does not run, where nothing is pending.
  pub Focused-quiet :
      {a : Option ℕ}
      → Focused ts a none
      → is_running t.status ≡ is_running old.status
      → Focused (put_task t ts) a none
  Focused-quiet f r = record {
    distinct = distinct-put f.distinct;
    created = created-put f.created;
    running = running-put_same t ts old found r ∙ f.running;
    target = λ k e. cc;
  }

  pub Focused-stop :
      {p : Option ℕ}
      → Focused ts (some t.task_id) p
      → is_running t.status ≡ false
      → Focused (put_task t ts) none none
  Focused-stop f r = record {
    distinct = distinct-put f.distinct;
    created = created-put f.created;
    running =
        running-put_stop t ts old found f.distinct r
        ∙ ap (discard t.task_id) f.running
        ∙ discard_only t.task_id;
    target = λ k e. cc;
  }

  pub Focused-start :
      {p : Option ℕ}
      → Focused ts none p
      → is_running t.status ≡ true
      → Focused (put_task t ts) (some t.task_id) none
  Focused-start f r = record {
    distinct = distinct-put f.distinct;
    created = created-put f.created;
    running = running-put_start t ts old found f.running r;
    target = λ k e. cc;
  }
