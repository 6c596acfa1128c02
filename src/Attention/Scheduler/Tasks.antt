-- ===== src/Attention/Scheduler/Tasks.antt =====
-- attention.py: `_transition` and `_replace_task`.
use prometheist.Base.{
  ℕ, ◌+◌, Option, none, some, [], ◌∷◌, ◌++◌, String, ok, err, key_error, ◌+++◌, decimal,
}
use prometheist.Attention.Resources.{Uuid}
use prometheist.Attention.Scheduler.State.{
  AttentionTask, TaskStatus, new, queued, running, suspended, blocked, completed, failed,
  TaskTransition, Action, find_task, put_task, invalidate_scheduling_plan,
}

-- TaskStatus.value
abbrev pub status_value : TaskStatus → String
status_value new = "NEW"
status_value queued = "QUEUED"
status_value running = "RUNNING"
status_value suspended = "SUSPENDED"
status_value blocked = "BLOCKED"
status_value completed = "COMPLETED"
status_value failed = "FAILED"

module _ ⦃u : Uuid⦄ where
  abbrev pub transition_of : AttentionTask → TaskStatus → ℕ → String → TaskTransition
  transition_of t to_status cycle reason = record {
    transition_id = u.uuid5 t.task_id (
        "transition:"
        +++ decimal (t.revision + 1)
        +++ ":"
        +++ status_value t.status
        +++ ":"
        +++ status_value to_status);
    task_id = t.task_id;
    revision = t.revision + 1;
    scheduler_cycle = cycle;
    from_status = t.status;
    to_status = to_status;
    reason = reason;
  }

  write_transition : TaskStatus → String → Option AttentionTask → Action (Unit {0})
  write_transition to_status reason none s = (err key_error, s)
  write_transition to_status reason (some t) s = (
    ok tt,
    record s {
      transitions = s.transitions ++ transition_of t to_status s.cycle reason ∷ [];
      tasks = put_task (record t { status = to_status; revision = t.revision + 1 }) s.tasks;
    },
  )

  unfoldable pub transition : ℕ → TaskStatus → String → Action (Unit {0})
  unfolding write_transition invalidate_scheduling_plan
  transition task_id to_status reason s =
      write_transition to_status reason (find_task s.tasks task_id) (invalidate_scheduling_plan s)

write_update : (AttentionTask → AttentionTask) → Option AttentionTask → Action (Unit {0})
write_update update none s = (err key_error, s)
write_update update (some t) s = (ok tt, record s { tasks = put_task (update t) s.tasks })

-- _replace_task, with the fields to replace as a function
unfoldable pub replace_task : ℕ → (AttentionTask → AttentionTask) → Action (Unit {0})
unfolding write_update invalidate_scheduling_plan
replace_task task_id update s =
    write_update update (find_task s.tasks task_id) (invalidate_scheduling_plan s)
