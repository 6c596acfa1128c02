-- ===== src/Attention/Scheduler/Ranking.antt =====
-- attention.py: service guarantees, effective priority, and the ranking of queued tasks.
use prometheist.Base.{
  ℕ, ◌-◌, Bool, true, false, ◌&&◌, Option, none, some, List, map, if◌then◌else◌, ltb, leb, min,
  keep, all, sum_of, sorted_by, ◌==◌, ℕ_eq, ℕ_ordered, pair_ordered,
}
use prometheist.Attention.Resources.{ResourceClass_eq, ResourceRequirement, admissible_capacity}
use prometheist.Attention.Metadata.{quantitative_resource_requirements, derive_priority}
use prometheist.Attention.Scheduler.State.{
  AttentionTask, TaskStatus, queued, running, completed, Scheduler, find_task,
}

-- The largest `datetime`, in microseconds from the beginning of the year 1, UTC.
abbrev pub datetime_max : ℕ
datetime_max = 315537897599999999

-- _normalize_deadline: a deadline is an instant already, in that unit
abbrev pub normalize_deadline : Option ℕ → ℕ
normalize_deadline none = datetime_max
normalize_deadline (some deadline) = deadline

abbrev pub is_queued : TaskStatus → Bool
is_queued queued = true
is_queued _ = false

abbrev pub is_running : TaskStatus → Bool
is_running running = true
is_running _ = false

abbrev pub is_completed : TaskStatus → Bool
is_completed completed = true
is_completed _ = false

unfoldable pub due_after : Option ℕ → ℕ → Bool
due_after none waited = false
due_after (some max_wait) waited = leb max_wait waited

completed_at : Option AttentionTask → Bool
completed_at none = false
completed_at (some t) = is_completed t.status

abbrev pub queued_at : Option AttentionTask → Bool
queued_at none = false
queued_at (some t) = is_queued t.status

abbrev pub ids_of : List AttentionTask → List ℕ
ids_of ts = map (λ t. t.task_id) ts

-- [task.task_id for task in self.tasks.values() if task.status is TaskStatus.RUNNING]
unfoldable pub running_ids : List AttentionTask → List ℕ
running_ids ts = ids_of (keep (λ t. is_running t.status) ts)

module _ (s : Scheduler) where
  -- _service_due: `max(0, current_cycle - task.enqueued_cycle)` is the truncated difference
  unfoldable pub service_due : AttentionTask → ℕ → Bool
  unfolding due_after
  service_due t cycle =
      due_after (s.service_guarantees t.metadata.service_class).max_wait_cycles
        (cycle - t.enqueued_cycle)

  unfoldable pub effective_priority : AttentionTask → ℕ → ℕ
  unfolding service_due derive_priority
  effective_priority t cycle =
      let base = derive_priority t.metadata in
      let guaranteed = (s.service_guarantees t.metadata.service_class).guaranteed_priority in
      if is_queued t.status then if service_due t cycle then min base guaranteed else base else base

  abbrev pub queue_key : ℕ → AttentionTask → ℕ × (ℕ × (ℕ × (ℕ × ℕ)))
  queue_key cycle t = (
    effective_priority t cycle,
    (
      (if service_due t cycle then 0 else 1),
      (normalize_deadline t.metadata.deadline, (t.created_seq, t.task_id)),
    ),
  )

  -- int(self._effective_priority(candidate)) < int(derive_priority(active.metadata))
  unfoldable pub strictly_outprioritizes : AttentionTask → AttentionTask → ℕ → Bool
  unfolding effective_priority derive_priority
  strictly_outprioritizes candidate active cycle =
      ltb (effective_priority candidate cycle) (derive_priority active.metadata)

  unfoldable pub dependencies_satisfied : AttentionTask → Bool
  unfolding completed_at
  dependencies_satisfied t = all (λ d. completed_at (find_task s.tasks d)) t.metadata.dependency_ids

  class_capacity : ResourceRequirement → ℕ
  class_capacity q =
      sum_of (λ r. if r.resource_class == q.resource_class then admissible_capacity r else 0)
        s.resources

  -- _resources_satisfied
  unfoldable pub resources_satisfied : AttentionTask → Bool
  unfolding class_capacity
  resources_satisfied t =
      all (λ q. leb q.units (class_capacity q)) (quantitative_resource_requirements t.metadata)

  -- _ranked_dependency_satisfied_queued_task_ids, before the identifiers are taken
  unfoldable pub ranked_dependency_satisfied : ℕ → List AttentionTask
  unfolding dependencies_satisfied
  ranked_dependency_satisfied cycle =
      sorted_by (queue_key cycle)
        (keep (λ t. is_queued t.status && dependencies_satisfied t) s.tasks)

  -- _ranked_queued_task_ids, before the identifiers are taken
  unfoldable pub ranked_queued : ℕ → List AttentionTask
  unfolding resources_satisfied ranked_dependency_satisfied
  ranked_queued cycle = keep resources_satisfied (ranked_dependency_satisfied cycle)
