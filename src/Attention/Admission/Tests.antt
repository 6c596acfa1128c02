-- ===== src/Attention/Admission/Tests.antt =====
-- Two tasks that compete for one pool, and the theorems about admission at them.
use prometheist.Base.{
  ℕ, ◌≤◌, ◌≡◌, refl, true, false, none, some, [], ◌∷◌, ok, no_duplicates, contains, any, all, keep,
  is_disjoint, sum_of, sorted_by, strip, pair_lt, text_lt, ℕ_eq,
}
use prometheist.Attention.Resources.{
  Uuid, cpu_general, ResourceReservation, ResourceAdmissionPlan, validate_admission_plan,
  admissible_capacity,
}
use prometheist.Attention.Metadata.{
  TaskCriticality, user_requested, opportunistic, user_work, preemptible,
  default_service_guarantees, derive_priority, quantitative_resource_requirements, units_of,
}
use prometheist.Attention.Scheduler.{
  AttentionTask, TaskStatus, queued, running, Scheduler, find_task, service_due, effective_priority,
  dependencies_satisfied, ranked_dependency_satisfied,
}
use prometheist.Attention.Allocation.{allocate, reserve_from, units_at}
use prometheist.Attention.Allocation.Contract.{units_in}
use prometheist.Attention.Admission.Defs.{
  admit, consider, admit_all, candidate_ids, capacity_of, enabled_resources, admission_plan,
  reconcile_resource_admission, active_first, is_active,
}
use prometheist.Attention.Admission.Rounds.{demand_of}
use prometheist.Attention.Admission.Capacity.{
  admission_within_capacity, admission_exact, admission_keeps_active,
}

instance abbrev toy_uuid : Uuid
toy_uuid = record { uuid5 = λ n name. n; text = λ n. "task" }

abbrev cpu_task : ℕ → TaskCriticality → TaskStatus → ℕ → AttentionTask
cpu_task k criticality status units = record {
  task_id = k;
  task_key = "task";
  created_seq = k;
  metadata = record {
    criticality = criticality;
    service_class = user_work;
    interruption_policy = preemptible;
    deadline = none;
    required_resource_classes = cpu_general ∷ [];
    resource_requirements = record { resource_class = cpu_general; units = units } ∷ [];
    process_resource_estimate = none;
    dependency_ids = [];
  };
  parent_task_id = none;
  status = status;
  enqueued_cycle = 0;
  revision = 0;
  resumable_state = "{}";
}

-- The active task takes three of four units, so the more urgent one that waits does not fit.
abbrev contended : Scheduler
contended = record {
  service_guarantees = default_service_guarantees;
  tasks =
      cpu_task 7 opportunistic running 3
      ∷ cpu_task 9 user_requested queued 2
      ∷ cpu_task 11 opportunistic queued 1
      ∷ [];
  resources =
      record {
        resource_id = "cpu";
        resource_class = cpu_general;
        capacity = 6;
        system_headroom = 2;
        enabled = true;
      }
      ∷ [];
  admitted_task_ids = [];
  resource_reservations = [];
  has_current_epoch = false;
  has_pending_plan = false;
  has_pending_observation = false;
  resource_safety_required = false;
  active_task_id = some 7;
  pending_preemption_task_id = none;
  cycle = 0;
  transitions = [];
}

abbrev cpu_reserved : ℕ → ℕ → ResourceReservation
cpu_reserved k units = record {
  reservation_id = k;
  task_id = k;
  resource_id = "cpu";
  resource_class = cpu_general;
  units = units;
}

abbrev contended_plan : ResourceAdmissionPlan
contended_plan = record {
  admitted_task_ids = 7 ∷ 11 ∷ [];
  unadmitted_task_ids = 9 ∷ [];
  reservations = cpu_reserved 7 3 ∷ cpu_reserved 11 1 ∷ [];
}

plans : (reconcile_resource_admission contended).0 ≡ ok contended_plan
unfolding reconcile_resource_admission admission_plan admit_all consider admit candidate_ids
    active_first is_active enabled_resources capacity_of admissible_capacity allocate reserve_from
    find_task ranked_dependency_satisfied dependencies_satisfied effective_priority service_due
    derive_priority quantitative_resource_requirements units_of sorted_by keep all any contains
    no_duplicates is_disjoint validate_admission_plan pair_lt text_lt strip
plans = refl

admission_within_capacity_example :
    units_at "cpu" contended_plan.reservations ≤ capacity_of (enabled_resources contended) "cpu"
admission_within_capacity_example = admission_within_capacity contended contended_plan "cpu" plans

admission_exact_example :
    units_in cpu_general contended_plan.reservations
    ≡ sum_of (demand_of contended cpu_general) contended_plan.admitted_task_ids
admission_exact_example = admission_exact contended contended_plan cpu_general plans

admission_keeps_active_example : contains contended_plan.admitted_task_ids 7 ≡ true
admission_keeps_active_example = admission_keeps_active contended contended_plan 7 refl plans
