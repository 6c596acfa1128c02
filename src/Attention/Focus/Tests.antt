-- ===== src/Attention/Focus/Tests.antt =====
-- Small runs of the single-focus operations, and their theorems at concrete schedulers.
use prometheist.Base.{
  ◌⊎◌, false, ◌≤◌, arith, ℕ, ◌≡◌, ◌≢◌, refl, true, false, Option, none, some, List, [], ◌∷◌, String,
  ok, no_duplicates, contains, keep, all, sorted_by, pair_lt, ℕ_eq,
}
use prometheist.Attention.Resources.{Uuid}
use prometheist.Attention.Metadata.{
  TaskCriticality, InterruptionPolicy, SchedulingMetadata, emergency, opportunistic, user_work,
  preemptible, atomic, default_service_guarantees, derive_priority,
  quantitative_resource_requirements,
}
use prometheist.Attention.Scheduler.{
  AttentionTask, TaskStatus, new, queued, running, Scheduler, find_task, put_task, ids_of,
  running_ids, invalidate_scheduling_plan, transition, replace_task, service_due,
  effective_priority, strictly_outprioritizes, dependencies_satisfied, resources_satisfied,
  ranked_dependency_satisfied, ranked_queued,
}
use prometheist.Attention.Focus.Defs.{
  FocusAction, FocusDecision, continue, preempt, fetch, advance_cycle, require_legacy_focus_mode,
  best_queued_task_id, first_id, start_task, requeue, requeue_active, focus_idle, interrupt,
  focus_active, focus, reconcile_focus,
}
use prometheist.Attention.Focus.Lifecycle.{
  complete_task, validate_focus, focus_check, pending_check, andthen,
}
use prometheist.Attention.Focus.Reach.{
  Operation, submitting, reconciling, completing, perform_all, validate_focus-perform_all,
  reconcile_focus-answers,
}
use prometheist.Attention.Focus.Preempts.{reconcile_focus-atomic}
use prometheist.Attention.Focus.Shifts.{Shifts, reconcile_focus-Shifts}
use prometheist.Attention.Scheduler.Aging.{is_overdue, effective_priority-ages}
use prometheist.Attention.Focus.Candidate.{IsBest, best_queued_task_id-IsBest}
use prometheist.Attention.Focus.Decisions.{ticked}
use prometheist.Attention.Focus.Completion.{complete_task-active}

instance abbrev toy_uuid : Uuid
toy_uuid = record { uuid5 = λ n name. n; text = λ n. "task" }

abbrev demand : TaskCriticality → InterruptionPolicy → SchedulingMetadata
demand criticality policy = record {
  criticality = criticality;
  service_class = user_work;
  interruption_policy = policy;
  deadline = none;
  required_resource_classes = [];
  resource_requirements = [];
  process_resource_estimate = none;
  dependency_ids = [];
}

abbrev task : ℕ → TaskCriticality → InterruptionPolicy → TaskStatus → AttentionTask
task k criticality policy status = record {
  task_id = k;
  task_key = "task";
  created_seq = k;
  metadata = demand criticality policy;
  parent_task_id = none;
  status = status;
  enqueued_cycle = 0;
  revision = 0;
  resumable_state = "{}";
}

abbrev scheduler : List AttentionTask → Option ℕ → Scheduler
scheduler tasks active = record {
  service_guarantees = default_service_guarantees;
  tasks = tasks;
  resources = [];
  admitted_task_ids = [];
  resource_reservations = [];
  has_current_epoch = false;
  has_pending_plan = false;
  has_pending_observation = false;
  resource_safety_required = false;
  active_task_id = active;
  pending_preemption_task_id = none;
  cycle = 0;
  transitions = [];
}

abbrev idle_scheduler : Scheduler
idle_scheduler = scheduler [] none

-- A task in the background runs; an emergency waits.
abbrev busy : InterruptionPolicy → Scheduler
busy policy =
    scheduler (task 7 opportunistic policy running ∷ task 9 emergency preemptible queued ∷ [])
      (some 7)

abbrev session : List Operation
session =
    submitting (task 7 opportunistic preemptible new)
    ∷ reconciling
    ∷ submitting (task 9 emergency preemptible new)
    ∷ reconciling
    ∷ completing none
    ∷ []

validate_focus-perform_all_example : validate_focus (perform_all session idle_scheduler) ≡ ok tt
unfolding no_duplicates validate_focus focus_check pending_check andthen running_ids keep
validate_focus-perform_all_example = validate_focus-perform_all session idle_scheduler refl refl

abbrev decision : FocusAction → Option ℕ → Option ℕ → String → FocusDecision
decision action active candidate reason = record {
  action = action;
  active_task_id = active;
  candidate_task_id = candidate;
  reason = reason;
}

abbrev preempted : FocusDecision
preempted = decision preempt (some 9) (some 9) "preempted task"

abbrev unmoved : FocusDecision
unmoved = decision continue (some 7) (some 9) "active task is atomic"

best_of_busy : (policy : InterruptionPolicy) → best_queued_task_id (ticked (busy policy)) ≡ some 9
unfolding best_queued_task_id first_id ranked_queued ranked_dependency_satisfied
    dependencies_satisfied resources_satisfied effective_priority service_due sorted_by keep all
    find_task quantitative_resource_requirements derive_priority pair_lt ticked
    invalidate_scheduling_plan
best_of_busy policy = refl

preempts_busy : (reconcile_focus (busy preemptible)).0 ≡ ok preempted
unfolding reconcile_focus require_legacy_focus_mode advance_cycle focus focus_active focus_idle
    interrupt requeue_active requeue start_task fetch transition replace_task put_task
    invalidate_scheduling_plan strictly_outprioritizes best_queued_task_id first_id ranked_queued
    ranked_dependency_satisfied dependencies_satisfied resources_satisfied effective_priority
    service_due sorted_by keep all find_task quantitative_resource_requirements derive_priority
    pair_lt
preempts_busy = refl

leaves_atomic : (reconcile_focus (busy atomic)).0 ≡ ok unmoved
unfolding reconcile_focus require_legacy_focus_mode advance_cycle focus focus_active focus_idle
    interrupt requeue_active requeue start_task fetch transition replace_task put_task
    invalidate_scheduling_plan strictly_outprioritizes best_queued_task_id first_id ranked_queued
    ranked_dependency_satisfied dependencies_satisfied resources_satisfied effective_priority
    service_due sorted_by keep all find_task quantitative_resource_requirements derive_priority
    pair_lt
leaves_atomic = refl

busy-distinct : (policy : InterruptionPolicy) → no_duplicates (ids_of (busy policy).tasks) ≡ true
unfolding no_duplicates contains
busy-distinct policy = refl

busy-valid : (policy : InterruptionPolicy) → validate_focus (busy policy) ≡ ok tt
unfolding no_duplicates contains validate_focus focus_check pending_check andthen running_ids keep
busy-valid policy = refl

active_of_busy :
    (policy : InterruptionPolicy)
    → find_task (busy policy).tasks 7 ≡ some (task 7 opportunistic policy running)
unfolding find_task
active_of_busy policy = refl

reconcile_focus-answers_example :
    (some 9 ≡ (reconcile_focus (busy preemptible)).1.active_task_id)
    × (running_ids (reconcile_focus (busy preemptible)).1.tasks ≡ 9 ∷ [])
reconcile_focus-answers_example =
    reconcile_focus-answers (busy preemptible) preempted (busy-distinct preemptible)
      (busy-valid preemptible) preempts_busy

reconcile_focus-Shifts_example :
    (t' : AttentionTask) × IsBest (ticked (busy preemptible)) 9 t'
    × Shifts
        (ticked (busy preemptible))
        (reconcile_focus (busy preemptible)).1
        preempted
        t'.task_id
        (effective_priority (ticked (busy preemptible)) t' 1)
        (derive_priority (demand opportunistic preemptible))
        preemptible
reconcile_focus-Shifts_example =
    reconcile_focus-Shifts (busy preemptible) preempted 7 9
      (task 7 opportunistic preemptible running) (busy-distinct preemptible) preempts_busy refl
      (active_of_busy preemptible) (best_of_busy preemptible)

reconcile_focus-atomic_example :
    (continue ≡ continue) × ((reconcile_focus (busy atomic)).1 ≡ ticked (busy atomic))
reconcile_focus-atomic_example =
    reconcile_focus-atomic (busy atomic) unmoved 7 (task 7 opportunistic atomic running)
      (busy-distinct atomic) leaves_atomic refl (active_of_busy atomic) refl

best_queued_task_id-IsBest_example : (t : AttentionTask) × IsBest (ticked (busy atomic)) 9 t
unfolding ticked invalidate_scheduling_plan
best_queued_task_id-IsBest_example =
    best_queued_task_id-IsBest (ticked (busy atomic)) 9 (busy-distinct atomic) (best_of_busy atomic)

complete_task-active_example : validate_focus (complete_task 7 none (busy atomic)).1 ≢ ok tt
complete_task-active_example =
    complete_task-active (busy atomic) 7 none (busy-distinct atomic) (busy-valid atomic) refl

-- A task in the background that waits since cycle 0 is due at cycle 4.
abbrev patient : AttentionTask
patient = task 7 opportunistic preemptible queued

effective_priority-ages_example :
    (effective_priority idle_scheduler patient 6 ≤ effective_priority idle_scheduler patient 4)
    × (effective_priority idle_scheduler patient 4 ≤ derive_priority patient.metadata)
    × ((is_overdue idle_scheduler patient 4 ≡ false)
        ⊎ (effective_priority idle_scheduler patient 4 ≤ 2))
effective_priority-ages_example = effective_priority-ages idle_scheduler patient 4 6 (omega arith)
