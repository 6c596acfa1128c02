-- ===== src/Attention/Assignments/Tests.antt =====
-- An epoch with two reservations out of order, and a plan with a pending preemption.
use prometheist.Base.{
  ℕ, ◌≡◌, refl, none, some, List, [], ◌∷◌, String, ok, All, no_duplicates, contains, is_subset,
  is_disjoint, sorted_by, pair_lt, text_lt, strip, keep, all, any,
}
use prometheist.Attention.Resources.{cpu_general, ResourceReservation}
use prometheist.Attention.Preemption.Intents.{PendingPreemption}
use prometheist.Attention.Assignments.Defs.{
  SchedulingEpoch, SchedulingEpochPlan, DurableAssignment, planned, normalize_complete_set, differ,
}
use prometheist.Attention.Assignments.Checks.{
  validate_complete_plan, check_identities, check_pending, collect_pending, observes, is_planned,
  is_executed, is_cancelled, list_eq,
}
use prometheist.Attention.Assignments.Plans.{Respects, validate_complete_plan-Respects}

abbrev reserves : ℕ → ℕ → ResourceReservation
reserves identity task = record {
  reservation_id = identity;
  task_id = task;
  resource_id = "cpu";
  resource_class = cpu_general;
  units = 1;
}

abbrev waiting : PendingPreemption
waiting = record {
  preemption_id = 90;
  target_task_id = 1;
  target_task_revision = 0;
  victim_task_ids = 2 ∷ [];
  victim_assignment_ids = 22 ∷ [];
  checkpoint_victim_task_ids = 2 ∷ [];
  checkpointed_victim_task_ids = [];
  requested_epoch_sequence = 1;
}

abbrev epoch_of : List ResourceReservation → SchedulingEpoch
epoch_of reservations = record {
  epoch_id = 50;
  sequence = 2;
  previous_epoch_id = some 49;
  scheduler_cycle = 4;
  admission_policy_version = "v1";
  assignment_policy_version = "v1";
  status = planned;
  assignment_ids = 22 ∷ 23 ∷ [];
  reservations = reservations;
  preemption_policy_version = some "v1";
  pending_preemptions = waiting ∷ [];
  preemption_event_ids = [];
  executed_preemption_ids = [];
  cancelled_preemption_ids = [];
  resource_observation_id = none;
  resource_safety_policy_version = none;
}

abbrev sorted_epoch : SchedulingEpoch
sorted_epoch = epoch_of (reserves 32 2 ∷ reserves 33 3 ∷ [])

epoch_accepted :
    normalize_complete_set (epoch_of (reserves 33 3 ∷ reserves 32 2 ∷ [])) ≡ ok sorted_epoch
unfolding normalize_complete_set no_duplicates contains is_disjoint sorted_by pair_lt text_lt strip
    differ
epoch_accepted = refl

abbrev assignment : ℕ → ℕ → ℕ → DurableAssignment
assignment identity task reservation = record {
  assignment_id = identity;
  task_id = task;
  task_revision = 0;
  created_epoch_sequence = 1;
  reservation_ids = reservation ∷ [];
}

-- Task 1 waits for task 2 to reach a checkpoint.
abbrev plan : SchedulingEpochPlan
plan = record {
  epoch = sorted_epoch;
  admitted_task_ids = 2 ∷ 3 ∷ [];
  unadmitted_task_ids = 1 ∷ [];
  assignments = assignment 22 2 32 ∷ assignment 23 3 33 ∷ [];
  pending_preemptions = waiting ∷ [];
  preemption_events = [];
  resource_observation = none;
}

abbrev intent_name : PendingPreemption → String
intent_name p = "intent"

plan_accepted : validate_complete_plan intent_name plan ≡ ok plan
unfolding validate_complete_plan check_identities check_pending collect_pending observes is_planned
    is_executed is_cancelled list_eq no_duplicates contains is_disjoint is_subset sorted_by pair_lt
    keep all any
plan_accepted = refl

validate_complete_plan-Respects_example : All (Respects (2 ∷ 3 ∷ [])) (waiting ∷ [])
validate_complete_plan-Respects_example =
    validate_complete_plan-Respects intent_name plan plan plan_accepted
