-- ===== src/Attention/Assignments/Checks.antt =====
-- attention_assignments.py: the validator of `SchedulingEpochPlan`.
use prometheist.Base.{
  ℕ, Bool, true, false, not, ◌&&◌, Option, none, some, List, [], ◌∷◌, ◌++◌, map, String, Result, ok,
  value_error, ◌>>=◌, ◌>>◌, raise_if, keep, any, all, sorted_by, contains, no_duplicates, is_subset,
  is_disjoint, ◌==◌, ℕ_eq, String_eq, ℕ_ordered, String_ordered, pair_ordered,
}
use prometheist.Attention.Resources.{ResourceReservation}
use prometheist.Attention.Preemption.Intents.{PendingPreemption, EventType, executed, cancelled}
use prometheist.Attention.Assignments.Defs.{
  EpochStatus, planned, committed, SchedulingEpoch, ResourceObservation, SchedulingEpochPlan,
  pending_preemption_sort_key,
}

unfoldable pub is_planned : EpochStatus → Bool
is_planned planned = true
is_planned committed = false

unfoldable pub is_executed : EventType → Bool
is_executed executed = true
is_executed _ = false

unfoldable pub is_cancelled : EventType → Bool
is_cancelled cancelled = true
is_cancelled _ = false

unfoldable pub list_eq {ℓ} : {A : Type ℓ} → (A → A → Bool) → List A → List A → Bool
list_eq same [] [] = true
list_eq same [] (y ∷ ys) = false
list_eq same (x ∷ xs) [] = false
list_eq same (x ∷ xs) (y ∷ ys) = same x y && list_eq same xs ys

abbrev pub set_eq : List ℕ → List ℕ → Bool
set_eq xs ys = is_subset xs ys && is_subset ys xs

-- The loop over the pending preemptions: what it raises, or the targets and the victims.
unfoldable pub collect_pending : List PendingPreemption → List ℕ → List ℕ → Result (List ℕ × List ℕ)
collect_pending [] targets victims = ok (targets, victims)
collect_pending (p ∷ ps) targets victims = do
  raise_if (contains targets p.target_task_id)
      (value_error "A task may be the target of only one pending preemption")
  raise_if (not (is_disjoint p.victim_task_ids victims))
      (value_error "A victim may belong to only one pending preemption")
  collect_pending ps (targets ++ p.target_task_id ∷ []) (victims ++ p.victim_task_ids)

-- reservations_by_task.get(assignment.task_id, set())
abbrev pub reserved_for : List ResourceReservation → ℕ → List ℕ
reserved_for rs k = map (λ r. r.reservation_id) (keep (λ r. r.task_id == k) rs)

unfoldable pub version_is : Option String → String → Bool
version_is none w = false
version_is (some v) w = w == v

unfoldable pub observes : SchedulingEpoch → Option ℕ → Option ResourceObservation → Bool
unfolding version_is
observes e none none = true
observes e none (some o) = false
observes e (some k) none = false
observes e (some k) (some o) =
    o.observation_id == k
    && version_is e.resource_safety_policy_version o.safety_policy_version
    && o.scheduler_cycle == e.scheduler_cycle

-- The tests on the targets and the victims of the pending preemptions.
unfoldable pub check_pending : SchedulingEpochPlan → List PendingPreemption → Result (Unit {0})
unfolding collect_pending
check_pending plan pending = do
  (targets, victims) ← collect_pending pending [] []
  raise_if (not (is_disjoint targets victims))
      (value_error "Pending targets and victims must be disjoint")
  raise_if (not (is_subset targets plan.unadmitted_task_ids))
      (value_error "Pending preemption targets must remain unadmitted")
  raise_if (not (is_subset victims plan.admitted_task_ids))
      (value_error "Pending preemption victims must remain admitted")

-- `intent_key` is the JSON text that pydantic writes of an intent.
module _ (intent_key : PendingPreemption → String) where
  -- The tests of validate_complete_plan before the loop over the pending preemptions.
  unfoldable pub check_identities : SchedulingEpochPlan → List PendingPreemption → Result (Unit {0})
  unfolding is_planned list_eq is_executed is_cancelled
  check_identities plan pending = do
    let epoch = plan.epoch
    raise_if (not (is_planned epoch.status)) (value_error "A scheduling epoch plan must be PLANNED")
    raise_if (not (no_duplicates plan.admitted_task_ids))
        (value_error "admitted_task_ids must not contain duplicates")
    raise_if (not (no_duplicates plan.unadmitted_task_ids))
        (value_error "unadmitted_task_ids must not contain duplicates")
    raise_if (not (is_disjoint plan.admitted_task_ids plan.unadmitted_task_ids))
        (value_error "admitted and unadmitted task ids must be disjoint")
    raise_if (any (λ r. not (contains plan.admitted_task_ids r.task_id)) epoch.reservations)
        (value_error "every epoch reservation must belong to an admitted task")
    raise_if
        (not (
          list_eq (λ j k. j == k) (map (λ a. a.assignment_id) plan.assignments)
            epoch.assignment_ids))
        (value_error "epoch assignment_ids must match assignments in order")
    raise_if
        (not
          (list_eq (λ j k. j == k) (map (λ a. a.task_id) plan.assignments) plan.admitted_task_ids))
        (value_error "one assignment must exist for every admitted task in order")
    raise_if
        (not (
          all (λ a. set_eq a.reservation_ids (reserved_for epoch.reservations a.task_id))
            plan.assignments))
        (value_error "assignment reservation_ids must match its complete reservation set")
    raise_if
        (not (
          list_eq (λ v w. v == w) (map intent_key pending)
            (map intent_key epoch.pending_preemptions)))
        (value_error "epoch pending preemptions must match the plan snapshot")
    raise_if (not (no_duplicates (map (λ e. e.event_id) plan.preemption_events)))
        (value_error "preemption_events must not contain duplicate ids")
    raise_if
        (not (
          list_eq (λ j k. j == k) (map (λ e. e.event_id) plan.preemption_events)
            epoch.preemption_event_ids))
        (value_error "epoch preemption event ids must match events in order")
    raise_if
        (not (
          list_eq (λ j k. j == k)
            (map (λ e. e.preemption_id)
              (keep (λ e. is_executed e.event_type) plan.preemption_events))
            epoch.executed_preemption_ids))
        (value_error "epoch executed preemption ids must match its events")
    raise_if
        (not (
          list_eq (λ j k. j == k)
            (map (λ e. e.preemption_id)
              (keep (λ e. is_cancelled e.event_type) plan.preemption_events))
            epoch.cancelled_preemption_ids))
        (value_error "epoch cancelled preemption ids must match its events")
    ok tt

  -- validate_complete_plan
  unfoldable pub validate_complete_plan : SchedulingEpochPlan → Result SchedulingEpochPlan
  unfolding check_identities check_pending observes
  validate_complete_plan plan = do
    let pending = sorted_by pending_preemption_sort_key plan.pending_preemptions
    check_identities plan pending
    check_pending plan pending
    raise_if
        (not (observes plan.epoch plan.epoch.resource_observation_id plan.resource_observation))
        (value_error "Epoch must reference its exact resource observation")
    ok (record plan { pending_preemptions = pending })
