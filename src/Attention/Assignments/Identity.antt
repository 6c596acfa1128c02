-- ===== src/Attention/Assignments/Identity.antt =====
-- attention_assignments.py: the identities of assignments and epochs.
use prometheist.Base.{
  ℕ, not, ◌&&◌, Option, none, some, List, [], ◌∷◌, ◌++◌, map, String, Result, ok, value_error, ◌>>◌,
  raise_if, leb, sorted_by, ℕ_eq, String_eq, ℕ_ordered, String_ordered, pair_ordered, ◌+++◌,
  decimal, join,
}
use prometheist.Attention.Resources.{Uuid, ResourceReservation, resource_reservation_sort_key}
use prometheist.Attention.Preemption.Intents.{PendingPreemption}
use prometheist.Attention.Assignments.Defs.{
  SchedulingEpoch, pending_preemption_sort_key, is_none, blank_version, has_preemption_data, differ,
}

-- f"{item.reservation_id}:{item.units}", joined, in canonical order
reservation_key : ⦃u : Uuid⦄ → List ResourceReservation → String
reservation_key ⦃u⦄ rs = join "," (
    map (λ r. u.text r.reservation_id +++ ":" +++ decimal r.units)
      (sorted_by resource_reservation_sort_key rs))

-- _EPOCH_NAMESPACE, "d82c9bb5-1c09-4cc6-a28d-ff46aa1ca7cd"
abbrev pub epoch_namespace : ℕ
epoch_namespace = 287344866273780165225034000273665468365

module _ ⦃u : Uuid⦄ where
  unfoldable pub deterministic_assignment_id : ℕ → ℕ → ℕ → List ResourceReservation → Result ℕ
  unfolding reservation_key
  deterministic_assignment_id task_id revision sequence reservations = do
    raise_if (not (leb 1 sequence)) (value_error "created_epoch_sequence must be >= 1")
    ok (
        u.uuid5 task_id (
          "prometheist-assignment:"
          +++ decimal revision
          +++ ":"
          +++ decimal sequence
          +++ ":"
          +++ reservation_key reservations))

previous_text : ⦃u : Uuid⦄ → Option ℕ → String
previous_text none = "root"
previous_text ⦃u⦄ (some k) = u.text k

module _ ⦃u : Uuid⦄ (intent_key : PendingPreemption → String) where
  preemption_parts : SchedulingEpoch → Option String → List String
  preemption_parts e none = []
  preemption_parts e (some version) =
      version
      ∷ join "," (map intent_key (sorted_by pending_preemption_sort_key e.pending_preemptions))
      ∷ join "," (map u.text e.preemption_event_ids)
      ∷ join "," (map u.text e.executed_preemption_ids)
      ∷ join "," (map u.text e.cancelled_preemption_ids)
      ∷ []

  observation_parts : Option ℕ → Option String → List String
  observation_parts (some k) (some version) = u.text k ∷ version ∷ []
  observation_parts _ _ = []

  -- deterministic_epoch_id, whose arguments are the fields of the epoch but its identity and status
  unfoldable pub deterministic_epoch_id : SchedulingEpoch → Result ℕ
  unfolding previous_text reservation_key preemption_parts observation_parts differ
  deterministic_epoch_id e = do
    raise_if (not (leb 1 e.sequence)) (value_error "sequence must be >= 1")
    raise_if (is_none e.preemption_policy_version && has_preemption_data e)
        (value_error "Preemption epoch data requires a policy version")
    raise_if (blank_version e.preemption_policy_version)
        (value_error "preemption_policy_version must not be empty")
    raise_if (differ (is_none e.resource_observation_id) (is_none e.resource_safety_policy_version))
        (value_error "Resource observation id and safety policy version must appear together")
    raise_if (blank_version e.resource_safety_policy_version)
        (value_error "resource_safety_policy_version must not be empty")
    ok (
        u.uuid5 epoch_namespace (
          join "|" (
            (decimal e.sequence
              ∷ previous_text e.previous_epoch_id
              ∷ decimal e.scheduler_cycle
              ∷ e.admission_policy_version
              ∷ e.assignment_policy_version
              ∷ join "," (map u.text e.assignment_ids)
              ∷ reservation_key e.reservations
              ∷ [])
            ++ (preemption_parts e e.preemption_policy_version
                ++ observation_parts e.resource_observation_id e.resource_safety_policy_version))))
