-- ===== src/Attention/Assignments/Defs.antt =====
-- attention_assignments.py: `DurableAssignment`, `SchedulingEpoch`, `SchedulingEpochPlan`, and the
-- validators of the first two.
use prometheist.Base.{
  ℕ, Bool, true, false, not, ◌&&◌, ◌||◌, Option, none, some, List, map, String, Result, ok,
  value_error, ◌>>◌, raise_if, leb, sorted_by, no_duplicates, is_disjoint, is_empty, is_blank,
  strip, ◌==◌, ℕ_eq, String_eq, ℕ_ordered, String_ordered, pair_ordered,
}
use prometheist.Attention.Resources.{ResourceReservation, resource_reservation_sort_key}
use prometheist.Attention.Preemption.Intents.{PendingPreemption, PreemptionEvent}

pub data EpochStatus : Type 0 where
  planned committed : EpochStatus

-- An assignment has one status, READY.
pub record DurableAssignment : Type 0 where
  pub assignment_id : ℕ
  pub task_id : ℕ
  pub task_revision : ℕ
  pub created_epoch_sequence : ℕ
  pub reservation_ids : List ℕ

unfoldable pub validate_reservation_ids : DurableAssignment → Result DurableAssignment
validate_reservation_ids a = do
  raise_if (not (leb 1 a.created_epoch_sequence))
      (value_error "created_epoch_sequence must be positive")
  raise_if (not (no_duplicates a.reservation_ids))
      (value_error "reservation_ids must not contain duplicates")
  ok a

pub record SchedulingEpoch : Type 0 where
  pub epoch_id : ℕ
  pub sequence : ℕ
  pub previous_epoch_id : Option ℕ
  pub scheduler_cycle : ℕ
  pub admission_policy_version : String
  pub assignment_policy_version : String
  pub status : EpochStatus
  pub assignment_ids : List ℕ
  pub reservations : List ResourceReservation
  pub preemption_policy_version : Option String
  pub pending_preemptions : List PendingPreemption
  pub preemption_event_ids : List ℕ
  pub executed_preemption_ids : List ℕ
  pub cancelled_preemption_ids : List ℕ
  pub resource_observation_id : Option ℕ
  pub resource_safety_policy_version : Option String

-- What a plan reads of a ResourceObservationSnapshot.
pub record ResourceObservation : Type 0 where
  pub observation_id : ℕ
  pub safety_policy_version : String
  pub scheduler_cycle : ℕ

pub record SchedulingEpochPlan : Type 0 where
  pub epoch : SchedulingEpoch
  pub admitted_task_ids : List ℕ
  pub unadmitted_task_ids : List ℕ
  pub assignments : List DurableAssignment
  pub pending_preemptions : List PendingPreemption
  pub preemption_events : List PreemptionEvent
  pub resource_observation : Option ResourceObservation

-- pending_preemption_sort_key
abbrev pub pending_preemption_sort_key : PendingPreemption → ℕ × ℕ
pending_preemption_sort_key p = (p.requested_epoch_sequence, p.preemption_id)

abbrev pub is_none {ℓ} : {A : Type ℓ} → Option A → Bool
is_none none = true
is_none (some a) = false

abbrev pub blank_version : Option String → Bool
blank_version none = false
blank_version (some version) = is_blank (strip version)

abbrev pub is_nonempty {ℓ} : {A : Type ℓ} → List A → Bool
is_nonempty xs = not (is_empty xs)

abbrev pub has_preemption_data : SchedulingEpoch → Bool
has_preemption_data e =
    is_nonempty e.pending_preemptions
    || is_nonempty e.preemption_event_ids
    || is_nonempty e.executed_preemption_ids
    || is_nonempty e.cancelled_preemption_ids

unfoldable pub differ : Bool → Bool → Bool
differ true b = not b
differ false b = b

-- The constraints of the fields, and normalize_complete_set.
unfoldable pub normalize_complete_set : SchedulingEpoch → Result SchedulingEpoch
unfolding differ
normalize_complete_set e = do
  raise_if (not (leb 1 e.sequence)) (value_error "sequence must be positive")
  raise_if (e.admission_policy_version == "")
      (value_error "admission_policy_version must not be empty")
  raise_if (e.assignment_policy_version == "")
      (value_error "assignment_policy_version must not be empty")
  raise_if (not (no_duplicates e.assignment_ids))
      (value_error "assignment_ids must not contain duplicates")
  raise_if (not (no_duplicates (map (λ r. r.reservation_id) e.reservations)))
      (value_error "epoch reservations must not contain duplicate ids")
  raise_if (blank_version e.preemption_policy_version)
      (value_error "preemption_policy_version must not be empty")
  raise_if (is_none e.preemption_policy_version && has_preemption_data e)
      (value_error "Preemption epoch data requires a policy version")
  raise_if (not (no_duplicates e.preemption_event_ids))
      (value_error "preemption_event_ids must not contain duplicates")
  raise_if (not (no_duplicates e.executed_preemption_ids))
      (value_error "executed_preemption_ids must not contain duplicates")
  raise_if (not (no_duplicates e.cancelled_preemption_ids))
      (value_error "cancelled_preemption_ids must not contain duplicates")
  raise_if (not (is_disjoint e.executed_preemption_ids e.cancelled_preemption_ids))
      (value_error "An epoch cannot execute and cancel one preemption")
  raise_if (differ (is_none e.resource_observation_id) (is_none e.resource_safety_policy_version))
      (value_error "Resource observation id and safety policy version must appear together")
  raise_if (blank_version e.resource_safety_policy_version)
      (value_error "resource_safety_policy_version must not be empty")
  ok (record e {
    reservations = sorted_by resource_reservation_sort_key e.reservations;
    pending_preemptions = sorted_by pending_preemption_sort_key e.pending_preemptions;
  })
