-- ===== src/Attention/Preemption/Intents.antt =====
-- attention_preemption.py: `PendingPreemption`, `PreemptionEvent`, their validators, and the
-- identities of intents and events.
pub mod Acknowledged
mod Recorded
mod Tests
use prometheist.Base.{
  key_error, runtime_error, err, keep, ℕ, ◌+◌, ◌≡◌, Bool, true, false, not, ◌&&◌, Option, none,
  some, List, [], ◌∷◌, ◌++◌, map, String, Result, ok, err, value_error, ◌>>=◌, ◌>>◌, raise_if,
  if◌then◌else◌, leb, length, contains, no_duplicates, is_subset, is_empty, ◌==◌, ℕ_eq, String_eq,
  ◌+++◌, decimal, join,
}
use prometheist.Attention.Resources.{Uuid}

pub data EventType : Type 0 where
  requested checkpoint_acknowledged executed cancelled : EventType

-- PreemptionEventType.value
abbrev pub event_value : EventType → String
event_value requested = "REQUESTED"
event_value checkpoint_acknowledged = "CHECKPOINT_ACKNOWLEDGED"
event_value executed = "EXECUTED"
event_value cancelled = "CANCELLED"

pub record PendingPreemption : Type 0 where
  pub preemption_id : ℕ
  pub target_task_id : ℕ
  pub target_task_revision : ℕ
  pub victim_task_ids : List ℕ
  pub victim_assignment_ids : List ℕ
  pub checkpoint_victim_task_ids : List ℕ
  pub checkpointed_victim_task_ids : List ℕ
  pub requested_epoch_sequence : ℕ

pub record PreemptionEvent : Type 0 where
  pub event_id : ℕ
  pub preemption_id : ℕ
  pub event_type : EventType
  pub scheduler_cycle : ℕ
  pub epoch_sequence : ℕ
  pub target_task_id : ℕ
  pub victim_task_ids : List ℕ
  pub victim_assignment_ids : List ℕ
  pub checkpoint_task_id : Option ℕ
  pub reason : String

-- The constraint of the last field, and validate_intent.
unfoldable pub validate_intent : PendingPreemption → Result PendingPreemption
validate_intent p = do
  raise_if (not (leb 1 p.requested_epoch_sequence))
      (value_error "requested_epoch_sequence must be positive")
  raise_if (is_empty p.victim_task_ids)
      (value_error "A pending preemption must identify at least one victim")
  raise_if (not (no_duplicates p.victim_task_ids))
      (value_error "victim_task_ids must not contain duplicates")
  raise_if (not (no_duplicates p.victim_assignment_ids))
      (value_error "victim_assignment_ids must not contain duplicates")
  raise_if (not (length p.victim_assignment_ids == length p.victim_task_ids))
      (value_error "Every victim task must have one victim assignment id")
  raise_if (contains p.victim_task_ids p.target_task_id)
      (value_error "A preemption target cannot also be its victim")
  raise_if (is_empty p.checkpoint_victim_task_ids)
      (value_error "Pending preemption requires a checkpoint-only victim")
  raise_if (not (no_duplicates p.checkpoint_victim_task_ids))
      (value_error "checkpoint_victim_task_ids must not contain duplicates")
  raise_if (not (is_subset p.checkpoint_victim_task_ids p.victim_task_ids))
      (value_error "Checkpoint victims must be selected victims")
  raise_if (not (no_duplicates p.checkpointed_victim_task_ids))
      (value_error "checkpointed_victim_task_ids must not contain duplicates")
  raise_if (not (is_subset p.checkpointed_victim_task_ids p.checkpoint_victim_task_ids))
      (value_error "Only checkpoint victims may acknowledge a checkpoint")
  ok p

-- The two sets are equal.
unfoldable pub ready_to_execute : PendingPreemption → Bool
ready_to_execute p =
    is_subset p.checkpointed_victim_task_ids p.checkpoint_victim_task_ids
    && is_subset p.checkpoint_victim_task_ids p.checkpointed_victim_task_ids

selected_by : Option ℕ → List ℕ → Bool
selected_by none victims = false
selected_by (some k) victims = contains victims k

is_absent : Option ℕ → Bool
is_absent none = true
is_absent (some k) = false

-- The last two tests of validate_event.
unfoldable pub misplaced_checkpoint : EventType → Option ℕ → List ℕ → Bool
unfolding selected_by is_absent
misplaced_checkpoint checkpoint_acknowledged k victims = not (selected_by k victims)
misplaced_checkpoint _ k victims = not (is_absent k)

-- The constraint of the last field, and validate_event.
unfoldable pub validate_event : PreemptionEvent → Result PreemptionEvent
unfolding misplaced_checkpoint
validate_event e = do
  raise_if (e.reason == "") (value_error "reason must not be empty")
  raise_if (is_empty e.victim_task_ids)
      (value_error "A preemption event must identify at least one victim")
  raise_if (not (no_duplicates e.victim_task_ids))
      (value_error "victim_task_ids must not contain duplicates")
  raise_if (not (no_duplicates e.victim_assignment_ids))
      (value_error "victim_assignment_ids must not contain duplicates")
  raise_if (not (length e.victim_task_ids == length e.victim_assignment_ids))
      (value_error "Every victim task must have one victim assignment id")
  raise_if (contains e.victim_task_ids e.target_task_id)
      (value_error "A preemption target cannot also be its victim")
  raise_if (misplaced_checkpoint e.event_type e.checkpoint_task_id e.victim_task_ids) (
      value_error
        "Only a checkpoint event identifies a checkpoint task, which is a selected victim")
  ok e

-- _PREEMPTION_NAMESPACE, "c3c215e5-d960-42c7-8b07-e6b8607575bc"
abbrev pub preemption_namespace : ℕ
preemption_namespace = 260207208909739863594812558810887321020

module _ ⦃u : Uuid⦄ where
  unfoldable pub deterministic_preemption_id : ℕ → ℕ → List ℕ → ℕ → Result ℕ
  deterministic_preemption_id target revision victims sequence = do
    raise_if (not (leb 1 sequence)) (value_error "requested_epoch_sequence must be >= 1")
    raise_if (is_empty victims) (value_error "At least one victim assignment id is required")
    raise_if (not (no_duplicates victims))
        (value_error "victim_assignment_ids must not contain duplicates")
    ok (
        u.uuid5 preemption_namespace (
          join "|" (
            u.text target
            ∷ decimal revision
            ∷ join "," (map u.text victims)
            ∷ decimal sequence
            ∷ [])))

  abbrev pub checkpoint_text : Option ℕ → String
  checkpoint_text none = "none"
  checkpoint_text (some k) = u.text k

  -- The event that make_selection_preemption_event constructs from the fields of the intent.
  abbrev pub event_of : PendingPreemption → EventType → ℕ → ℕ → String → Option ℕ → PreemptionEvent
  event_of p event_type cycle sequence reason checkpoint = record {
    event_id =
        u.uuid5 p.preemption_id
          ("preemption-event:" +++ event_value event_type +++ ":" +++ checkpoint_text checkpoint);
    preemption_id = p.preemption_id;
    event_type = event_type;
    scheduler_cycle = cycle;
    epoch_sequence = sequence;
    target_task_id = p.target_task_id;
    victim_task_ids = p.victim_task_ids;
    victim_assignment_ids = p.victim_assignment_ids;
    checkpoint_task_id = checkpoint;
    reason = reason;
  }

  unfoldable pub make_preemption_event :
      PendingPreemption → EventType → ℕ → ℕ → String → Option ℕ → Result PreemptionEvent
  unfolding validate_event
  make_preemption_event p event_type cycle sequence reason checkpoint =
      validate_event (event_of p event_type cycle sequence reason checkpoint)

-- How `checkpoint_pending_preemption` changes the intent that waits for victim `k`.
unfoldable pub acknowledge : ℕ → PendingPreemption → PendingPreemption
acknowledge k p =
    if contains p.checkpointed_victim_task_ids k
    then p
    else record p { checkpointed_victim_task_ids = p.checkpointed_victim_task_ids ++ k ∷ [] }

-- The answer to `k` of `checkpoint_pending_preemption`, from the intents that wait for it.
abbrev pub acknowledge_match : ℕ → List PendingPreemption → Result PendingPreemption
acknowledge_match k [] = err key_error
acknowledge_match k (p ∷ []) = ok (acknowledge k p)
acknowledge_match k (p ∷ (q ∷ rest)) =
    err (runtime_error "A checkpoint victim belongs to multiple intents")

-- checkpoint_pending_preemption, up to the intent that it stores
unfoldable pub acknowledge_pending : ℕ → List PendingPreemption → Result PendingPreemption
unfolding acknowledge
acknowledge_pending k pending =
    acknowledge_match k (keep (λ p. contains p.checkpoint_victim_task_ids k) pending)
