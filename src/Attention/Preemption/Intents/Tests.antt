-- ===== src/Attention/Preemption/Intents/Tests.antt =====
-- An intent with two victims that have to reach a checkpoint, and the theorems about it.
use prometheist.Base.{
  List, keep, ◌≡◌, refl, true, false, [], ◌∷◌, ok, no_duplicates, contains, is_subset, ℕ_eq,
}
use prometheist.Attention.Resources.{Uuid}
use prometheist.Attention.Preemption.Intents.{
  PendingPreemption, validate_intent, ready_to_execute, acknowledge, acknowledge_pending,
}
use prometheist.Attention.Preemption.Intents.Acknowledged.{acknowledge_all, acknowledge_all-ready}
use prometheist.Attention.Preemption.Intents.Recorded.{IsRecorded, acknowledge_pending-IsRecorded}

instance abbrev toy_uuid : Uuid
toy_uuid = record { uuid5 = λ n name. n; text = λ n. "task" }

abbrev intent : PendingPreemption
intent = record {
  preemption_id = 90;
  target_task_id = 1;
  target_task_revision = 0;
  victim_task_ids = 2 ∷ 3 ∷ 4 ∷ [];
  victim_assignment_ids = 22 ∷ 23 ∷ 24 ∷ [];
  checkpoint_victim_task_ids = 2 ∷ 4 ∷ [];
  checkpointed_victim_task_ids = [];
  requested_epoch_sequence = 1;
}

intent_accepted : validate_intent intent ≡ ok intent
unfolding validate_intent no_duplicates contains is_subset
intent_accepted = refl

intent_waits : ready_to_execute (acknowledge 4 intent) ≡ false
unfolding ready_to_execute acknowledge contains is_subset
intent_waits = refl

acknowledge_all-ready_example :
    (validate_intent (acknowledge_all (4 ∷ 2 ∷ []) intent)
      ≡ ok (acknowledge_all (4 ∷ 2 ∷ []) intent))
    × (ready_to_execute (acknowledge_all (4 ∷ 2 ∷ []) intent) ≡ true)
unfolding is_subset contains
acknowledge_all-ready_example =
    acknowledge_all-ready (4 ∷ 2 ∷ []) intent intent intent_accepted refl refl

-- Another intent waits as well, for another victim.
abbrev pending : List PendingPreemption
pending =
    record intent {
      preemption_id = 91;
      target_task_id = 9;
      victim_task_ids = 7 ∷ [];
      victim_assignment_ids = 27 ∷ [];
      checkpoint_victim_task_ids = 7 ∷ [];
    }
    ∷ intent
    ∷ []

acknowledge_pending-IsRecorded_example : IsRecorded 5 1 4 (acknowledge 4 intent)
unfolding acknowledge_pending validate_intent no_duplicates contains is_subset keep
acknowledge_pending-IsRecorded_example =
    acknowledge_pending-IsRecorded 5 1 4 pending (acknowledge 4 intent) (refl, (refl, tt)) refl
