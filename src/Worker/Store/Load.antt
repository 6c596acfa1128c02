-- ===== src/Worker/Store/Load.antt =====
-- worker_store.py: what is read of the tables. A row that is read passes the constructor of its
-- record.
use prometheist.Base.{
  ℕ, true, not, ◌||◌, Option, none, some, List, [], ◌∷◌, ◌++◌, map, String, Error, Result, ok, err,
  value_error, worker_protocol_error, permission_error, key_error, ◌>>=◌, ◌>>◌, raise_if,
  if◌then◌else◌, ltb, keep, any, contains, is_subset, sorted_by, strip, ◌==◌, ℕ_eq, String_eq,
  ℕ_ordered, String_ordered, pair_ordered,
}
use prometheist.Attention.Resources.{Uuid, ResourceReservation}
use prometheist.Attention.Observation.{ResourceObservationSnapshot, validate_snapshot}
use prometheist.Worker.Protocol.{
  WorkerStep, WorkerClaim, WorkerCheckpoint, WorkerResult, worker_step, worker_claim,
  worker_checkpoint, worker_result,
}
use prometheist.Worker.Store.Tables.{
  SchedulerRow, Rows, Store, find_row, find_rows, latest_by, is_live,
}

abbrev pub max_worker_lease_seconds : ℕ
max_worker_lease_seconds = 3600

-- _validate_lease_seconds
abbrev pub validate_lease_seconds : ℕ → Result (Unit {0})
validate_lease_seconds value =
    raise_if (ltb value 1 || ltb max_worker_lease_seconds value)
      (value_error "lease_seconds must be between 1 and 3600")

-- _require_worker
abbrev pub require_worker : WorkerClaim → String → Result (Unit {0})
require_worker claim worker_id =
    raise_if (not (claim.worker_id == strip worker_id))
      (permission_error "worker id does not own this claim")

-- The row, where there has to be one.
abbrev pub required {ℓ} : {A : Type ℓ} → Error → Option A → Result A
required e none = err e
required e (some a) = ok a

-- The record of a row, if there is one.
abbrev pub converted {ℓ} : {A : Type ℓ} → (A → Result A) → Option A → Result (Option A)
converted f none = ok none
converted f (some a) = f a >>= λ b. ok (some b)

-- The records of all rows.
abbrev pub convert_all {ℓ} : {A : Type ℓ} → (A → Result A) → List A → Result (List A)
convert_all f [] = ok []
convert_all f (a ∷ rest) = f a >>= λ b. convert_all f rest >>= λ bs. ok (b ∷ bs)

-- _lock_scheduler_state
abbrev pub lock_scheduler_state : String → Store → Result SchedulerRow
lock_scheduler_state key s =
    required (worker_protocol_error "worker protocol requires durable scheduler state")
      (find_row key (λ row. true) s.scheduler.scheduler_state)

module _ ⦃u : Uuid⦄ (key : String) where
  -- _lock_claim
  unfoldable pub lock_claim : ℕ → Store → Result WorkerClaim
  unfolding find_row worker_claim
  lock_claim claim_id s =
      required key_error (find_row key (λ c. c.claim_id == claim_id) s.claims) >>= worker_claim

  -- _load_step
  unfoldable pub load_step : ℕ → Store → Result WorkerStep
  unfolding find_row worker_step
  load_step step_id s =
      required key_error (find_row key (λ t. t.step_id == step_id) s.steps) >>= worker_step

  -- _load_latest_claim
  unfoldable pub load_latest_claim : ℕ → Store → Result (Option WorkerClaim)
  unfolding find_rows latest_by worker_claim
  load_latest_claim step_id s =
      converted worker_claim
        (latest_by (λ c. c.attempt) (find_rows key (λ c. c.step_id == step_id) s.claims))

  -- _load_latest_checkpoint
  unfoldable pub load_latest_checkpoint : ℕ → Store → Result (Option WorkerCheckpoint)
  unfolding find_rows latest_by worker_checkpoint
  load_latest_checkpoint step_id s =
      converted worker_checkpoint
        (latest_by (λ c. c.revision) (find_rows key (λ c. c.step_id == step_id) s.checkpoints))

  -- _load_checkpoint_for_claim
  unfoldable pub load_checkpoint_for_claim : ℕ → Store → Result (Option WorkerCheckpoint)
  unfolding find_row worker_checkpoint
  load_checkpoint_for_claim claim_id s =
      converted worker_checkpoint (find_row key (λ c. c.claim_id == claim_id) s.checkpoints)

  -- _load_result_row
  unfoldable pub load_result_row : ℕ → Store → Result (Option WorkerResult)
  unfolding find_row worker_result
  load_result_row step_id s =
      converted worker_result (find_row key (λ r. r.step_id == step_id) s.results)

module _ ⦃u : Uuid⦄ (observation_json : ResourceObservationSnapshot → String) (key : String) where
  -- _load_current_resource_observation
  unfoldable pub load_current_resource_observation :
      Option ℕ → Store → Result (Option ResourceObservationSnapshot)
  unfolding find_row validate_snapshot
  load_current_resource_observation none s = ok none
  load_current_resource_observation (some k) s =
      converted (validate_snapshot observation_json)
        (find_row key (λ o. o.observation_id == k) s.scheduler.resource_observations)

-- ORDER BY resource_id ASC, reservation_id ASC
abbrev pub reservation_row_key : ResourceReservation → String × ℕ
reservation_row_key r = (r.resource_id, r.reservation_id)

-- The active claims of every scheduler, each with the reservations of its step.
unfoldable pub load_active_claim_rows : ℕ → Store → List (ℕ × List ℕ)
unfolding find_row
load_active_claim_rows captured_at s = sorted_by (λ row. row.0) (joined s.claims)
  where
    joined : Rows WorkerClaim → List (ℕ × List ℕ)
    joined [] = []
    joined ((k, c) ∷ rest) =
        let others = joined rest in
        if is_live captured_at c
        then elim (find_row k (λ t. t.step_id == c.step_id) s.steps) [
          | none ↦ others
          | some t ↦ (c.claim_id, t.reservation_ids) ∷ others
        ]
        else others

-- The ids of several lists, each once.
abbrev pub union_of : List (ℕ × List ℕ) → List ℕ
union_of [] = []
union_of ((k, ids) ∷ rest) =
    let others = union_of rest in keep (λ i. not (contains others i)) ids ++ others

-- _load_claim_reservations
unfoldable pub load_claim_reservations :
    List (ℕ × List ℕ) → Store → Result (List ResourceReservation)
load_claim_reservations active_claims s = do
  let ids = union_of active_claims
  let rows = keep (λ r. contains ids r.reservation_id) (map (λ row. row.1) s.scheduler.reservations)
  raise_if (not (is_subset ids (map (λ r. r.reservation_id) rows)))
      (worker_protocol_error "an active worker claim references a released reservation")
  ok (sorted_by reservation_row_key rows)

-- _load_target_reservations
unfoldable pub load_target_reservations :
    String → WorkerStep → Store → Result (List ResourceReservation)
unfolding find_rows
load_target_reservations key step s = do
  let rows =
      find_rows key (λ r. contains step.reservation_ids r.reservation_id) s.scheduler.reservations
  raise_if (not (is_subset step.reservation_ids (map (λ r. r.reservation_id) rows)))
      (worker_protocol_error "worker step does not retain its complete current reservation set")
  raise_if (any (λ r. not (r.task_id == step.task_id)) rows)
      (worker_protocol_error "worker step reservation belongs to another task")
  ok (sorted_by reservation_row_key rows)
