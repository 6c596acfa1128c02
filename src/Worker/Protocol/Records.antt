-- ===== src/Worker/Protocol/Records.antt =====
-- worker_protocol.py: steps, claims, checkpoints and results, with their validators. An instant is
-- in microseconds. A JSON object is its canonical text.
use prometheist.Base.{
  ℕ, Bool, true, false, not, ◌&&◌, ◌||◌, List, map, String, Result, ok, value_error, ◌>>=◌, ◌>>◌,
  raise_if, ltb, leb, any, no_duplicates, strip, is_blank, ◌==◌, ℕ_eq, String_eq,
}
use prometheist.Attention.Resources.{Uuid}
use prometheist.Worker.Protocol.Identity.{
  worker_protocol_version, deterministic_worker_step_id, deterministic_worker_idempotency_key,
  deterministic_worker_claim_id, deterministic_worker_checkpoint_id, deterministic_worker_result_id,
}

pub data WorkerEffectPolicy : Type 0 where
  no_external_effect idempotent_with_key at_most_once : WorkerEffectPolicy

abbrev pub abandoned_retry_is_safe : WorkerEffectPolicy → Bool
abandoned_retry_is_safe no_external_effect = true
abandoned_retry_is_safe idempotent_with_key = true
abandoned_retry_is_safe at_most_once = false

pub data WorkerClaimStatus : Type 0 where
  active checkpointed completed abandoned released : WorkerClaimStatus

pub record WorkerStep : Type 0 where
  pub protocol_version : String
  pub step_id : ℕ
  pub assignment_id : ℕ
  pub task_id : ℕ
  pub task_revision : ℕ
  pub created_epoch_sequence : ℕ
  pub step_key : String
  pub capability : String
  pub reservation_ids : List ℕ
  pub input_refs : List String
  pub idempotency_key : String
  pub effect_policy : WorkerEffectPolicy

pub record WorkerClaim : Type 0 where
  pub claim_id : ℕ
  pub step_id : ℕ
  pub assignment_id : ℕ
  pub task_id : ℕ
  pub worker_id : String
  pub attempt : ℕ
  pub checkpoint_revision : ℕ
  pub observation_id : ℕ
  pub claimed_at : ℕ
  pub lease_expires_at : ℕ
  pub last_heartbeat_at : ℕ
  pub status : WorkerClaimStatus

pub record WorkerCheckpoint : Type 0 where
  pub checkpoint_id : ℕ
  pub step_id : ℕ
  pub claim_id : ℕ
  pub revision : ℕ
  pub state : String
  pub output_refs : List String
  pub created_at : ℕ

pub record WorkerResult : Type 0 where
  pub result_id : ℕ
  pub step_id : ℕ
  pub claim_id : ℕ
  pub checkpoint_revision : ℕ
  pub idempotency_key : String
  pub output : String
  pub output_refs : List String
  pub completed_at : ℕ

-- The validators of input_refs and output_refs: the references without surrounding space.
unfoldable pub normalize_refs : List String → Result (List String)
normalize_refs values = do
  let normalized = map strip values
  raise_if (any is_blank normalized) (value_error "references must not contain empty values")
  raise_if (not (no_duplicates normalized)) (value_error "references must not contain duplicates")
  ok normalized

module _ ⦃u : Uuid⦄ where
  -- The constructor, with the validators of the fields and validate_deterministic_contract.
  unfoldable pub worker_step : WorkerStep → Result WorkerStep
  unfolding normalize_refs
  worker_step s = do
    raise_if (not (leb 1 s.created_epoch_sequence))
        (value_error "created_epoch_sequence must be positive")
    raise_if
        (is_blank (strip s.step_key)
          || is_blank (strip s.capability)
          || is_blank (strip s.idempotency_key))
        (value_error "worker-step text fields must not be empty")
    refs ← normalize_refs s.input_refs
    raise_if (not (s.protocol_version == worker_protocol_version))
        (value_error "worker step protocol version is unsupported")
    raise_if (not (no_duplicates s.reservation_ids))
        (value_error "reservation_ids must not contain duplicates")
    step_id ← deterministic_worker_step_id s.assignment_id (strip s.step_key)
    raise_if (not (s.step_id == step_id)) (value_error "worker step id is not deterministic")
    raise_if (not (strip s.idempotency_key == deterministic_worker_idempotency_key s.step_id))
        (value_error "worker idempotency key is not deterministic")
    ok (record s {
      step_key = strip s.step_key;
      capability = strip s.capability;
      idempotency_key = strip s.idempotency_key;
      input_refs = refs;
    })

  -- The constructor, with normalize_worker_id and validate_claim.
  unfoldable pub worker_claim : WorkerClaim → Result WorkerClaim
  worker_claim c = do
    raise_if (not (leb 1 c.attempt)) (value_error "attempt must be positive")
    raise_if (is_blank (strip c.worker_id)) (value_error "worker_id must not be empty")
    raise_if (leb c.lease_expires_at c.claimed_at)
        (value_error "worker lease must have a positive lifetime")
    raise_if
        (not (leb c.claimed_at c.last_heartbeat_at && ltb c.last_heartbeat_at c.lease_expires_at))
        (value_error "worker heartbeat must fall inside the lease")
    claim_id ← deterministic_worker_claim_id c.step_id c.attempt
    raise_if (not (c.claim_id == claim_id)) (value_error "worker claim id is not deterministic")
    ok (record c { worker_id = strip c.worker_id })

  -- The constructor, with validate_checkpoint.
  unfoldable pub worker_checkpoint : WorkerCheckpoint → Result WorkerCheckpoint
  unfolding normalize_refs
  worker_checkpoint c = do
    raise_if (not (leb 1 c.revision)) (value_error "revision must be positive")
    refs ← normalize_refs c.output_refs
    checkpoint_id ← deterministic_worker_checkpoint_id c.step_id c.revision
    raise_if (not (c.checkpoint_id == checkpoint_id))
        (value_error "worker checkpoint id is not deterministic")
    ok (record c { output_refs = refs })

  -- The constructor, with normalize_result_idempotency_key and validate_result.
  unfoldable pub worker_result : WorkerResult → Result WorkerResult
  unfolding normalize_refs
  worker_result r = do
    raise_if (is_blank (strip r.idempotency_key)) (value_error "idempotency_key must not be empty")
    refs ← normalize_refs r.output_refs
    raise_if (not (r.result_id == deterministic_worker_result_id r.step_id))
        (value_error "worker result id is not deterministic")
    raise_if (not (strip r.idempotency_key == deterministic_worker_idempotency_key r.step_id))
        (value_error "worker result uses the wrong idempotency key")
    ok (record r { idempotency_key = strip r.idempotency_key; output_refs = refs })
