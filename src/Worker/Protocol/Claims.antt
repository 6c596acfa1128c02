-- ===== src/Worker/Protocol/Claims.antt =====
-- worker_protocol.py: the observation that a claim rests on, the envelope that a worker gets, and
-- the attempt at a claim.
use prometheist.Base.{
  ℕ, Bool, true, false, not, ◌&&◌, ◌||◌, Option, none, some, List, String, Result, ok, value_error,
  ◌>>◌, raise_if, ltb, leb, no_duplicates, strip, is_blank, ◌==◌, ℕ_eq, String_eq,
}
use prometheist.Attention.Resources.{Uuid}
use prometheist.Attention.Observation.{ResourceObservationSnapshot, is_some, bool_eq}
use prometheist.Worker.Protocol.Identity.{worker_claim_policy_version, worker_observation_namespace}
use prometheist.Worker.Protocol.Records.{WorkerStep, WorkerClaim, WorkerCheckpoint}

pub data WorkerClaimDecision : Type 0 where
  granted denied : WorkerClaimDecision

abbrev pub is_granted : WorkerClaimDecision → Bool
is_granted granted = true
is_granted denied = false

pub record WorkerClaimResourceObservation : Type 0 where
  pub observation_id : ℕ
  pub step_id : ℕ
  pub assignment_id : ℕ
  pub captured_at : ℕ
  pub evaluated_at : ℕ
  pub valid_until : ℕ
  pub claim_policy_version : String
  pub resource_safety_policy_version : String
  pub decision : WorkerClaimDecision
  pub reason : String
  pub active_claim_ids : List ℕ
  pub target_reservation_ids : List ℕ
  pub resource_snapshot : ResourceObservationSnapshot

pub record WorkerClaimEnvelope : Type 0 where
  pub step : WorkerStep
  pub claim : WorkerClaim
  pub checkpoint : Option WorkerCheckpoint

pub record WorkerClaimAttempt : Type 0 where
  pub observation : WorkerClaimResourceObservation
  pub envelope : Option WorkerClaimEnvelope

-- `claim_json` is the canonical JSON text of an observation. It is taken of the observation with a
-- blank identity, since the text leaves the identity out.
module _ ⦃u : Uuid⦄ (claim_json : WorkerClaimResourceObservation → String) where
  unfoldable pub deterministic_worker_claim_observation_id : WorkerClaimResourceObservation → ℕ
  deterministic_worker_claim_observation_id o =
      u.uuid5 worker_observation_namespace (claim_json (record o { observation_id = 0 }))

  -- The constructor, with normalize_reason and validate_observation.
  unfoldable pub claim_resource_observation :
      WorkerClaimResourceObservation → Result WorkerClaimResourceObservation
  unfolding deterministic_worker_claim_observation_id
  claim_resource_observation o = do
    let snapshot = o.resource_snapshot
    let normal = record o { reason = strip o.reason }
    raise_if (o.resource_safety_policy_version == "")
        (value_error "resource_safety_policy_version must not be empty")
    raise_if (is_blank (strip o.reason)) (value_error "claim observation reason must not be empty")
    raise_if (not (o.claim_policy_version == worker_claim_policy_version))
        (value_error "worker claim policy version is unsupported")
    raise_if (leb o.valid_until o.captured_at)
        (value_error "claim observation must have a positive lifetime")
    raise_if
        (not (snapshot.captured_at == o.captured_at)
          || not (snapshot.valid_until == o.valid_until)
          || not (snapshot.safety_policy_version == o.resource_safety_policy_version))
        (value_error "claim observation must bind its exact resource snapshot")
    raise_if
        (is_granted o.decision
          && not (leb o.captured_at o.evaluated_at && leb o.evaluated_at o.valid_until))
        (value_error "a granted claim observation must be fresh")
    raise_if (not (no_duplicates o.active_claim_ids))
        (value_error "active_claim_ids must not contain duplicates")
    raise_if (not (no_duplicates o.target_reservation_ids))
        (value_error "target_reservation_ids must not contain duplicates")
    raise_if (not (o.observation_id == deterministic_worker_claim_observation_id normal))
        (value_error "worker claim observation id is not deterministic")
    ok normal

-- WorkerClaimResourceObservation.assert_fresh
abbrev pub assert_claim_fresh : WorkerClaimResourceObservation → ℕ → Result (Unit {0})
assert_claim_fresh o at =
    raise_if (ltb at o.captured_at || ltb o.valid_until at)
      (value_error "worker claim resource observation is stale")

-- Whether the checkpoint of an envelope is the one that its claim resumes from.
abbrev pub check_checkpoint : WorkerClaimEnvelope → Option WorkerCheckpoint → Result (Unit {0})
check_checkpoint e none =
    raise_if (not (e.claim.checkpoint_revision == 0))
      (value_error "claim references a missing checkpoint")
check_checkpoint e (some c) =
    raise_if (not (c.step_id == e.step.step_id) || not (c.revision == e.claim.checkpoint_revision))
      (value_error "claim does not reference the latest checkpoint")

-- The constructor, with validate_envelope.
unfoldable pub claim_envelope : WorkerClaimEnvelope → Result WorkerClaimEnvelope
claim_envelope e = do
  raise_if
      (not (e.claim.step_id == e.step.step_id)
        || not (e.claim.assignment_id == e.step.assignment_id)
        || not (e.claim.task_id == e.step.task_id))
      (value_error "worker claim does not match its step")
  check_checkpoint e e.checkpoint
  ok e

abbrev pub check_attempt :
    WorkerClaimResourceObservation → Option WorkerClaimEnvelope → Result (Unit {0})
check_attempt o none = ok tt
check_attempt o (some e) =
    raise_if
      (not (e.step.step_id == o.step_id)
        || not (e.step.assignment_id == o.assignment_id)
        || not (e.claim.observation_id == o.observation_id))
      (value_error "claim envelope does not match its observation")

-- The constructor, with validate_decision.
unfoldable pub claim_attempt : WorkerClaimAttempt → Result WorkerClaimAttempt
claim_attempt a = do
  raise_if (not (bool_eq (is_granted a.observation.decision) (is_some a.envelope)))
      (value_error "only a granted observation may carry a worker lease")
  check_attempt a.observation a.envelope
  ok a
