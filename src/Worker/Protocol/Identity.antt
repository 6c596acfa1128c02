-- ===== src/Worker/Protocol/Identity.antt =====
-- worker_protocol.py: the identities, which are all derived from what they identify.
use prometheist.Base.{
  ℕ, not, String, Result, ok, value_error, ◌>>◌, raise_if, leb, strip, is_blank, ◌+++◌, decimal,
}
use prometheist.Attention.Resources.{Uuid}

abbrev pub worker_protocol_version : String
worker_protocol_version = "v0.7-f-worker-v1"

abbrev pub worker_claim_policy_version : String
worker_claim_policy_version = "v0.7-f-guarded-claim-v1"

-- _WORKER_STEP_NAMESPACE, "28f0ad6c-dd5c-4a7e-9e55-7f6de9231599"
abbrev pub worker_step_namespace : ℕ
worker_step_namespace = 54418788559455736963271861561897194905

-- _WORKER_OBSERVATION_NAMESPACE, "0dccacfa-95f6-455c-9d18-6bbdfbd5102b"
abbrev pub worker_observation_namespace : ℕ
worker_observation_namespace = 18342700932248457604080333278896525355

module _ ⦃u : Uuid⦄ where
  -- The identity of a step whose key is not blank.
  abbrev pub step_uuid : ℕ → String → ℕ
  step_uuid assignment_id step_key =
      u.uuid5 worker_step_namespace
        (u.text assignment_id +++ ":prometheist-worker-step:" +++ strip step_key)

  abbrev pub deterministic_worker_step_id : ℕ → String → Result ℕ
  deterministic_worker_step_id assignment_id step_key = do
    raise_if (is_blank (strip step_key)) (value_error "step_key must not be empty")
    ok (step_uuid assignment_id step_key)

  abbrev pub deterministic_worker_idempotency_key : ℕ → String
  deterministic_worker_idempotency_key step_id =
      "prometheist:" +++ worker_protocol_version +++ ":" +++ u.text step_id

  -- The identity of an attempt, where attempts count from 1.
  abbrev pub claim_uuid : ℕ → ℕ → ℕ
  claim_uuid step_id attempt = u.uuid5 step_id ("prometheist-worker-claim:" +++ decimal attempt)

  abbrev pub deterministic_worker_claim_id : ℕ → ℕ → Result ℕ
  deterministic_worker_claim_id step_id attempt = do
    raise_if (not (leb 1 attempt)) (value_error "attempt must be >= 1")
    ok (claim_uuid step_id attempt)

  abbrev pub checkpoint_uuid : ℕ → ℕ → ℕ
  checkpoint_uuid step_id revision =
      u.uuid5 step_id ("prometheist-worker-checkpoint:" +++ decimal revision)

  abbrev pub deterministic_worker_checkpoint_id : ℕ → ℕ → Result ℕ
  deterministic_worker_checkpoint_id step_id revision = do
    raise_if (not (leb 1 revision)) (value_error "checkpoint revision must be >= 1")
    ok (checkpoint_uuid step_id revision)

  abbrev pub deterministic_worker_result_id : ℕ → ℕ
  deterministic_worker_result_id step_id = u.uuid5 step_id "prometheist-worker-result"
