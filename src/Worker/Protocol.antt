-- ===== src/Worker/Protocol.antt =====
-- worker_protocol.py: the records of a worker's life, their validators and their identities.
mod Identity
mod Records
mod Claims
pub use Identity.*
unfoldable pub use Records.{worker_step, worker_claim, worker_checkpoint, worker_result}
pub use Records.*
unfoldable pub use Claims.{
  claim_resource_observation, claim_envelope, claim_attempt,
  deterministic_worker_claim_observation_id,
}
pub use Claims.*
