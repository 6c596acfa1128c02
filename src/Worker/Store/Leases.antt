-- ===== src/Worker/Store/Leases.antt =====
-- worker_store.py: what a worker does with its claim. An operation is a function from the instant
-- and the tables to what it returns or raises, and the tables it leaves. A claim that was looked up
-- by its id carries that id as `claim.claim_id`.
use prometheist.Base.{
  ℕ, ◌+◌, ◌*◌, not, ◌||◌, Option, none, some, List, String, Result, ok, err, worker_protocol_error,
  ◌>>=◌, ◌>>◌, raise_if, if◌then◌else◌, leb, ◌==◌, ℕ_eq, String_eq,
}
use prometheist.Attention.Resources.{Uuid}
use prometheist.Attention.Assignments.{list_eq}
use prometheist.Worker.Protocol.{
  WorkerStep, WorkerClaim, checkpointed, completed, abandoned, released, WorkerCheckpoint,
  WorkerResult, WorkerClaimEnvelope, worker_checkpoint, worker_result, claim_envelope,
  deterministic_worker_checkpoint_id, deterministic_worker_result_id,
}
use prometheist.Worker.Store.Tables.{Store, update_rows, is_active, is_checkpointed, is_released}
use prometheist.Worker.Store.Load.{
  validate_lease_seconds, require_worker, required, lock_claim, load_step, load_latest_checkpoint,
  load_checkpoint_for_claim, load_result_row,
}
use prometheist.Worker.Store.Writes.{
  same_checkpoint, set_claim_status, insert_immutable_checkpoint, insert_immutable_result,
}

-- timedelta(seconds=n)
abbrev pub seconds : ℕ → ℕ
seconds n = 1000000 * n

-- What a transaction leaves to be done after its commit: to return a value, or to raise since the
-- lease had run out.
pub data Outcome (Value : Type 0) : Type 0 where
  done : Value → Outcome Value
  expired : Outcome Value

abbrev pub after_commit : {Value : Type 0} → Outcome Value → Result Value
after_commit (done v) = ok v
after_commit expired = err (worker_protocol_error "worker claim lease has expired")

-- A transaction that raises is rolled back; one that ends is committed.
abbrev pub transaction :
    {Value : Type 0} → Result (Outcome Value × Store) → Store → Result Value × Store
transaction (ok (outcome, next)) s = (after_commit outcome, next)
transaction (err e) s = (err e, s)

module _ ⦃u : Uuid⦄ (key : String) where
  -- A lease that has run out is closed as ABANDONED, and the transaction is committed.
  unfoldable pub abandon : {Value : Type 0} → ℕ → Store → Result (Outcome Value × Store)
  unfolding set_claim_status
  abandon claim_id s = do next ← set_claim_status key claim_id abandoned s; ok (expired, next)

  abbrev pub extended : ℕ → ℕ → WorkerClaim → WorkerClaim
  extended at lease_seconds c = record c {
    last_heartbeat_at = at;
    lease_expires_at = at + seconds lease_seconds;
  }

  unfoldable pub heartbeat_body : ℕ → String → ℕ → ℕ → Store → Result (Outcome WorkerClaim × Store)
  unfolding lock_claim abandon update_rows
  heartbeat_body claim_id worker_id lease_seconds at s = do
    claim ← lock_claim key claim_id s
    require_worker claim worker_id
    raise_if (not (is_active claim))
        (worker_protocol_error "only an ACTIVE worker claim may heartbeat")
    let next = record s {
      claims = update_rows key (λ c. c.claim_id == claim_id) (extended at lease_seconds) s.claims;
    }
    if leb claim.lease_expires_at at
        then abandon claim_id s
        else (lock_claim key claim_id next >>= λ updated. ok (done updated, next))

  unfoldable pub heartbeat_worker_claim : ℕ → String → ℕ → ℕ → Store → Result WorkerClaim × Store
  unfolding heartbeat_body
  heartbeat_worker_claim claim_id worker_id lease_seconds at s =
      transaction
        (validate_lease_seconds lease_seconds
          >> heartbeat_body claim_id worker_id lease_seconds at s)
        s

  -- A retry of a checkpoint that was committed before.
  unfoldable pub checkpoint_again :
      ℕ → String → List String → Store → Result (Outcome WorkerCheckpoint × Store)
  unfolding load_checkpoint_for_claim same_checkpoint
  checkpoint_again claim_id state output_refs s = do
    found ← load_checkpoint_for_claim key claim_id s
    checkpoint ←
        required (worker_protocol_error "checkpointed claim has no durable checkpoint") found
    raise_if
        (not (
          same_checkpoint (record checkpoint { state = state; output_refs = output_refs })
            checkpoint))
        (worker_protocol_error "conflicting idempotent checkpoint retry")
    ok (done checkpoint, s)

  unfoldable pub checkpoint_now :
      WorkerClaim → String → List String → ℕ → Store → Result (Outcome WorkerCheckpoint × Store)
  unfolding worker_checkpoint insert_immutable_checkpoint set_claim_status
  checkpoint_now claim state output_refs at s = do
    let revision = claim.checkpoint_revision + 1
    checkpoint_id ← deterministic_worker_checkpoint_id claim.step_id revision
    checkpoint ← worker_checkpoint (record {
      checkpoint_id = checkpoint_id;
      step_id = claim.step_id;
      claim_id = claim.claim_id;
      revision = revision;
      state = state;
      output_refs = output_refs;
      created_at = at;
    })
    stored ← insert_immutable_checkpoint key checkpoint s
    next ← set_claim_status key claim.claim_id checkpointed stored
    ok (done checkpoint, next)

  unfoldable pub checkpoint_body :
      ℕ → String → String → List String → ℕ → Store → Result (Outcome WorkerCheckpoint × Store)
  unfolding lock_claim abandon checkpoint_again checkpoint_now
  checkpoint_body claim_id worker_id state output_refs at s = do
    claim ← lock_claim key claim_id s
    require_worker claim worker_id
    if is_checkpointed claim
        then checkpoint_again claim_id state output_refs s
        else if not (is_active claim)
        then err (worker_protocol_error "only an ACTIVE worker claim may checkpoint")
        else if leb claim.lease_expires_at at
        then abandon claim_id s
        else checkpoint_now claim state output_refs at s

  unfoldable pub checkpoint_worker_claim :
      ℕ → String → String → List String → ℕ → Store → Result WorkerCheckpoint × Store
  unfolding checkpoint_body
  checkpoint_worker_claim claim_id worker_id state output_refs at s =
      transaction (checkpoint_body claim_id worker_id state output_refs at s) s

  -- A retry of a completion, where the step has a result.
  unfoldable pub complete_again :
      WorkerClaim
      → WorkerResult
      → String
      → List String
      → Store
      → Result (Outcome WorkerResult × Store)
  unfolding list_eq
  complete_again claim existing output output_refs s = do
    raise_if
        (not (existing.claim_id == claim.claim_id)
          || not (existing.output == output)
          || not (list_eq (λ v w. v == w) existing.output_refs output_refs))
        (worker_protocol_error "conflicting worker result retry")
    ok (done existing, s)

  unfoldable pub complete_now :
      WorkerStep
      → WorkerClaim
      → String
      → List String
      → ℕ
      → Store
      → Result (Outcome WorkerResult × Store)
  unfolding worker_result insert_immutable_result set_claim_status
  complete_now step claim output output_refs at s = do
    result ← worker_result (record {
      result_id = deterministic_worker_result_id step.step_id;
      step_id = step.step_id;
      claim_id = claim.claim_id;
      checkpoint_revision = claim.checkpoint_revision;
      idempotency_key = step.idempotency_key;
      output = output;
      output_refs = output_refs;
      completed_at = at;
    })
    stored ← insert_immutable_result key result s
    next ← set_claim_status key claim.claim_id completed stored
    ok (done result, next)

  unfoldable pub complete_or_retry :
      WorkerStep
      → WorkerClaim
      → Option WorkerResult
      → String
      → List String
      → ℕ
      → Store
      → Result (Outcome WorkerResult × Store)
  unfolding abandon complete_again complete_now
  complete_or_retry step claim (some existing) output output_refs at s =
      complete_again claim existing output output_refs s
  complete_or_retry step claim none output output_refs at s =
      if not (is_active claim)
      then err (worker_protocol_error "only an ACTIVE worker claim may complete")
      else if leb claim.lease_expires_at at
      then abandon claim.claim_id s
      else complete_now step claim output output_refs at s

  unfoldable pub complete_body :
      ℕ → String → String → List String → ℕ → Store → Result (Outcome WorkerResult × Store)
  unfolding lock_claim load_step load_result_row complete_or_retry
  complete_body claim_id worker_id output output_refs at s = do
    claim ← lock_claim key claim_id s
    require_worker claim worker_id
    step ← load_step key claim.step_id s
    existing ← load_result_row key claim.step_id s
    complete_or_retry step claim existing output output_refs at s

  unfoldable pub complete_worker_claim :
      ℕ → String → String → List String → ℕ → Store → Result WorkerResult × Store
  unfolding complete_body
  complete_worker_claim claim_id worker_id output output_refs at s =
      transaction (complete_body claim_id worker_id output output_refs at s) s

  unfoldable pub release_body : ℕ → String → Store → Result (Outcome WorkerClaim × Store)
  unfolding lock_claim set_claim_status
  release_body claim_id worker_id s = do
    claim ← lock_claim key claim_id s
    require_worker claim worker_id
    if is_released claim
        then ok (done claim, s)
        else if not (is_active claim)
        then err (worker_protocol_error "only an ACTIVE worker claim may be released")
        else (set_claim_status key claim_id released s >>= λ next.
            lock_claim key claim_id next >>= λ c. ok (done c, next))

  unfoldable pub release_worker_claim : ℕ → String → Store → Result WorkerClaim × Store
  unfolding release_body
  release_worker_claim claim_id worker_id s = transaction (release_body claim_id worker_id s) s

  -- load_worker_claim_envelope
  unfoldable pub load_worker_claim_envelope : ℕ → String → ℕ → Store → Result WorkerClaimEnvelope
  unfolding lock_claim load_step load_latest_checkpoint claim_envelope
  load_worker_claim_envelope claim_id worker_id at s = do
    claim ← lock_claim key claim_id s
    require_worker claim worker_id
    raise_if (not (is_active claim)) (worker_protocol_error "worker claim is not ACTIVE")
    raise_if (leb claim.lease_expires_at at)
        (worker_protocol_error "worker claim lease has expired")
    step ← load_step key claim.step_id s
    checkpoint ← load_latest_checkpoint key claim.step_id s
    claim_envelope (record { step = step; claim = claim; checkpoint = checkpoint })
