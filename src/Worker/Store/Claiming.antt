-- ===== src/Worker/Store/Claiming.antt =====
-- worker_store.py: guarded_claim_worker_step.
use prometheist.Base.{
  ℕ, ◌+◌, max, ◌&&◌, Option, none, some, List, [], ◌∷◌, map, String, Result, ok, value_error, ◌>>=◌,
  ◌>>◌, raise_if, if◌then◌else◌, ltb, leb, sorted_by, strip, is_blank, ◌==◌, ℕ_eq, String_eq,
  ℕ_ordered, String_ordered, ◌+++◌,
}
use prometheist.Attention.Resources.{Uuid, execution_resource}
use prometheist.Attention.Observation.{
  ResourceSafetyPolicy, HostResourceMetrics, ResourceObservationSnapshot,
  build_resource_observation,
}
use prometheist.Worker.Protocol.{
  WorkerStep, WorkerClaim, active, abandoned, WorkerCheckpoint, WorkerClaimDecision, granted,
  denied, is_granted, WorkerClaimResourceObservation, WorkerClaimAttempt,
  worker_claim_policy_version, worker_claim, claim_envelope, claim_attempt,
  claim_resource_observation, assert_claim_fresh, deterministic_worker_claim_id,
  deterministic_worker_claim_observation_id,
}
use prometheist.Worker.Store.Tables.{Rows, Store, find_rows, max_of, is_active}
use prometheist.Worker.Store.Load.{
  validate_lease_seconds, lock_scheduler_state, load_step, load_latest_claim,
  load_latest_checkpoint, load_result_row, load_current_resource_observation,
  load_active_claim_rows, load_claim_reservations, load_target_reservations, convert_all,
}
use prometheist.Worker.Store.Writes.{insert_claim, insert_immutable_claim_observation}
use prometheist.Worker.Store.Leases.{Outcome, done, seconds, transaction}
use prometheist.Worker.Store.Denials.{structural_claim_denial, resource_claim_denial}

-- What `host_probe.capture()` comes to: metrics, or the text of what it raised.
pub data ProbeOutcome : Type 0 where
  captured : HostResourceMetrics → ProbeOutcome
  failed : String → ProbeOutcome

abbrev pub metrics_of : ProbeOutcome → Option HostResourceMetrics
metrics_of (captured m) = some m
metrics_of (failed text) = none

abbrev pub errors_of : ProbeOutcome → List String
errors_of (captured m) = []
errors_of (failed text) = text ∷ []

-- The leases of every scheduler that have run out are closed.
unfoldable pub expire_claims : ℕ → Rows WorkerClaim → Rows WorkerClaim
expire_claims at [] = []
expire_claims at ((k, c) ∷ rest) =
    let others = expire_claims at rest in
    if is_active c && leb c.lease_expires_at at
    then (k, record c { status = abandoned }) ∷ others
    else (k, c) ∷ others

-- The policy of the observation that the scheduler committed, or the one that the caller expects.
abbrev pub policy_for :
    Option ResourceObservationSnapshot
    → Option ResourceSafetyPolicy
    → ResourceSafetyPolicy
    → ResourceSafetyPolicy
policy_for (some committed) expected default_policy = committed.policy
policy_for none (some expected) default_policy = expected
policy_for none none default_policy = default_policy

-- The tests of the second reading of the clock.
abbrev pub clock_denial : ResourceObservationSnapshot → ℕ → Option String → Option String
clock_denial snapshot evaluated_at reason =
    if ltb evaluated_at snapshot.captured_at
    then some "claim-time clock moved backward before publication"
    else if ltb snapshot.valid_until evaluated_at
    then some "claim-time resource observation expired before publication"
    else reason

abbrev pub decision_for : Option String → WorkerClaimDecision
decision_for none = granted
decision_for (some reason) = denied

abbrev pub reason_text : Option String → String
reason_text none = "fresh resource gate admitted the worker step"
reason_text (some reason) = reason

-- The arguments of a call: whose step, which worker, what the probe and the two readings of the
-- clock gave, the policy that the caller expects, and the length of the lease.
pub record ClaimCall : Type 0 where
  pub step_id : ℕ
  pub worker_id : String
  pub probe : ProbeOutcome
  pub policy : Option ResourceSafetyPolicy
  pub captured_at : ℕ
  pub evaluated_at : ℕ
  pub lease_seconds : ℕ

-- What the transaction has read when it decides.
pub record Reading : Type 0 where
  pub step : WorkerStep
  pub checkpoint : Option WorkerCheckpoint
  pub snapshot : ResourceObservationSnapshot
  pub active_claim_ids : List ℕ
  pub reason : Option String

module _ ⦃u : Uuid⦄ (observation_json : ResourceObservationSnapshot → String)
    (claim_json : WorkerClaimResourceObservation → String) (default_policy : ResourceSafetyPolicy)
    (key : String) where
  -- _make_claim_observation
  unfoldable pub make_claim_observation :
      WorkerStep
      → ResourceObservationSnapshot
      → ℕ
      → Option String
      → List ℕ
      → Result WorkerClaimResourceObservation
  unfolding deterministic_worker_claim_observation_id claim_resource_observation
  make_claim_observation step snapshot evaluated_at reason active_claim_ids =
      let provisional : WorkerClaimResourceObservation = record {
        observation_id = 0;
        step_id = step.step_id;
        assignment_id = step.assignment_id;
        captured_at = snapshot.captured_at;
        evaluated_at = evaluated_at;
        valid_until = snapshot.valid_until;
        claim_policy_version = worker_claim_policy_version;
        resource_safety_policy_version = snapshot.safety_policy_version;
        decision = decision_for reason;
        reason = reason_text reason;
        active_claim_ids = active_claim_ids;
        target_reservation_ids = step.reservation_ids;
        resource_snapshot = snapshot;
      } in
      claim_resource_observation claim_json (record provisional {
        observation_id = deterministic_worker_claim_observation_id claim_json provisional;
      })

  -- The reason that is left after the reservations of the step are looked at.
  unfoldable pub reservation_denial :
      Option String → WorkerStep → ResourceObservationSnapshot → Store → Result (Option String)
  unfolding load_target_reservations resource_claim_denial
  reservation_denial (some reason) step snapshot s = ok (some reason)
  reservation_denial none step snapshot s = do
    target ← load_target_reservations key step s
    ok (resource_claim_denial snapshot target)

  -- From the lock on the scheduler to the decision, on tables whose expired claims are closed.
  unfoldable pub read_for_claim : ClaimCall → Store → Result (Reading × Store)
  unfolding load_current_resource_observation load_step load_latest_checkpoint load_result_row
      load_latest_claim load_active_claim_rows load_claim_reservations build_resource_observation
      structural_claim_denial reservation_denial expire_claims execution_resource
  read_for_claim call s = do
    state ← lock_scheduler_state key s
    committed ←
        load_current_resource_observation observation_json key state.current_resource_observation_id
          s
    let policy = policy_for committed call.policy default_policy
    step ← load_step key call.step_id s
    resources ←
        convert_all execution_resource (sorted_by (λ r. r.resource_id) s.scheduler.resources)
    let next = record s { claims = expire_claims call.captured_at s.claims }
    checkpoint ← load_latest_checkpoint key step.step_id next
    existing ← load_result_row key step.step_id next
    latest ← load_latest_claim key step.step_id next
    let active_claims = load_active_claim_rows call.captured_at next
    reservations ← load_claim_reservations active_claims next
    snapshot ←
        build_resource_observation observation_json (max 1 state.cycle) call.captured_at resources
          reservations policy (metrics_of call.probe) (errors_of call.probe)
          ("worker-claim:" +++ key)
    reason ←
        reservation_denial
          (structural_claim_denial key state step latest existing call.captured_at policy
            call.policy committed next)
          step snapshot next
    ok (
      record {
        step = step;
        checkpoint = checkpoint;
        snapshot = snapshot;
        active_claim_ids = sorted_by (λ k. k) (map (λ row. row.0) active_claims);
        reason = clock_denial snapshot call.evaluated_at reason;
      },
      next,
    )

  abbrev pub revision_of : Option WorkerCheckpoint → ℕ
  revision_of none = 0
  revision_of (some c) = c.revision

  -- SELECT coalesce(max(attempt), 0), and one more
  abbrev pub next_attempt : ℕ → Store → ℕ
  next_attempt step_id s =
      max_of (λ c. c.attempt) (find_rows key (λ c. c.step_id == step_id) s.claims) + 1

  abbrev pub lease_for : ClaimCall → Reading → ℕ → ℕ → WorkerClaim
  lease_for call reading observation_id attempt = record {
    claim_id = 0;
    step_id = reading.step.step_id;
    assignment_id = reading.step.assignment_id;
    task_id = reading.step.task_id;
    worker_id = strip call.worker_id;
    attempt = attempt;
    checkpoint_revision = revision_of reading.checkpoint;
    observation_id = observation_id;
    claimed_at = call.evaluated_at;
    lease_expires_at = call.evaluated_at + seconds call.lease_seconds;
    last_heartbeat_at = call.evaluated_at;
    status = active;
  }

  -- The branch of a decision to grant.
  unfoldable pub grant :
      ClaimCall
      → Reading
      → WorkerClaimResourceObservation
      → Store
      → Result (Outcome WorkerClaimAttempt × Store)
  unfolding find_rows max_of worker_claim insert_claim claim_envelope claim_attempt
  grant call reading observation s = do
    let attempt = next_attempt reading.step.step_id s
    claim_id ← deterministic_worker_claim_id reading.step.step_id attempt
    claim ←
        worker_claim (record (lease_for call reading observation.observation_id attempt) {
          claim_id = claim_id;
        })
    next ← insert_claim key claim s
    envelope ←
        claim_envelope
          (record { step = reading.step; claim = claim; checkpoint = reading.checkpoint })
    made ← claim_attempt (record { observation = observation; envelope = some envelope })
    ok (done made, next)

  unfoldable pub deny :
      WorkerClaimResourceObservation → Store → Result (Outcome WorkerClaimAttempt × Store)
  unfolding claim_attempt
  deny observation s = do
    made ← claim_attempt (record { observation = observation; envelope = none })
    ok (done made, s)

  -- The observation is stored in both cases, before a lease is.
  unfoldable pub publish : ClaimCall → Reading × Store → Result (Outcome WorkerClaimAttempt × Store)
  unfolding make_claim_observation insert_immutable_claim_observation grant deny
  publish call (reading, s) = do
    observation ←
        make_claim_observation reading.step reading.snapshot call.evaluated_at reading.reason
          reading.active_claim_ids
    if is_granted (decision_for reading.reason)
        then (assert_claim_fresh observation call.evaluated_at
            >> insert_immutable_claim_observation claim_json key observation s
            >>= λ next. grant call reading observation next)
        else (insert_immutable_claim_observation claim_json key observation s >>= λ next.
            deny observation next)

  unfoldable pub guarded_claim_worker_step : ClaimCall → Store → Result WorkerClaimAttempt × Store
  unfolding read_for_claim publish
  guarded_claim_worker_step call s =
      transaction
        (raise_if (is_blank (strip call.worker_id)) (value_error "worker_id must not be empty")
          >> validate_lease_seconds call.lease_seconds
          >> (read_for_claim call s >>= publish call))
        s
