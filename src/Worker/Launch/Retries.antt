-- ===== src/Worker/Launch/Retries.antt =====
-- worker_runtime.py: GuardedWorkerLauncher, its constructor and claim.
use prometheist.Base.{
  subst, Option-cases, ◌⊎◌, ℕ, zero, suc, ◌+◌, ◌<◌, ◌≡◌, refl, ap, ◌∙◌, not, ◌||◌, Option, none,
  some, List, String, Result, ok, err, value_error, worker_protocol_error, worker_launch_denied,
  ◌>>◌, raise_if, if◌then◌else◌, ltb, leb, arith, inl, inr, ok-injective,
}
use prometheist.Attention.Resources.{Uuid}
use prometheist.Attention.Observation.{ResourceSafetyPolicy, ResourceObservationSnapshot}
use prometheist.Worker.Protocol.{
  WorkerClaimResourceObservation, WorkerClaimEnvelope, WorkerClaimAttempt,
}
use prometheist.Worker.Store.Tables.{Store}
use prometheist.Worker.Store.Claiming.{ProbeOutcome, ClaimCall, guarded_claim_worker_step}
use prometheist.Worker.Store.Calls.{Call}
use prometheist.Worker.Store.Runs.{perform_all}
use prometheist.Worker.Store.Authorized.{Authorized, swept}
use prometheist.Worker.Store.HandedOut.{guarded_claim_worker_step-Authorized}
use prometheist.Worker.Launch.Gate.{is_transient_resource_denial}

pub record GuardedWorkerLauncher : Type 0 where
  pub policy : Option ResourceSafetyPolicy
  pub claim_retry_attempts : ℕ

-- The constructor. A delay is a natural number here, so that it is not negative.
abbrev pub guarded_worker_launcher : GuardedWorkerLauncher → Result GuardedWorkerLauncher
guarded_worker_launcher l =
    raise_if (ltb l.claim_retry_attempts 1) (value_error "claim_retry_attempts must be >= 1")
    >> ok l

-- What an attempt meets: the probe, the two readings of the clock, whether the denial could be
-- recorded (record_admission_denial of reflexes.py writes a journal of its own), and the calls that
-- other workers make before the reservations are asked for, and then until the launcher has slept.
pub record ClaimRound : Type 0 where
  pub probe : ProbeOutcome
  pub captured_at : ℕ
  pub evaluated_at : ℕ
  pub recorded : Result (Unit {0})
  pub before_test : List (String × Call)
  pub meanwhile : List (String × Call)

abbrev pub call_of : GuardedWorkerLauncher → ℕ → String → ℕ → ClaimRound → ClaimCall
call_of l step_id worker_id lease_seconds r = record {
  step_id = step_id;
  worker_id = worker_id;
  probe = r.probe;
  policy = l.policy;
  captured_at = r.captured_at;
  evaluated_at = r.evaluated_at;
  lease_seconds = lease_seconds;
}

module _ ⦃u : Uuid⦄ (observation_json : ResourceObservationSnapshot → String)
    (claim_json : WorkerClaimResourceObservation → String) (default_policy : ResourceSafetyPolicy)
    (key : String) (l : GuardedWorkerLauncher) (rounds : ℕ → ClaimRound) (step_id : ℕ)
    (worker_id : String) (lease_seconds : ℕ) where
  -- The guarded claim of a round.
  abbrev pub attempt_in : ℕ → Store → Result WorkerClaimAttempt × Store
  attempt_in index =
      guarded_claim_worker_step observation_json claim_json default_policy key
        (call_of l step_id worker_id lease_seconds (rounds index))

  -- A denied attempt: what the later rounds come to, or the denial.
  abbrev pub after_denial :
      ℕ
      → Result WorkerClaimEnvelope × Store
      → WorkerClaimResourceObservation
      → Store
      → Result WorkerClaimEnvelope × Store
  after_denial index later observation t =
      if not (is_transient_resource_denial key observation t)
        || leb l.claim_retry_attempts (index + 1)
      then ((rounds index).recorded >> err (worker_launch_denied observation.reason), t)
      else later

  -- What an attempt comes to, of the tables that it left and those that the test is asked of.
  abbrev pub conclude :
      ℕ
      → Result WorkerClaimEnvelope × Store
      → Store
      → Store
      → Result WorkerClaimAttempt
      → Result WorkerClaimEnvelope × Store
  conclude index later left tested (err e) = (err e, left)
  conclude index later left tested (ok attempt) = elim attempt.envelope [
    | some e ↦ (ok e, left)
    | none ↦ after_denial index later attempt.observation tested
  ]

  -- The tables that the test of a denial is asked of.
  unfoldable pub tested_in : ℕ → Store → Store
  unfolding guarded_claim_worker_step perform_all
  tested_in index s =
      perform_all observation_json claim_json default_policy (rounds index).before_test
        (attempt_in index s).1

  -- The tables after a round: its claim, and what other workers did until the next one.
  unfoldable pub after_round : ℕ → Store → Store
  unfolding tested_in perform_all
  after_round index s =
      perform_all observation_json claim_json default_policy (rounds index).meanwhile
        (tested_in index s)

  -- The rounds of the loop from `index` on, `left` of them.
  unfoldable pub claim_rounds : ℕ → ℕ → Store → Result WorkerClaimEnvelope × Store
  unfolding guarded_claim_worker_step is_transient_resource_denial tested_in after_round
  claim_rounds index zero s =
      (err (worker_protocol_error "guarded claim retry loop exited without a decision"), s)
  claim_rounds index (suc left) s =
      conclude index (claim_rounds (index + 1) left (after_round index s)) (attempt_in index s).1
        (tested_in index s) (attempt_in index s).0

  -- GuardedWorkerLauncher.claim
  unfoldable pub claim : Store → Result WorkerClaimEnvelope × Store
  unfolding claim_rounds
  claim s = claim_rounds 0 l.claim_retry_attempts s

  -- The tables before the `k`-th of the rounds from `index` on.
  unfoldable pub tables_before : ℕ → ℕ → Store → Store
  unfolding after_round
  tables_before index zero s = s
  tables_before index (suc k) s = tables_before (index + 1) k (after_round index s)

  -- The guarded claim of a round found the tables such that the lease was authorized.
  abbrev pub AuthorizedIn : ℕ → Store → WorkerClaimEnvelope → Type 0
  AuthorizedIn index m e =
      (snapshot : ResourceObservationSnapshot) × Authorized key
        (call_of l step_id worker_id lease_seconds (rounds index))
        (swept (call_of l step_id worker_id lease_seconds (rounds index)) m) snapshot e

  abbrev ClaimedFrom : ℕ → ℕ → Store → WorkerClaimEnvelope → Type 0
  ClaimedFrom index left s e =
      (k : ℕ) × (k < left) × AuthorizedIn (index + k) (tables_before index k s) e

  -- The lease was authorized in one of the rounds that are allowed, on the tables of that round.
  abbrev pub IsClaimed : Store → WorkerClaimEnvelope → Type 0
  IsClaimed s e = (k : ℕ) × (k < l.claim_retry_attempts) × AuthorizedIn k (tables_before 0 k s) e

  denied_then :
      (index : ℕ) (later : Result WorkerClaimEnvelope × Store) (o : WorkerClaimResourceObservation)
      (t : Store) (e : WorkerClaimEnvelope)
      → (after_denial index later o t).0 ≡ ok e
      → later.0 ≡ ok e
  denied_then index later o t e h = ground (arith, h)

  conclude-cases :
      (index : ℕ) (later : Result WorkerClaimEnvelope × Store) (left tested : Store)
      (result : Result WorkerClaimAttempt) (e : WorkerClaimEnvelope)
      → (conclude index later left tested result).0 ≡ ok e
      → ((a : WorkerClaimAttempt) × (result ≡ ok a) × (a.envelope ≡ some e)) ⊎ (later.0 ≡ ok e)
  conclude-cases index later left tested (err error) e h = absurd (cc h)
  conclude-cases index later left tested (ok a) e h = elim (Option-cases a.envelope) [
    | inl none_given ↦ inr (denied_then index later a.observation tested e (rw none_given at h))
    | inr (given, has) ↦
        inl (a, refl, has ∙ ap (λ (n : WorkerClaimEnvelope). some n) (ok-injective (rw has at h)))
  ]

  later_round :
      (index left : ℕ) (s : Store) (e : WorkerClaimEnvelope)
      → ClaimedFrom (index + 1) left (after_round index s) e
      → ClaimedFrom index (suc left) s e
  unfolding tables_before
  later_round index left s e (k, within, authorized) =
      let same : index + 1 + k ≡ index + suc k = omega arith in
      (
        suc k,
        omega (arith, within),
        subst (λ (n : ℕ). AuthorizedIn n (tables_before (index + 1) k (after_round index s)) e) same
            authorized,
      )

  claim_rounds-ClaimedFrom :
      (index left : ℕ) (s : Store) (e : WorkerClaimEnvelope)
      → (claim_rounds index left s).0 ≡ ok e
      → ClaimedFrom index left s e
  unfolding claim_rounds tables_before
  claim_rounds-ClaimedFrom index zero s e h = absurd (cc h)
  claim_rounds-ClaimedFrom index (suc left) s e h =
      elim (conclude-cases index (claim_rounds (index + 1) left (after_round index s))
        (attempt_in index s).1 (tested_in index s) (attempt_in index s).0 e h) [
          | inl (a, returned, has) ↦
              let same : index ≡ index + 0 = omega arith in
              (
                0,
                omega arith,
                subst (λ (n : ℕ). AuthorizedIn n s e) same
                    (
                      a.observation.resource_snapshot,
                      guarded_claim_worker_step-Authorized observation_json claim_json
                          default_policy key
                          (call_of l step_id worker_id lease_seconds (rounds index)) s a e returned
                          has,
                    ),
              )
          | inr later ↦
              later_round index left s e
                (claim_rounds-ClaimedFrom (index + 1) left (after_round index s) e later)
        ]

  pub claim-IsClaimed : (s : Store) (e : WorkerClaimEnvelope) → (claim s).0 ≡ ok e → IsClaimed s e
  unfolding claim
  claim-IsClaimed s e h =
      let (k, within, authorized) = claim_rounds-ClaimedFrom 0 l.claim_retry_attempts s e h in
      let same : 0 + k ≡ k = omega arith in
      (k, within, subst (λ (n : ℕ). AuthorizedIn n (tables_before 0 k s) e) same authorized)
