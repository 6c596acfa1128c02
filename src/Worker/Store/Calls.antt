-- ===== src/Worker/Store/Calls.antt =====
-- The calls that change the tables, in any order, with what the scheduler writes in between.
use prometheist.Base.{
  leb, if◌then◌else◌, ◌&&◌, true, [], ◌∷◌, ◌==◌, String_eq, Bool-cases, inl, inr, ℕ, ◌≤◌, ◌≡◌, refl,
  Bool, false, ◌||◌, List, String, Error, Result, ok, err, ◌>>◌, raise_if, ltb, strip, is_blank,
  arith, OnOk, OnOk-bind, OnOk-raise,
}
use prometheist.Attention.Resources.{Uuid}
use prometheist.Attention.Observation.{ResourceSafetyPolicy, ResourceObservationSnapshot}
use prometheist.Worker.Protocol.{
  WorkerEffectPolicy, WorkerClaim, abandoned, WorkerClaimResourceObservation,
}
use prometheist.Worker.Store.Tables.{Rows, is_active, SchedulerTables, Store}
use prometheist.Worker.Store.Load.{max_worker_lease_seconds, validate_lease_seconds}
use prometheist.Worker.Store.Leases.{
  Outcome, transaction, heartbeat_worker_claim, checkpoint_worker_claim, complete_worker_claim,
  release_worker_claim,
}
use prometheist.Worker.Store.Register.{register_worker_step}
use prometheist.Worker.Store.Claiming.{ClaimCall, guarded_claim_worker_step}
use prometheist.Worker.Store.Evolves.{Evolves, ClaimEvolves-refl, AreDistinct, Evolves-refl}
use prometheist.Worker.Store.Moves.{evolves, Moves, stays, one_move, StepsKept-refl}
use prometheist.Worker.Store.LeaseMoves.{
  Reached, heartbeat_body-Moves, checkpoint_body-Moves, complete_body-Moves, release_body-Moves,
}
use prometheist.Worker.Store.ClaimMoves.{claim_body-Moves}
use prometheist.Worker.Store.RegisterMoves.{register_body-Moves}

-- attention_store.py, _replace_resource_reservations: the leases of one scheduler that have run out are
-- closed before its reservations are replaced.
unfoldable pub expire_own_claims : String → ℕ → Rows WorkerClaim → Rows WorkerClaim
expire_own_claims key at [] = []
expire_own_claims key at ((k, c) ∷ rest) =
    let others = expire_own_claims key at rest in
    if k == key && is_active c && leb c.lease_expires_at at
    then (k, record c { status = abandoned }) ∷ others
    else (k, c) ∷ others

still_active : (a b c : Bool) → (a && b && c) ≡ true → b ≡ false → ⊥
still_active a true c h e = absurd (cc e)
still_active true false c h e = cc h
still_active false false c h e = cc h

expire_own_claims-Evolves :
    (key : String) (at : ℕ) (xs : Rows WorkerClaim) → Evolves xs (expire_own_claims key at xs)
unfolding expire_own_claims
expire_own_claims-Evolves key at [] = tt
expire_own_claims-Evolves key at ((k, c) ∷ xs) =
    elim (Bool-cases (k == key && is_active c && leb c.lease_expires_at at)) [
      | inl e ↦ rw e (
        (
          refl,
          refl,
          refl,
          refl,
          refl,
          (λ h. absurd (still_active (k == key) (is_active c) (leb c.lease_expires_at at) e h)),
          λ b. b,
        ),
        expire_own_claims-Evolves key at xs,
      )
      | inr e ↦ rw e (ClaimEvolves-refl (k, c), expire_own_claims-Evolves key at xs)
    ]

-- A call with its arguments, the readings of the clock among them. The scheduler's own tables are
-- given as it leaves them.
pub data Call : Type 0 where
  registers : ℕ → String → String → List String → WorkerEffectPolicy → Call
  claims_step : ClaimCall → Call
  heartbeats : ℕ → String → ℕ → ℕ → Call
  checkpoints_claim : ℕ → String → String → List String → ℕ → Call
  completes : ℕ → String → String → List String → ℕ → Call
  releases : ℕ → String → Call
  schedules : SchedulerTables → Call
  replaces_reservations : SchedulerTables → ℕ → Call

module _ ⦃u : Uuid⦄ (observation_json : ResourceObservationSnapshot → String)
    (claim_json : WorkerClaimResourceObservation → String) (default_policy : ResourceSafetyPolicy)
    (key : String) where
  -- The tables after a call, whether it returned or raised.
  unfoldable pub perform : Call → Store → Store
  unfolding register_worker_step guarded_claim_worker_step heartbeat_worker_claim
      checkpoint_worker_claim complete_worker_claim release_worker_claim
  perform (registers a k c refs policy) s = (register_worker_step key a k c refs policy s).1
  perform (claims_step call) s =
      (guarded_claim_worker_step observation_json claim_json default_policy key call s).1
  perform (heartbeats k w lease_seconds at) s =
      (heartbeat_worker_claim key k w lease_seconds at s).1
  perform (checkpoints_claim k w state refs at) s =
      (checkpoint_worker_claim key k w state refs at s).1
  perform (completes k w output refs at) s = (complete_worker_claim key k w output refs at s).1
  perform (releases k w) s = (release_worker_claim key k w s).1
  perform (schedules tables) s = record s { scheduler = tables }
  perform (replaces_reservations tables at) s = record s {
    scheduler = tables;
    claims = expire_own_claims key at s.claims;
  }

  transaction-Moves :
      {V : Type 0} (s : Store) (body : Result (Outcome V × Store))
      → OnOk (Reached key s) body
      → Moves key s (transaction body s).1
  transaction-Moves s (ok (o, t)) h = h
  transaction-Moves s (err e) h = stays

  lease_within :
      (lease_seconds : ℕ)
      → (ltb lease_seconds 1 || ltb max_worker_lease_seconds lease_seconds) ≡ false
      → lease_seconds ≤ max_worker_lease_seconds
  lease_within lease_seconds h = ground arith

  second_passes :
      (first second : Bool) (e f : Error) (o : Unit {0})
      → (raise_if first e >> raise_if second f) ≡ ok o
      → second ≡ false
  second_passes first second e f o h = ground arith

  pub perform-Moves :
      (call : Call) (s : Store) → AreDistinct s.claims → Moves key s (perform call s)
  unfolding perform register_worker_step guarded_claim_worker_step heartbeat_worker_claim
      checkpoint_worker_claim complete_worker_claim release_worker_claim
  perform-Moves (registers a k c refs policy) s d = transaction-Moves s _ (
      OnOk-bind (Reached key s) (raise_if (is_blank (strip k)) _ >> raise_if (is_blank (strip c)) _)
        _ λ checked fine. register_body-Moves key a (strip k) (strip c) refs policy s)
  perform-Moves (claims_step call) s d = transaction-Moves s _ (
      OnOk-bind (Reached key s)
        (raise_if (is_blank (strip call.worker_id)) _ >> validate_lease_seconds call.lease_seconds)
        _
        λ checked fine. claim_body-Moves observation_json claim_json default_policy key call s (
          lease_within call.lease_seconds (
            second_passes (is_blank (strip call.worker_id))
              (ltb call.lease_seconds 1 || ltb max_worker_lease_seconds call.lease_seconds) _ _
              checked fine)))
  perform-Moves (heartbeats k w lease_seconds at) s d = transaction-Moves s _ (
      OnOk-raise (Reached key s) (ltb lease_seconds 1 || ltb max_worker_lease_seconds lease_seconds)
        _ _
        λ within.
          heartbeat_body-Moves key k w lease_seconds at s d (lease_within lease_seconds within))
  perform-Moves (checkpoints_claim k w state refs at) s d =
      transaction-Moves s _ (checkpoint_body-Moves key k w state refs at s d)
  perform-Moves (completes k w output refs at) s d =
      transaction-Moves s _ (complete_body-Moves key k w output refs at s d)
  perform-Moves (releases k w) s d = transaction-Moves s _ (release_body-Moves key k w s d)
  perform-Moves (schedules tables) s d =
      one_move key (evolves (Evolves-refl s.claims) refl (StepsKept-refl key s))
  perform-Moves (replaces_reservations tables at) s d =
      one_move key (evolves (expire_own_claims-Evolves key at s.claims) refl (StepsKept-refl key s))
