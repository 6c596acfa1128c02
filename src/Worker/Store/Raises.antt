-- ===== src/Worker/Store/Raises.antt =====
-- What a call leaves of the tables where it raises.
use prometheist.Base.{
  ℕ, ap, ◌≡◌, refl, sym, Option, none, some, String, Error, Result, ok, err, worker_protocol_error,
  ◌>>=◌, ◌>>◌, raise_if, strip, is_blank, ℕ_eq, String_eq, inl, inr, String_ordered, ℕ_ordered,
  OnOk, OnOk-bind, OnOk-if,
}
use prometheist.Attention.Resources.{Uuid}
use prometheist.Attention.Observation.{ResourceSafetyPolicy, ResourceObservationSnapshot}
use prometheist.Worker.Protocol.{
  WorkerClaim, WorkerClaimAttempt, WorkerClaimResourceObservation, is_granted, assert_claim_fresh,
  worker_claim, claim_envelope, claim_attempt, deterministic_worker_claim_id,
}
use prometheist.Worker.Store.Tables.{Store}
use prometheist.Worker.Store.Load.{validate_lease_seconds}
use prometheist.Worker.Store.Writes.{insert_immutable_claim_observation, insert_claim}
use prometheist.Worker.Store.Register.{register_worker_step}
use prometheist.Worker.Store.Leases.{
  Outcome, done, expired, transaction, heartbeat_worker_claim, checkpoint_worker_claim,
  complete_worker_claim, release_worker_claim,
}
use prometheist.Worker.Store.Claiming.{
  ClaimCall, Reading, decision_for, next_attempt, lease_for, make_claim_observation, read_for_claim,
  grant, deny, publish, guarded_claim_worker_step,
}
use prometheist.Worker.Store.Calls.{
  Call, registers, claims_step, heartbeats, checkpoints_claim, completes, releases, schedules,
  replaces_reservations, perform,
}
use prometheist.Base.{◌⊎◌}
use prometheist.Worker.Store.Closings.{
  Leaves, Never, RanOut, heartbeat_body-Leaves, checkpoint_body-Leaves, complete_body-Leaves,
  release_body-Leaves, register_body-Leaves,
}

-- What a call raised, if anything.
abbrev error_of : {V : Type 0} → Result V → Option Error
error_of (ok v) = none
error_of (err e) = some e

abbrev pub LeaseExpired : Error → Type 0
LeaseExpired e = e ≡ worker_protocol_error "worker claim lease has expired"

module _ ⦃u : Uuid⦄ (observation_json : ResourceObservationSnapshot → String)
    (claim_json : WorkerClaimResourceObservation → String) (default_policy : ResourceSafetyPolicy)
    (key : String) where
  grant-Leaves :
      (call : ClaimCall) (r : Reading) (o : WorkerClaimResourceObservation) (s : Store)
      → OnOk (Leaves Never) (grant observation_json claim_json default_policy key call r o s)
  unfolding grant
  grant-Leaves call r o s =
      let P = Leaves {V = WorkerClaimAttempt} Never in
      let attempt = next_attempt observation_json claim_json default_policy key r.step.step_id s in
      OnOk-bind P (deterministic_worker_claim_id r.step.step_id attempt) _ λ claim_id made.
        let lease =
          record (lease_for observation_json claim_json default_policy key call r o.observation_id
            attempt) { claim_id = claim_id } in
        OnOk-bind P (worker_claim lease) _ λ claim valid.
          OnOk-bind P (insert_claim key claim s) _ λ t inserted.
            OnOk-bind P
              (claim_envelope (record { step = r.step; claim = claim; checkpoint = r.checkpoint }))
              _
              λ envelope bound.
                OnOk-bind P (claim_attempt (record { observation = o; envelope = some envelope })) _
                  λ attempt_made decided. tt

  publish-Leaves :
      (call : ClaimCall) (r : Reading) (s : Store)
      → OnOk (Leaves Never) (publish observation_json claim_json default_policy key call (r, s))
  unfolding publish deny
  publish-Leaves call r s =
      let P = Leaves {V = WorkerClaimAttempt} Never in
      OnOk-bind P
        (make_claim_observation observation_json claim_json default_policy key r.step r.snapshot
          call.evaluated_at r.reason r.active_claim_ids)
        _
        λ o made.
          OnOk-if P (is_granted (decision_for r.reason)) _ _
            (λ granted.
              OnOk-bind P
                (assert_claim_fresh o call.evaluated_at
                  >> insert_immutable_claim_observation claim_json key o s)
                _ λ t stored. grant-Leaves call r o t)
            (λ denied.
              OnOk-bind P (insert_immutable_claim_observation claim_json key o s) _ λ t stored.
                OnOk-bind P (claim_attempt (record { observation = o; envelope = none })) _
                  λ made_attempt decided. tt)

  claim_body-Leaves :
      (call : ClaimCall) (s : Store)
      → OnOk (Leaves Never) (
          read_for_claim observation_json claim_json default_policy key call s
          >>= publish observation_json claim_json default_policy key call)
  claim_body-Leaves call s =
      OnOk-bind (Leaves Never)
        (read_for_claim observation_json claim_json default_policy key call s) _
        λ (r, m) read. publish-Leaves call r m

  -- What the call raised, if anything.
  unfoldable pub raised : Call → Store → Option Error
  unfolding register_worker_step guarded_claim_worker_step heartbeat_worker_claim
      checkpoint_worker_claim complete_worker_claim release_worker_claim
  raised (registers a k c refs policy) s = error_of (register_worker_step key a k c refs policy s).0
  raised (claims_step call) s =
      error_of (guarded_claim_worker_step observation_json claim_json default_policy key call s).0
  raised (heartbeats k w lease_seconds at) s =
      error_of (heartbeat_worker_claim key k w lease_seconds at s).0
  raised (checkpoints_claim k w state refs at) s =
      error_of (checkpoint_worker_claim key k w state refs at s).0
  raised (completes k w output refs at) s =
      error_of (complete_worker_claim key k w output refs at s).0
  raised (releases k w) s = error_of (release_worker_claim key k w s).0
  raised (schedules tables) s = none
  raised (replaces_reservations tables at) s = none

  -- The calls that may commit and then raise, with what they commit.
  abbrev pub Closes : Call → Store → Store → Type 0
  Closes (heartbeats k w lease_seconds at) s = RanOut key k at s
  Closes (checkpoints_claim k w state refs at) s = RanOut key k at s
  Closes (completes k w output refs at) s = RanOut key k at s
  Closes (registers a k c refs policy) s = Never
  Closes (claims_step call) s = Never
  Closes (releases k w) s = Never
  Closes (schedules tables) s = Never
  Closes (replaces_reservations tables at) s = Never

  left_by :
      {V : Type 0} (Committed : Store → Type 0) (body : Result (Outcome V × Store)) (s : Store)
      (e : Error)
      → OnOk (Leaves Committed) body
      → error_of (transaction body s).0 ≡ some e
      → ((transaction body s).1 ≡ s) ⊎ (LeaseExpired e × Committed (transaction body s).1)
  left_by Committed (ok (done v, t)) s e h raises = absurd (cc raises)
  left_by Committed (ok (expired, t)) s e h raises = inr (cc (sym raises), h)
  left_by Committed (err error) s e h raises = inl refl

  -- A call on the store that raises leaves the tables as they were; only a heartbeat, a checkpoint
  -- or a completion whose active claim has reached the end of its lease raises the error of an
  -- expired lease and commits one change, the claim marked as abandoned.
  pub perform-raised :
      (call : Call) (s : Store) (e : Error)
      → raised call s ≡ some e
      → (perform observation_json claim_json default_policy key call s ≡ s)
        ⊎ (LeaseExpired e
            × Closes call s (perform observation_json claim_json default_policy key call s))
  unfolding raised perform register_worker_step guarded_claim_worker_step heartbeat_worker_claim
      checkpoint_worker_claim complete_worker_claim release_worker_claim
  perform-raised (registers a k c refs policy) s e h =
      left_by Never _ s e
        (OnOk-bind (Leaves Never)
          (raise_if (is_blank (strip k)) _ >> raise_if (is_blank (strip c)) _) _
          λ checked fine. register_body-Leaves key a (strip k) (strip c) refs policy s)
        h
  perform-raised (claims_step call) s e h =
      left_by Never _ s e
        (OnOk-bind (Leaves Never)
          (raise_if (is_blank (strip call.worker_id)) _
            >> validate_lease_seconds call.lease_seconds)
          _ λ checked fine. claim_body-Leaves call s)
        h
  perform-raised (heartbeats k w lease_seconds at) s e h =
      left_by (RanOut key k at s) _ s e
        (OnOk-bind (Leaves (RanOut key k at s)) (validate_lease_seconds lease_seconds) _
          λ checked fine. heartbeat_body-Leaves key k w lease_seconds at s)
        h
  perform-raised (checkpoints_claim k w state refs at) s e h =
      left_by (RanOut key k at s) _ s e (checkpoint_body-Leaves key k w state refs at s) h
  perform-raised (completes k w output refs at) s e h =
      left_by (RanOut key k at s) _ s e (complete_body-Leaves key k w output refs at s) h
  perform-raised (releases k w) s e h = left_by Never _ s e (release_body-Leaves key k w s) h
  perform-raised (schedules tables) s e h = absurd (cc h)
  perform-raised (replaces_reservations tables at) s e h = absurd (cc h)

  -- A release that raises leaves the tables as they were.
  pub release_raised :
      (claim_id : ℕ) (worker_id : String) (s : Store) (e : Error)
      → (release_worker_claim key claim_id worker_id s).0 ≡ err e
      → (release_worker_claim key claim_id worker_id s).1 ≡ s
  unfolding raised perform
  release_raised claim_id worker_id s e h =
      elim (perform-raised (releases claim_id worker_id) s e
        (ap (λ (r : Result WorkerClaim). error_of r) h)) [
          | inl same ↦ same
          | inr (over, never) ↦ absurd never
        ]
