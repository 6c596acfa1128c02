-- ===== src/Worker/Store/HandedOut.antt =====
-- A lease that is handed out was authorized by the scheduler, by the claims and by the host.
use prometheist.Base.{
  ◌≡◌, refl, ap, sym, ◌∙◌, subst, none, some, String, Result, ok, err, ◌>>=◌, ◌>>◌, raise_if,
  value_error, strip, is_blank, ℕ_eq, String_eq, OnOk, OnOk-bind, OnOk-if, OnOk_value, ok-injective,
}
use prometheist.Attention.Resources.{Uuid}
use prometheist.Attention.Observation.{ResourceSafetyPolicy, ResourceObservationSnapshot}
use prometheist.Worker.Protocol.{
  WorkerClaimAttempt, WorkerClaimResourceObservation, WorkerClaimEnvelope, worker_claim,
  claim_envelope, claim_attempt, is_granted, deterministic_worker_claim_id, assert_claim_fresh,
}
use prometheist.Worker.Store.Tables.{Store}
use prometheist.Worker.Store.Load.{validate_lease_seconds}
use prometheist.Worker.Store.Leases.{Outcome, done, expired, transaction}
use prometheist.Worker.Store.Claiming.{
  ClaimCall, Reading, next_attempt, lease_for, grant, deny, publish, read_for_claim,
  make_claim_observation, decision_for, guarded_claim_worker_step,
}
use prometheist.Worker.Store.Moves.{worker_claim_returns}
use prometheist.Worker.Store.Writes.{insert_claim, insert_immutable_claim_observation}
use prometheist.Worker.Store.Admitted.{Admitted, no_reason}
use prometheist.Worker.Store.ReadForClaim.{IsRead, read_for_claim-IsRead}
use prometheist.Worker.Store.Attempts.{claim_envelope_returns, claim_attempt_returns, made_snapshot}
use prometheist.Worker.Store.Authorized.{swept, Authorized, authorizes}

module _ ⦃u : Uuid⦄ (observation_json : ResourceObservationSnapshot → String)
    (claim_json : WorkerClaimResourceObservation → String) (default_policy : ResourceSafetyPolicy)
    (key : String) where
  module _ (call : ClaimCall) (m : Store) where
    abbrev HandsOut : Outcome WorkerClaimAttempt × Store → Type 0
    HandsOut (done a, t) =
        (e : WorkerClaimEnvelope)
        → a.envelope ≡ some e
        → Authorized key call m a.observation.resource_snapshot e
    HandsOut (expired, t) = Unit

    hands_out :
        (a made : WorkerClaimAttempt) (given e : WorkerClaimEnvelope)
        → a ≡ made
        → a.envelope ≡ some given
        → made.envelope ≡ some e
        → Authorized key call m a.observation.resource_snapshot given
        → Authorized key call m made.observation.resource_snapshot e
    hands_out a made given e same had has authorized =
        let both = sym had ∙ ap (λ (n : WorkerClaimAttempt). n.envelope) same ∙ has in
        let envelope : given ≡ e = cc both in
        subst (λ n. Authorized key call m n.observation.resource_snapshot e) same
          (subst (Authorized key call m a.observation.resource_snapshot) envelope authorized)

    grant-HandsOut :
        (r : Reading) (o : WorkerClaimResourceObservation) (s : Store)
        → Admitted key call m r
        → o.resource_snapshot ≡ r.snapshot
        → OnOk HandsOut (grant observation_json claim_json default_policy key call r o s)
    unfolding grant
    grant-HandsOut r o s a same_snapshot =
        let attempt =
          next_attempt observation_json claim_json default_policy key r.step.step_id s in
        OnOk-bind HandsOut (deterministic_worker_claim_id r.step.step_id attempt) _ λ claim_id made.
          let lease =
            record (lease_for observation_json claim_json default_policy key call r o.observation_id
              attempt) { claim_id = claim_id } in
          OnOk-bind HandsOut (worker_claim lease) _ λ claim valid.
            OnOk-bind HandsOut (insert_claim key claim s) _ λ t inserted.
              let given : WorkerClaimEnvelope = record {
                step = r.step;
                claim = claim;
                checkpoint = r.checkpoint;
              } in
              OnOk-bind HandsOut (claim_envelope given) _ λ envelope bound.
                let put : WorkerClaimAttempt = record {
                  observation = o;
                  envelope = some envelope;
                } in
                OnOk-bind HandsOut (claim_attempt put) _ λ attempt_made decided e has.
                  hands_out put attempt_made envelope e
                    (OnOk_value _ _ (claim_attempt_returns put) decided) refl has
                    (subst (Authorized key call m o.resource_snapshot)
                      (OnOk_value _ _ (claim_envelope_returns given) bound)
                      (subst (λ n. Authorized key call m n given) (sym same_snapshot)
                        (authorizes key call m r claim a
                          (worker_claim_returns key lease claim valid).4)))

    deny-HandsOut :
        (o : WorkerClaimResourceObservation) (s : Store)
        → OnOk HandsOut (deny observation_json claim_json default_policy key o s)
    unfolding deny
    deny-HandsOut o s =
        let put : WorkerClaimAttempt = record { observation = o; envelope = none } in
        OnOk-bind HandsOut (claim_attempt put) _ λ made decided e has.
          let same = OnOk_value _ _ (claim_attempt_returns put) decided in
          absurd (cc (ap (λ (n : WorkerClaimAttempt). n.envelope) same ∙ has))

    publish-HandsOut :
        (r : Reading)
        → (r.reason ≡ none → Admitted key call m r)
        → OnOk HandsOut (publish observation_json claim_json default_policy key call (r, m))
    unfolding publish
    publish-HandsOut r admitted =
        OnOk-bind HandsOut
          (make_claim_observation observation_json claim_json default_policy key r.step r.snapshot
            call.evaluated_at r.reason r.active_claim_ids)
          _
          λ o made.
            OnOk-if HandsOut (is_granted (decision_for r.reason)) _ _
              (λ granted.
                OnOk-bind HandsOut
                  (assert_claim_fresh o call.evaluated_at
                    >> insert_immutable_claim_observation claim_json key o m)
                  _
                  λ t stored. grant-HandsOut r o t (admitted (no_reason r.reason granted)) (
                    OnOk_value _ _
                      (made_snapshot observation_json claim_json default_policy key r.step
                        r.snapshot call.evaluated_at r.reason r.active_claim_ids)
                      made))
              (λ denied.
                OnOk-bind HandsOut (insert_immutable_claim_observation claim_json key o m) _
                  λ t stored. deny-HandsOut o t)

  claim_body-HandsOut :
      (call : ClaimCall) (s : Store)
      → OnOk (HandsOut call (swept call s)) (
          read_for_claim observation_json claim_json default_policy key call s
          >>= publish observation_json claim_json default_policy key call)
  claim_body-HandsOut call s =
      OnOk-bind (HandsOut call (swept call s))
        (read_for_claim observation_json claim_json default_policy key call s) _
        λ (r, m) done_reading.
          let (same, _, admitted) =
            OnOk_value (IsRead observation_json claim_json default_policy key call s) _
              (read_for_claim-IsRead observation_json claim_json default_policy key call s)
              done_reading in
          subst
            (λ n.
              OnOk (HandsOut call n)
                (publish observation_json claim_json default_policy key call (r, m)))
            same (publish-HandsOut call m r admitted)

  handed_out :
      (call : ClaimCall) (m s : Store) (body : Result (Outcome WorkerClaimAttempt × Store))
      (a : WorkerClaimAttempt) (e : WorkerClaimEnvelope)
      → OnOk (HandsOut call m) body
      → (transaction body s).0 ≡ ok a
      → a.envelope ≡ some e
      → Authorized key call m a.observation.resource_snapshot e
  handed_out call m s (ok (done b, t)) a e h returned has =
      let same : b ≡ a = ok-injective returned in
      subst (λ (n : WorkerClaimAttempt). Authorized key call m n.observation.resource_snapshot e)
        same (h e (ap (λ (n : WorkerClaimAttempt). n.envelope) same ∙ has))
  handed_out call m s (ok (expired, t)) a e h returned has = absurd (cc returned)
  handed_out call m s (err error) a e h returned has = absurd (cc returned)

  -- A lease that `guarded_claim_worker_step` returns rests on the tables as they are when leases
  -- that have run out are closed: the scheduler requires host resource safety, the step is
  -- registered, its assignment stands in the current epoch and its task has the revision of the
  -- step, the step has no result, no live claim is on its assignment, and the snapshot of the
  -- attempt is healthy and shows for each of its reservations a pool with room for the units; the
  -- second reading of the clock falls inside the lifetime of that snapshot, and the lease ends as
  -- many seconds after it as was asked for.
  pub guarded_claim_worker_step-Authorized :
      (call : ClaimCall) (s : Store) (a : WorkerClaimAttempt) (e : WorkerClaimEnvelope)
      → (guarded_claim_worker_step observation_json claim_json default_policy key call s).0 ≡ ok a
      → a.envelope ≡ some e
      → Authorized key call (swept call s) a.observation.resource_snapshot e
  unfolding guarded_claim_worker_step
  guarded_claim_worker_step-Authorized call s a e returned has =
      let P = HandsOut call (swept call s) in
      let checks =
        raise_if (is_blank (strip call.worker_id)) (value_error "worker_id must not be empty")
        >> validate_lease_seconds call.lease_seconds in
      handed_out call (swept call s) s _ a e
        (OnOk-bind P checks _ λ checked fine. claim_body-HandsOut call s) returned has
