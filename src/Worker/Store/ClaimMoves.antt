-- ===== src/Worker/Store/ClaimMoves.antt =====
-- A guarded claim, as moves.
use prometheist.Base.{
  ◌≤◌, ◌≡◌, refl, ap, sym, subst, false, not, none, some, [], ◌∷◌, ◌++◌, String, ok, ◌>>=◌, ◌>>◌,
  any, ◌==◌, ℕ_eq, String_eq, ℕ_ordered, String_ordered, arith, Bool-cases, inl, inr, >>=-eq-ok,
  OnOk, OnOk-bind, OnOk-raise, OnOk-if, OnOk_value, OnOk-imp, ok-injective,
}
use prometheist.Attention.Resources.{Uuid}
use prometheist.Attention.Observation.{ResourceSafetyPolicy, ResourceObservationSnapshot}
use prometheist.Worker.Protocol.{
  WorkerClaim, worker_claim, claim_envelope, claim_attempt, claim_resource_observation,
  WorkerClaimResourceObservation, WorkerClaimAttempt, is_granted, deterministic_worker_claim_id,
  assert_claim_fresh,
}
use prometheist.Worker.Store.Tables.{
  Rows, Store, find_row, claims_conflict, observations_conflict, insert_row,
}
use prometheist.Worker.Store.Load.{max_worker_lease_seconds, required}
use prometheist.Worker.Store.Writes.{insert_claim, insert_immutable_claim_observation}
use prometheist.Worker.Store.Claiming.{
  ClaimCall, Reading, decision_for, read_for_claim, make_claim_observation, next_attempt, lease_for,
  grant, deny, publish,
}
use prometheist.Worker.Store.Evolves.{Evolves-refl}
use prometheist.Worker.Store.Moves.{
  Move, evolves, grants, moves, one_move, StepsKept-refl, worker_claim_returns,
}
use prometheist.Worker.Store.LeaseMoves.{Reached}
use prometheist.Worker.Store.Admitted.{Admitted, no_reason, claims_admit, Admitted-observed}
use prometheist.Worker.Store.ReadForClaim.{IsRead, read_for_claim-IsRead}

module _ ⦃u : Uuid⦄ (observation_json : ResourceObservationSnapshot → String)
    (claim_json : WorkerClaimResourceObservation → String) (default_policy : ResourceSafetyPolicy)
    (key : String) where
  insert_claim-apart :
      (claim : WorkerClaim) (s t : Store)
      → insert_claim key claim s ≡ ok t
      → (any (claims_conflict (key, claim)) s.claims ≡ false)
        × (t ≡ record s { claims = s.claims ++ (key, claim) ∷ [] })
  unfolding insert_claim
  insert_claim-apart claim s t h = elim (Bool-cases (any (claims_conflict (key, claim)) s.claims)) [
    | inl e ↦ absurd (cc (rw e at h))
    | inr e ↦ (e, sym (ok-injective (rw e at h)))
  ]

  grant-Moves :
      (call : ClaimCall) (r : Reading) (o : WorkerClaimResourceObservation) (s : Store)
      → call.lease_seconds ≤ max_worker_lease_seconds
      → Admitted key call s r
      → OnOk (Reached key s) (grant observation_json claim_json default_policy key call r o s)
  unfolding grant
  grant-Moves call r o s within a =
      let P = Reached key {V = WorkerClaimAttempt} s in
      let attempt = next_attempt observation_json claim_json default_policy key r.step.step_id s in
      OnOk-bind P (deterministic_worker_claim_id r.step.step_id attempt) _ λ claim_id made.
        let lease =
          record (lease_for observation_json claim_json default_policy key call r o.observation_id
            attempt) { claim_id = claim_id } in
        OnOk-bind P (worker_claim lease) _ λ claim valid.
          OnOk-bind P (insert_claim key claim s) _ λ t inserted.
            OnOk-bind P
              (claim_envelope (record { step = r.step; claim = claim; checkpoint = r.checkpoint }))
              _
              λ envelope bound.
                OnOk-bind P (claim_attempt (record { observation = o; envelope = some envelope })) _
                  λ attempt_made decided.
                    let (apart, e) = insert_claim-apart claim s t inserted in
                    let same = worker_claim_returns key lease claim valid in
                    one_move key (
                      grants (record {
                        requested = call.step_id;
                        step = r.step;
                        loaded = a.loaded;
                        existing = a.existing;
                        has_existing = a.has_existing;
                        latest = a.latest;
                        has_latest = a.has_latest;
                        at = call.captured_at;
                        admitted =
                            claims_admit key a.state r.step a.latest a.existing call.captured_at
                              a.policy call.policy a.committed s a.structure_admits;
                        claim = claim;
                        same_step_id = same.2;
                        bounded = omega (arith, same.4, same.5, within);
                        apart = apart;
                        added = ap (λ (n : Store). n.claims) e;
                        same_results = ap (λ (n : Store). n.results) e;
                        same_steps = ap (λ (n : Store). n.steps) e;
                      }))

  -- An observation is stored without touching anything else.
  insert_observation_keeps :
      (o : WorkerClaimResourceObservation) (s : Store)
      → OnOk
          (λ t. (xs : Rows WorkerClaimResourceObservation) × (record s { observations = xs } ≡ t))
          (insert_immutable_claim_observation claim_json key o s)
  unfolding insert_immutable_claim_observation
  insert_observation_keeps o s =
      let P : Store → Type 0 =
        λ t. (xs : Rows WorkerClaimResourceObservation) × (record s { observations = xs } ≡ t) in
      let rows = insert_row observations_conflict (key, o) s.observations in
      OnOk-bind P (required _ (find_row key (λ n. n.observation_id == o.observation_id) rows)) _
        λ row there. OnOk-bind P (claim_resource_observation claim_json row) _ λ stored valid.
          OnOk-raise P (not (claim_json stored == claim_json o)) _ _ λ same. (rows, refl)

  -- Tables that differ in the observations are one move away from each other.
  observed-Move :
      (s : Store) (xs : Rows WorkerClaimResourceObservation)
      → Move key s (record s { observations = xs })
  observed-Move s xs = evolves (Evolves-refl s.claims) refl (StepsKept-refl key s)

  after_storing :
      (call : ClaimCall) (r : Reading) (o : WorkerClaimResourceObservation) (s t : Store)
      → insert_immutable_claim_observation claim_json key o s ≡ ok t
      → ((xs : Rows WorkerClaimResourceObservation)
          → OnOk (Reached key s) (
              grant observation_json claim_json default_policy key call r o
                (record s { observations = xs })))
      → OnOk (Reached key s) (grant observation_json claim_json default_policy key call r o t)
  after_storing call r o s t stored h =
      let (xs, e) = OnOk_value _ _ (insert_observation_keeps o s) stored in
      subst
        (λ n.
          OnOk (Reached key s) (grant observation_json claim_json default_policy key call r o n))
        e (h xs)

  publish-Moves :
      (call : ClaimCall) (s : Store) (r : Reading)
      → call.lease_seconds ≤ max_worker_lease_seconds
      → (r.reason ≡ none → Admitted key call s r)
      → OnOk (Reached key s) (publish observation_json claim_json default_policy key call (r, s))
  unfolding publish deny
  publish-Moves call s r within admitted =
      let P = Reached key {V = WorkerClaimAttempt} s in
      OnOk-bind P
        (make_claim_observation observation_json claim_json default_policy key r.step r.snapshot
          call.evaluated_at r.reason r.active_claim_ids)
        _
        λ o made.
          OnOk-if P (is_granted (decision_for r.reason)) _ _
            (λ granted.
              OnOk-bind P
                (assert_claim_fresh o call.evaluated_at
                  >> insert_immutable_claim_observation claim_json key o s)
                _
                λ t h.
                  let (_, _, stored) = >>=-eq-ok (assert_claim_fresh o call.evaluated_at) _ h in
                  after_storing call r o s t stored λ xs.
                    OnOk-imp (Reached key (record s { observations = xs })) P _
                      (λ p reached. moves (observed-Move s xs) reached)
                      (grant-Moves call r o _ within (
                        Admitted-observed key call s r xs (admitted (no_reason r.reason granted)))))
            (λ denied.
              OnOk-bind P (insert_immutable_claim_observation claim_json key o s) _ λ t stored.
                let (xs, e) = OnOk_value _ _ (insert_observation_keeps o s) stored in
                OnOk-bind P (claim_attempt (record { observation = o; envelope = none })) _
                  λ made_attempt decided. one_move key (subst (Move key s) e (observed-Move s xs)))

  pub claim_body-Moves :
      (call : ClaimCall) (s : Store)
      → call.lease_seconds ≤ max_worker_lease_seconds
      → OnOk (Reached key s) (
          read_for_claim observation_json claim_json default_policy key call s
          >>= publish observation_json claim_json default_policy key call)
  claim_body-Moves call s within =
      let P = Reached key {V = WorkerClaimAttempt} s in
      OnOk-bind P (read_for_claim observation_json claim_json default_policy key call s) _
        λ (r, m) done_reading.
          let (_, first, admitted) =
            OnOk_value (IsRead observation_json claim_json default_policy key call s) _
              (read_for_claim-IsRead observation_json claim_json default_policy key call s)
              done_reading in
          OnOk-imp (Reached key m) P _ (λ p reached. moves first reached)
            (publish-Moves call m r within admitted)
