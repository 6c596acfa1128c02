-- ===== src/Worker/Store/ReadForClaim.antt =====
-- What the first part of a guarded claim does, up to its decision.
use prometheist.Base.{
  ℕ, max, ◌≡◌, refl, ap, ◌∙◌, Option, none, some, List, String, Result, ok, sorted_by, ℕ_eq,
  String_eq, ℕ_ordered, String_ordered, ◌+++◌, >>=-eq-ok, OnOk, OnOk-bind, ok-injective,
}
use prometheist.Attention.Resources.{Uuid, execution_resource, ResourceReservation}
use prometheist.Attention.Observation.{
  ResourceSafetyPolicy, ResourceObservationSnapshot, build_resource_observation,
}
use prometheist.Worker.Protocol.{WorkerStep, WorkerClaim, WorkerClaimResourceObservation}
use prometheist.Worker.Store.Tables.{Rows, Store}
use prometheist.Worker.Store.Load.{
  convert_all, lock_scheduler_state, load_step, load_latest_claim, load_latest_checkpoint,
  load_result_row, load_current_resource_observation, load_active_claim_rows,
  load_claim_reservations, load_target_reservations,
}
use prometheist.Worker.Store.Denials.{structural_claim_denial, resource_claim_denial}
use prometheist.Worker.Store.Claiming.{
  ClaimCall, Reading, expire_claims, metrics_of, errors_of, policy_for, reservation_denial,
  read_for_claim,
}
use prometheist.Worker.Store.Evolves.{expire_claims-Evolves}
use prometheist.Worker.Store.Moves.{Move, evolves, StepsKept-refl}
use prometheist.Worker.Store.Admitted.{Admitted, clock_admits}

pub load_step-claims :
    ⦃u : Uuid⦄ (key : String) (k : ℕ) (s : Store) (xs : Rows WorkerClaim)
    → load_step key k (record s { claims = xs }) ≡ load_step key k s
unfolding load_step
load_step-claims key k s xs = refl

module _ ⦃u : Uuid⦄ (observation_json : ResourceObservationSnapshot → String)
    (claim_json : WorkerClaimResourceObservation → String) (default_policy : ResourceSafetyPolicy)
    (key : String) where
  abbrev denial_after :
      Option String → WorkerStep → ResourceObservationSnapshot → Store → Result (Option String)
  denial_after = reservation_denial observation_json claim_json default_policy key

  reservation_admits :
      (before : Option String) (step : WorkerStep) (snapshot : ResourceObservationSnapshot)
      (m : Store)
      → denial_after before step snapshot m ≡ ok none
      → (before ≡ none)
        × (target : List ResourceReservation) × (load_target_reservations key step m ≡ ok target)
        × (resource_claim_denial snapshot target ≡ none)
  unfolding reservation_denial
  reservation_admits (some reason) step snapshot m h = absurd (cc h)
  reservation_admits none step snapshot m h =
      let (target, loaded, rest) = >>=-eq-ok (load_target_reservations key step m) _ h in
      (refl, target, loaded, ok-injective rest)

  -- The tables whose expired claims are closed, with what was read of them.
  abbrev pub IsRead : ClaimCall → Store → Reading × Store → Type 0
  IsRead call s (r, m) =
      (m ≡ record s { claims = expire_claims call.captured_at s.claims })
      × Move key s m
      × (r.reason ≡ none → Admitted key call m r)

  pub read_for_claim-IsRead :
      (call : ClaimCall) (s : Store)
      → OnOk (IsRead call s) (read_for_claim observation_json claim_json default_policy key call s)
  unfolding read_for_claim
  read_for_claim-IsRead call s =
      let P = IsRead call s in
      let m = record s { claims = expire_claims call.captured_at s.claims } in
      let expiry : Move key s m =
        evolves (expire_claims-Evolves call.captured_at s.claims) refl (StepsKept-refl key s) in
      OnOk-bind P (lock_scheduler_state key s) _ λ state locked.
        OnOk-bind P
          (load_current_resource_observation observation_json key
            state.current_resource_observation_id s)
          _
          λ committed observed. OnOk-bind P (load_step key call.step_id s) _ λ step loaded.
            OnOk-bind P
              (convert_all execution_resource
                (sorted_by (λ r. r.resource_id) s.scheduler.resources))
              _
              λ resources converted_ok.
                OnOk-bind P (load_latest_checkpoint key step.step_id m) _
                  λ checkpoint has_checkpoint.
                    OnOk-bind P (load_result_row key step.step_id m) _ λ existing has_existing.
                      OnOk-bind P (load_latest_claim key step.step_id m) _ λ latest has_latest.
                        OnOk-bind P
                          (load_claim_reservations (load_active_claim_rows call.captured_at m) m) _
                          λ reservations held.
                            OnOk-bind P
                              (build_resource_observation observation_json (max 1 state.cycle)
                                call.captured_at resources reservations
                                (policy_for committed call.policy default_policy)
                                (metrics_of call.probe) (errors_of call.probe)
                                ("worker-claim:" +++ key))
                              _
                              λ snapshot built.
                                OnOk-bind P
                                  (denial_after
                                    (structural_claim_denial key state step latest existing
                                      call.captured_at
                                      (policy_for committed call.policy default_policy) call.policy
                                      committed m)
                                    step snapshot m)
                                  _
                                  λ reason decided. (
                                    refl,
                                    expiry,
                                    λ unopposed.
                                        let (after, early, late) =
                                          clock_admits snapshot call.evaluated_at reason
                                            unopposed in
                                        let (before, target, has_target, enough) =
                                          reservation_admits _ step snapshot m
                                            (decided ∙ ap (λ (o : Option String). ok o) after) in
                                        record {
                                          state = state;
                                          policy = policy_for committed call.policy default_policy;
                                          committed = committed;
                                          existing = existing;
                                          latest = latest;
                                          target = target;
                                          locked = locked;
                                          loaded =
                                              load_step-claims key call.step_id s m.claims ∙ loaded;
                                          has_existing = has_existing;
                                          has_latest = has_latest;
                                          structure_admits = before;
                                          has_target = has_target;
                                          resources_admit = enough;
                                          not_early = early;
                                          not_late = late;
                                        },
                                  )
