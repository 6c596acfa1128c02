-- ===== src/Worker/Store/Attempts.antt =====
-- What the constructors of a claim's observation, envelope and attempt return.
use prometheist.Base.{
  ℕ, ◌≡◌, refl, not, ◌&&◌, ◌||◌, Option, List, String, leb, no_duplicates, strip, is_blank, ◌==◌,
  ℕ_eq, String_eq, OnOk, OnOk-bind, OnOk-raise,
}
use prometheist.Attention.Resources.{Uuid}
use prometheist.Attention.Observation.{
  ResourceSafetyPolicy, ResourceObservationSnapshot, is_some, bool_eq,
}
use prometheist.Worker.Protocol.{
  worker_claim_policy_version, deterministic_worker_claim_observation_id, WorkerStep,
  WorkerClaimAttempt, WorkerClaimResourceObservation, WorkerClaimEnvelope, check_checkpoint,
  check_attempt, claim_resource_observation, claim_envelope, claim_attempt, is_granted,
}
use prometheist.Worker.Store.Claiming.{reason_text, make_claim_observation, decision_for}

pub claim_envelope_returns : (e : WorkerClaimEnvelope) → OnOk (λ n. e ≡ n) (claim_envelope e)
unfolding claim_envelope
claim_envelope_returns e =
    let P : WorkerClaimEnvelope → Type 0 = λ n. e ≡ n in
    OnOk-raise P
      (not (e.claim.step_id == e.step.step_id)
        || not (e.claim.assignment_id == e.step.assignment_id)
        || not (e.claim.task_id == e.step.task_id))
      _ _ λ bound. OnOk-bind P (check_checkpoint e e.checkpoint) _ λ o checked. refl

pub claim_attempt_returns : (a : WorkerClaimAttempt) → OnOk (λ n. a ≡ n) (claim_attempt a)
unfolding claim_attempt
claim_attempt_returns a =
    let P : WorkerClaimAttempt → Type 0 = λ n. a ≡ n in
    OnOk-raise P (not (bool_eq (is_granted a.observation.decision) (is_some a.envelope))) _ _
      λ fits. OnOk-bind P (check_attempt a.observation a.envelope) _ λ o checked. refl

module _ ⦃u : Uuid⦄ (observation_json : ResourceObservationSnapshot → String)
    (claim_json : WorkerClaimResourceObservation → String) (default_policy : ResourceSafetyPolicy)
    (key : String) where
  snapshot_kept :
      (o : WorkerClaimResourceObservation)
      → OnOk
          (λ n. n.resource_snapshot ≡ o.resource_snapshot)
          (claim_resource_observation claim_json o)
  unfolding claim_resource_observation
  snapshot_kept o =
      let P : WorkerClaimResourceObservation → Type 0 =
        λ n. n.resource_snapshot ≡ o.resource_snapshot in
      OnOk-raise P (o.resource_safety_policy_version == "") _ _ λ a.
        OnOk-raise P (is_blank (strip o.reason)) _ _ λ b.
          OnOk-raise P (not (o.claim_policy_version == worker_claim_policy_version)) _ _ λ c.
            OnOk-raise P (leb o.valid_until o.captured_at) _ _ λ d.
              OnOk-raise P
                (not (o.resource_snapshot.captured_at == o.captured_at)
                  || not (o.resource_snapshot.valid_until == o.valid_until)
                  || not (
                      o.resource_snapshot.safety_policy_version
                      == o.resource_safety_policy_version))
                _ _
                λ e.
                  OnOk-raise P
                    (is_granted o.decision
                      && not (leb o.captured_at o.evaluated_at && leb o.evaluated_at o.valid_until))
                    _ _
                    λ f. OnOk-raise P (not (no_duplicates o.active_claim_ids)) _ _ λ g.
                      OnOk-raise P (not (no_duplicates o.target_reservation_ids)) _ _ λ h.
                        OnOk-raise P
                          (not (
                            o.observation_id
                            == deterministic_worker_claim_observation_id claim_json
                                (record o { reason = strip o.reason })))
                          _ _ λ i. refl

  pub made_snapshot :
      (step : WorkerStep) (snapshot : ResourceObservationSnapshot) (at : ℕ) (reason : Option String)
      (ids : List ℕ)
      → OnOk
          (λ n. n.resource_snapshot ≡ snapshot)
          (make_claim_observation observation_json claim_json default_policy key step snapshot at
            reason ids)
  unfolding make_claim_observation
  made_snapshot step snapshot at reason ids =
      let provisional : WorkerClaimResourceObservation = record {
        observation_id = 0;
        step_id = step.step_id;
        assignment_id = step.assignment_id;
        captured_at = snapshot.captured_at;
        evaluated_at = at;
        valid_until = snapshot.valid_until;
        claim_policy_version = worker_claim_policy_version;
        resource_safety_policy_version = snapshot.safety_policy_version;
        decision = decision_for reason;
        reason = reason_text reason;
        active_claim_ids = ids;
        target_reservation_ids = step.reservation_ids;
        resource_snapshot = snapshot;
      } in
      snapshot_kept (record provisional {
        observation_id = deterministic_worker_claim_observation_id claim_json provisional;
      })
