-- ===== src/Worker/Store/Writes.antt =====
-- worker_store.py: the statements that write, each with the test that follows it.
use prometheist.Base.{
  ℕ, Bool, not, ◌&&◌, List, [], ◌∷◌, ◌++◌, String, Result, ok, worker_protocol_error, type_error,
  integrity_error, ◌>>=◌, ◌>>◌, raise_if, nat_eq, any, ◌==◌, ℕ_eq, String_eq,
}
use prometheist.Attention.Resources.{Uuid}
use prometheist.Attention.Assignments.{list_eq}
use prometheist.Worker.Protocol.{
  WorkerEffectPolicy, no_external_effect, idempotent_with_key, at_most_once, WorkerStep,
  WorkerClaim, WorkerClaimStatus, WorkerCheckpoint, WorkerResult, WorkerClaimResourceObservation,
  worker_checkpoint, claim_resource_observation,
}
use prometheist.Worker.Store.Tables.{
  Store, find_row, update_rows, count_rows, insert_row, claims_conflict, steps_conflict,
  observations_conflict, checkpoints_conflict, results_conflict,
}
use prometheist.Worker.Store.Load.{required, load_step, load_result_row}

abbrev pub texts_eq : List String → List String → Bool
texts_eq = list_eq (λ v w. v == w)

abbrev policy_rank : WorkerEffectPolicy → ℕ
policy_rank no_external_effect = 0
policy_rank idempotent_with_key = 1
policy_rank at_most_once = 2

-- Whether two records dump to one JSON value.
unfoldable pub same_step : WorkerStep → WorkerStep → Bool
unfolding list_eq
same_step s t =
    s.protocol_version == t.protocol_version
    && s.step_id == t.step_id
    && s.assignment_id == t.assignment_id
    && s.task_id == t.task_id
    && s.task_revision == t.task_revision
    && s.created_epoch_sequence == t.created_epoch_sequence
    && s.step_key == t.step_key
    && s.capability == t.capability
    && list_eq (λ j k. j == k) s.reservation_ids t.reservation_ids
    && texts_eq s.input_refs t.input_refs
    && s.idempotency_key == t.idempotency_key
    && nat_eq (policy_rank s.effect_policy) (policy_rank t.effect_policy)

unfoldable pub same_checkpoint : WorkerCheckpoint → WorkerCheckpoint → Bool
unfolding list_eq
same_checkpoint c d =
    c.checkpoint_id == d.checkpoint_id
    && c.step_id == d.step_id
    && c.claim_id == d.claim_id
    && c.revision == d.revision
    && c.state == d.state
    && texts_eq c.output_refs d.output_refs
    && c.created_at == d.created_at

unfoldable pub same_result : WorkerResult → WorkerResult → Bool
unfolding list_eq
same_result r s =
    r.result_id == s.result_id
    && r.step_id == s.step_id
    && r.claim_id == s.claim_id
    && r.checkpoint_revision == s.checkpoint_revision
    && r.idempotency_key == s.idempotency_key
    && r.output == s.output
    && texts_eq r.output_refs s.output_refs
    && r.completed_at == s.completed_at

-- _set_claim_status
unfoldable pub set_claim_status : String → ℕ → WorkerClaimStatus → Store → Result Store
unfolding update_rows count_rows
set_claim_status key claim_id status s = do
  let chosen = λ (c : WorkerClaim). c.claim_id == claim_id
  raise_if (not (nat_eq (count_rows key chosen s.claims) 1))
      (worker_protocol_error "worker claim status update affected no row")
  ok (record s { claims = update_rows key chosen (λ c. record c { status = status }) s.claims })

-- _insert_claim, under the unique constraints
unfoldable pub insert_claim : String → WorkerClaim → Store → Result Store
insert_claim key claim s = do
  raise_if (any (claims_conflict (key, claim)) s.claims) integrity_error
  ok (record s { claims = s.claims ++ (key, claim) ∷ [] })

module _ ⦃u : Uuid⦄ (key : String) where
  -- _insert_immutable_step
  unfoldable pub insert_immutable_step : WorkerStep → Store → Result Store
  unfolding insert_row load_step same_step
  insert_immutable_step step s = do
    let next = record s { steps = insert_row steps_conflict (key, step) s.steps }
    stored ← load_step key step.step_id next
    raise_if (not (same_step stored step))
        (worker_protocol_error "conflicting immutable worker step")
    ok next

  -- _insert_immutable_checkpoint. A row that is not there is None, which the conversion refuses.
  unfoldable pub insert_immutable_checkpoint : WorkerCheckpoint → Store → Result Store
  unfolding insert_row find_row worker_checkpoint same_checkpoint
  insert_immutable_checkpoint checkpoint s = do
    let next = record s {
      checkpoints = insert_row checkpoints_conflict (key, checkpoint) s.checkpoints;
    }
    row ←
        required type_error
          (find_row key (λ c. c.checkpoint_id == checkpoint.checkpoint_id) next.checkpoints)
    stored ← worker_checkpoint row
    raise_if (not (same_checkpoint stored checkpoint))
        (worker_protocol_error "conflicting immutable worker checkpoint")
    ok next

  -- _insert_immutable_result
  unfoldable pub insert_immutable_result : WorkerResult → Store → Result Store
  unfolding insert_row load_result_row same_result
  insert_immutable_result result s = do
    let next = record s { results = insert_row results_conflict (key, result) s.results }
    found ← load_result_row key result.step_id next
    stored ← required (worker_protocol_error "conflicting immutable worker result") found
    raise_if (not (same_result stored result))
        (worker_protocol_error "conflicting immutable worker result")
    ok next

module _ ⦃u : Uuid⦄ (claim_json : WorkerClaimResourceObservation → String) (key : String) where
  -- _insert_immutable_claim_observation
  unfoldable pub insert_immutable_claim_observation :
      WorkerClaimResourceObservation → Store → Result Store
  unfolding insert_row find_row claim_resource_observation
  insert_immutable_claim_observation observation s = do
    let next = record s {
      observations = insert_row observations_conflict (key, observation) s.observations;
    }
    row ←
        required (worker_protocol_error "claim observation insert produced no row")
          (find_row key (λ o. o.observation_id == observation.observation_id) next.observations)
    stored ← claim_resource_observation claim_json row
    raise_if (not (claim_json stored == claim_json observation))
        (worker_protocol_error "conflicting immutable claim observation")
    ok next
