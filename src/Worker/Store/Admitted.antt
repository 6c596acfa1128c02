-- ===== src/Worker/Store/Admitted.antt =====
-- What a claim has been tested for where no reason to deny it was left.
use prometheist.Base.{
  ℕ, ◌≤◌, ◌≡◌, refl, ◌∙◌, true, Option, none, some, List, String, ok, ℕ_eq, String_eq, ℕ_ordered,
  String_ordered, arith,
}
use prometheist.Attention.Resources.{Uuid, ResourceReservation}
use prometheist.Attention.Observation.{ResourceSafetyPolicy, ResourceObservationSnapshot}
use prometheist.Worker.Protocol.{
  WorkerStep, WorkerClaim, WorkerResult, WorkerClaimResourceObservation, is_granted,
}
use prometheist.Worker.Store.Tables.{SchedulerRow, Rows, Store}
use prometheist.Worker.Store.Load.{
  lock_scheduler_state, load_step, load_latest_claim, load_result_row, load_target_reservations,
}
use prometheist.Worker.Store.Denials.{
  structural_claim_denial, claim_denial, or_else, observation_denial, epoch_denial, binding_denial,
  resource_claim_denial,
}
use prometheist.Worker.Store.Claiming.{ClaimCall, Reading, clock_denial, decision_for}

-- What was read and decided where no reason to deny was left.
pub record Admitted ⦃u : Uuid⦄ (key : String) (call : ClaimCall) (m : Store) (r : Reading)
    : Type 0 where
  pub state : SchedulerRow
  pub policy : ResourceSafetyPolicy
  pub committed : Option ResourceObservationSnapshot
  pub existing : Option WorkerResult
  pub latest : Option WorkerClaim
  pub target : List ResourceReservation
  pub locked : lock_scheduler_state key m ≡ ok state
  pub loaded : load_step key call.step_id m ≡ ok r.step
  pub has_existing : load_result_row key r.step.step_id m ≡ ok existing
  pub has_latest : load_latest_claim key r.step.step_id m ≡ ok latest
  pub structure_admits :
      structural_claim_denial key state r.step latest existing call.captured_at policy call.policy
        committed m
      ≡ none
  pub has_target : load_target_reservations key r.step m ≡ ok target
  pub resources_admit : resource_claim_denial r.snapshot target ≡ none
  pub not_early : r.snapshot.captured_at ≤ call.evaluated_at
  pub not_late : call.evaluated_at ≤ r.snapshot.valid_until

pub clock_admits :
    (snapshot : ResourceObservationSnapshot) (at : ℕ) (reason : Option String)
    → clock_denial snapshot at reason ≡ none
    → (reason ≡ none) × (snapshot.captured_at ≤ at) × (at ≤ snapshot.valid_until)
clock_admits snapshot at reason h = ground arith

pub no_reason : (reason : Option String) → is_granted (decision_for reason) ≡ true → reason ≡ none
no_reason none h = refl
no_reason (some text) h = absurd (cc h)

pub or_else-none : (first later : Option String) → or_else first later ≡ none → later ≡ none
or_else-none none later h = h
or_else-none (some reason) later h = absurd (cc h)

pub claims_admit :
    (key : String) (state : SchedulerRow) (step : WorkerStep) (latest : Option WorkerClaim)
    (existing : Option WorkerResult) (at : ℕ) (policy : ResourceSafetyPolicy)
    (expected : Option ResourceSafetyPolicy) (committed : Option ResourceObservationSnapshot)
    (s : Store)
    → structural_claim_denial key state step latest existing at policy expected committed s ≡ none
    → claim_denial key step latest existing at s ≡ none
unfolding structural_claim_denial
claims_admit key state step latest existing at policy expected committed s h = ground (
  arith,
  h,
  or_else-none (observation_denial key state step expected committed s)
      (claim_denial key step latest existing at s),
)

module _ (key : String) (step : WorkerStep) (m : Store)
    (xs : Rows WorkerClaimResourceObservation) where
  -- The tests look at no stored observation of a claim.
  abbrev with_observations : Store
  with_observations = record m { observations = xs }

  epoch_denial_observed :
      (epoch_id : Option ℕ) (c : ResourceObservationSnapshot)
      → epoch_denial key epoch_id step c with_observations ≡ epoch_denial key epoch_id step c m
  unfolding epoch_denial binding_denial
  epoch_denial_observed none c = refl
  epoch_denial_observed (some k) c = refl

  observation_denial_observed :
      (state : SchedulerRow) (expected : Option ResourceSafetyPolicy)
      (committed : Option ResourceObservationSnapshot)
      → observation_denial key state step expected committed with_observations
        ≡ observation_denial key state step expected committed m
  unfolding observation_denial
  observation_denial_observed state expected none = refl
  observation_denial_observed state expected (some c) =
      rw (epoch_denial_observed state.current_epoch_id c) refl

  structural_claim_denial_observed :
      (state : SchedulerRow) (latest : Option WorkerClaim) (existing : Option WorkerResult) (at : ℕ)
      (policy : ResourceSafetyPolicy) (expected : Option ResourceSafetyPolicy)
      (committed : Option ResourceObservationSnapshot)
      → structural_claim_denial key state step latest existing at policy expected committed
          with_observations
        ≡ structural_claim_denial key state step latest existing at policy expected committed m
  unfolding structural_claim_denial claim_denial
  structural_claim_denial_observed state latest existing at policy expected committed =
      rw (observation_denial_observed state expected committed) refl

pub Admitted-observed :
    ⦃u : Uuid⦄ (key : String) (call : ClaimCall) (m : Store) (r : Reading)
    (xs : Rows WorkerClaimResourceObservation)
    → Admitted key call m r
    → Admitted key call (record m { observations = xs }) r
unfolding load_step load_result_row load_latest_claim load_target_reservations
Admitted-observed key call m r xs a = record {
  state = a.state;
  policy = a.policy;
  committed = a.committed;
  existing = a.existing;
  latest = a.latest;
  target = a.target;
  locked = a.locked;
  loaded = a.loaded;
  has_existing = a.has_existing;
  has_latest = a.has_latest;
  structure_admits =
      structural_claim_denial_observed key r.step m xs a.state a.latest a.existing call.captured_at
        a.policy call.policy a.committed
      ∙ a.structure_admits;
  has_target = a.has_target;
  resources_admit = a.resources_admit;
  not_early = a.not_early;
  not_late = a.not_late;
}
