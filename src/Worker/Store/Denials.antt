-- ===== src/Worker/Store/Denials.antt =====
-- worker_store.py: why a claim is denied, in the order in which the reasons are looked for.
use prometheist.Base.{
  ℕ, Bool, false, not, ◌&&◌, ◌||◌, Option, none, some, List, [], ◌∷◌, String, if◌then◌else◌, ltb,
  contains, ◌==◌, ℕ_eq, String_eq,
}
use prometheist.Attention.Resources.{ResourceReservation}
use prometheist.Attention.Assignments.{version_is}
use prometheist.Attention.Observation.{
  ResourceSafetyPolicy, ObservedResourceCapacity, ResourceObservationSnapshot,
  available_for_new_work, is_some,
}
use prometheist.Worker.Protocol.{WorkerStep, WorkerClaim, WorkerResult, abandoned_retry_is_safe}
use prometheist.Worker.Store.Tables.{
  SchedulerRow, EpochRow, TaskRow, Store, find_row, is_abandoned, is_live,
}
use prometheist.Worker.Store.Register.{find_task_row}

unfoldable pub same_policy : ResourceSafetyPolicy → ResourceSafetyPolicy → Bool
same_policy p q =
    p.policy_version == q.policy_version
    && p.observation_max_age_seconds == q.observation_max_age_seconds
    && p.cpu_system_headroom_percent == q.cpu_system_headroom_percent
    && p.max_cpu_pressure_percent == q.max_cpu_pressure_percent
    && p.memory_system_headroom_percent == q.memory_system_headroom_percent
    && p.memory_system_headroom_min_mib == q.memory_system_headroom_min_mib
    && p.uncertainty_headroom_percent == q.uncertainty_headroom_percent
    && p.llm_concurrency_limit == q.llm_concurrency_limit
    && p.default_process_cpu_units == q.default_process_cpu_units
    && p.default_process_memory_mib == q.default_process_memory_mib
    && p.default_llm_process_memory_mib == q.default_llm_process_memory_mib

-- Whether the column holds the value.
abbrev pub id_is : Option ℕ → ℕ → Bool
id_is none k = false
id_is (some j) k = j == k

abbrev pub is_live_latest : ℕ → Option WorkerClaim → Bool
is_live_latest at none = false
is_live_latest at (some c) = is_live at c

abbrev pub is_abandoned_latest : Option WorkerClaim → Bool
is_abandoned_latest none = false
is_abandoned_latest (some c) = is_abandoned c

abbrev pub is_revision : ℕ → Option TaskRow → Bool
is_revision revision none = false
is_revision revision (some t) = t.revision == revision

-- The first of two reasons.
abbrev pub or_else : Option String → Option String → Option String
or_else (some reason) later = some reason
or_else none later = later

-- The tests on the claims of the step and of its assignment.
unfoldable pub claim_denial :
    String → WorkerStep → Option WorkerClaim → Option WorkerResult → ℕ → Store → Option String
unfolding find_row
claim_denial key step latest existing captured_at s =
    if is_some existing
    then some "worker step already has a terminal result"
    else if is_live_latest captured_at latest
    then some "worker step already has a live claim"
    else if is_abandoned_latest latest && not (abandoned_retry_is_safe step.effect_policy)
    then some "abandoned at-most-once effect requires explicit reconciliation"
    else if is_some (
        find_row key (λ c. c.assignment_id == step.assignment_id && is_live captured_at c) s.claims)
    then some "worker assignment already has a live claim"
    else none

-- The tests on a current epoch and on the task.
unfoldable pub binding_denial :
    EpochRow → WorkerStep → ResourceObservationSnapshot → Store → Option String
unfolding version_is find_task_row
binding_denial epoch step committed s =
    if not (id_is epoch.resource_observation_id committed.observation_id)
      || not (version_is epoch.resource_safety_policy_version committed.safety_policy_version)
    then some "worker assignment epoch does not bind the committed resource policy"
    else if not (contains epoch.assignment_ids step.assignment_id)
    then some "worker assignment is no longer current"
    else if not (is_revision step.task_revision (find_task_row s.scheduler.tasks step.task_id))
    then some "worker step uses a stale task revision"
    else none

unfoldable pub epoch_denial :
    String → Option ℕ → WorkerStep → ResourceObservationSnapshot → Store → Option String
unfolding find_row binding_denial
epoch_denial key none step committed s = some "worker assignment is not part of a committed epoch"
epoch_denial key (some epoch_id) step committed s =
    elim (find_row key (λ e. e.epoch_id == epoch_id) s.scheduler.epochs) [
      | none ↦ some "scheduler current epoch is missing"
      | some epoch ↦ binding_denial epoch step committed s
    ]

abbrev pub differs_from : Option ResourceSafetyPolicy → ResourceSafetyPolicy → Bool
differs_from none policy = false
differs_from (some expected) policy = not (same_policy expected policy)

-- The tests on the observation that the scheduler committed, and then those on its epoch.
unfoldable pub observation_denial :
    String
    → SchedulerRow
    → WorkerStep
    → Option ResourceSafetyPolicy
    → Option ResourceObservationSnapshot
    → Store
    → Option String
unfolding same_policy epoch_denial
observation_denial key state step expected none s =
    some "worker launch requires a committed resource safety policy"
observation_denial key state step expected (some committed) s =
    if not (id_is state.current_resource_observation_id committed.observation_id)
    then some "scheduler resource policy observation is inconsistent"
    else if differs_from expected committed.policy
    then some "claim resource policy does not match the exact committed policy"
    else epoch_denial key state.current_epoch_id step committed s

-- _structural_claim_denial
unfoldable pub structural_claim_denial :
    String
    → SchedulerRow
    → WorkerStep
    → Option WorkerClaim
    → Option WorkerResult
    → ℕ
    → ResourceSafetyPolicy
    → Option ResourceSafetyPolicy
    → Option ResourceObservationSnapshot
    → Store
    → Option String
unfolding observation_denial claim_denial version_is
structural_claim_denial key state step latest existing captured_at policy expected committed s =
    if not state.resource_safety_required
    then some "worker launch requires host resource safety"
    else if not (version_is state.resource_safety_policy_version policy.policy_version)
    then some "claim resource policy does not match the committed scheduler policy"
    else or_else (observation_denial key state step expected committed s)
        (claim_denial key step latest existing captured_at s)

-- capacity_by_id.get(resource_id)
unfoldable pub find_capacity :
    List ObservedResourceCapacity → String → Option ObservedResourceCapacity
find_capacity [] name = none
find_capacity (c ∷ cs) name =
    let rest = find_capacity cs name in if c.resource_id == name then some c else rest

unfoldable pub capacity_denial :
    ResourceObservationSnapshot → List ResourceReservation → Option String
unfolding find_capacity available_for_new_work
capacity_denial snapshot [] = none
capacity_denial snapshot (r ∷ rest) =
    let later = capacity_denial snapshot rest in
    elim (find_capacity snapshot.capacities r.resource_id) [
      | none ↦ some "claim resource is unobserved"
      | some c ↦
          if ltb (available_for_new_work c) r.units
          then some "claim resource lacks safe capacity"
          else later
    ]

-- _resource_claim_denial
unfoldable pub resource_claim_denial :
    ResourceObservationSnapshot → List ResourceReservation → Option String
unfolding capacity_denial
resource_claim_denial snapshot target_reservations =
    if not snapshot.healthy
    then some "claim-time host resource probe failed closed"
    else capacity_denial snapshot target_reservations
