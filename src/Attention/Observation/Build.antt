-- ===== src/Attention/Observation/Build.antt =====
-- attention_observation.py: build_resource_observation and discover_local_execution_resources.
use Prim.Native.Nat.{◌/◌, ◌%◌}
use prometheist.Base.{
  overflow_error, false, ℕ, ◌+◌, ◌-◌, ◌*◌, min, max, Bool, true, not, ◌&&◌, ◌||◌, Option, none,
  some, List, [], ◌∷◌, map, String, Result, ok, value_error, resource_observation_error, ◌>>=◌,
  ◌>>◌, raise_if, if◌then◌else◌, ltb, leb, is_empty, keep, sum_of, sorted_by, strip, is_blank, ◌==◌,
  ℕ_eq, String_eq, ℕ_ordered, String_ordered, pair_ordered,
}
use prometheist.Attention.Resources.{
  Uuid, ResourceClass, ResourceClass_eq, cpu_general, memory_ram, llm_inference, ExecutionResource,
  ResourceReservation, execution_resource, execution_resource_sort_key, admissible_capacity,
}
use prometheist.Attention.Observation.Defs.{
  LoadAverage, hundredths, unbounded, is_unbounded, CapacityMeasurement, host, configured,
  fail_closed, ResourceSafetyPolicy, HostResourceMetrics, ObservedResourceCapacity,
  ResourceObservationSnapshot, ceil_percent, cpu_system_headroom_units, memory_system_headroom_mib,
  observed_resource_capacity, is_some, deterministic_resource_observation_id, validate_snapshot,
}

abbrev pub host_cpu_resource_id : String
host_cpu_resource_id = "host-cpu"

abbrev pub host_memory_resource_id : String
host_memory_resource_id = "host-ram-mib"

abbrev pub local_llm_resource_id : String
local_llm_resource_id = "local-llm"

-- round(n / d): to the nearest, a half to the even side.
unfoldable pub round_quotient : ℕ → ℕ → ℕ
round_quotient n d =
    let q = n / d in
    let r = n % d in if ltb (2 * r) d then q else if ltb d (2 * r) then q + 1 else q + q % 2

-- What `round` gives of a load for each processor. It raises for one that is unbounded, before this
-- is read.
abbrev load_percent : ℕ → LoadAverage → ℕ
load_percent cpus (hundredths n) = round_quotient n cpus
load_percent cpus unbounded = 0

-- The measured use of the processor, or its load if that is higher.
unfoldable pub pressure_of : HostResourceMetrics → ℕ
unfolding round_quotient
pressure_of m = elim m.load_1m [
  | none ↦ m.cpu_utilization_percent
  | some load ↦ max m.cpu_utilization_percent (min 100 (load_percent m.logical_cpu_count load))
]

unfoldable pub idle_units : ResourceSafetyPolicy → HostResourceMetrics → ℕ
unfolding pressure_of
idle_units p m =
    if leb p.max_cpu_pressure_percent (pressure_of m)
    then 0
    else m.logical_cpu_count * (100 - pressure_of m) / 100

-- What the loop works out for one pool, and what is left of the budget for language models.
pub record PoolReading : Type 0 where
  pub measurement : CapacityMeasurement
  pub observed_available : ℕ
  pub uncertainty : ℕ
  pub admission_capacity : ℕ
  pub llm_new_budget : ℕ

-- A pool of the host, of which `available` units are measured to be free.
unfoldable pub host_reading : ResourceSafetyPolicy → ExecutionResource → ℕ → ℕ → ℕ → PoolReading
host_reading p r available committed budget =
    let raw_new = available - r.system_headroom in
    let uncertainty = ceil_percent raw_new p.uncertainty_headroom_percent in
    record {
      measurement = host;
      observed_available = available;
      uncertainty = uncertainty;
      admission_capacity = min (admissible_capacity r) (committed + (raw_new - uncertainty));
      llm_new_budget = budget;
    }

abbrev pub closed_reading : CapacityMeasurement → ℕ → ℕ → PoolReading
closed_reading measurement committed budget = record {
  measurement = measurement;
  observed_available = 0;
  uncertainty = 0;
  admission_capacity = committed;
  llm_new_budget = budget;
}

unfoldable pub llm_reading : ExecutionResource → ℕ → ℕ → PoolReading
llm_reading r committed budget =
    let available = admissible_capacity r - committed in
    let additional = if r.resource_id == local_llm_resource_id then min available budget else 0 in
    record {
      measurement = configured;
      observed_available = available;
      uncertainty = 0;
      admission_capacity = committed + additional;
      llm_new_budget = budget - additional;
    }

unfoldable pub other_reading : ExecutionResource → ℕ → ℕ → PoolReading
other_reading r committed budget = record {
  measurement = configured;
  observed_available = admissible_capacity r - committed;
  uncertainty = 0;
  admission_capacity = admissible_capacity r;
  llm_new_budget = budget;
}

-- The metrics, where the observation is healthy.
unfoldable pub sound_metrics : Bool → Option HostResourceMetrics → Option HostResourceMetrics
sound_metrics healthy metrics = if healthy then metrics else none

module _ (p : ResourceSafetyPolicy) (sample : Option HostResourceMetrics) where
  -- The branches of the loop over the resources.
  unfoldable pub read_pool : ExecutionResource → ℕ → ℕ → PoolReading
  unfolding host_reading llm_reading other_reading idle_units
  read_pool r committed budget =
      if not r.enabled
      then closed_reading configured committed budget
      else if r.resource_id == host_cpu_resource_id
      then elim sample [
        | none ↦ closed_reading fail_closed committed budget
        | some m ↦ host_reading p r (idle_units p m) committed budget
      ]
      else if r.resource_id == host_memory_resource_id
      then elim sample [
        | none ↦ closed_reading fail_closed committed budget
        | some m ↦ host_reading p r m.memory_available_mib committed budget
      ]
      else if r.resource_class == cpu_general || r.resource_class == memory_ram
      then closed_reading fail_closed committed budget
      else if r.resource_class == llm_inference
      then llm_reading r committed budget
      else other_reading r committed budget

-- committed_by_resource.get(resource_id, 0)
unfoldable pub committed_units_of : List ResourceReservation → String → ℕ
committed_units_of rs name = sum_of (λ v. v.units) (keep (λ v. v.resource_id == name) rs)

unfoldable pub total_llm_committed : List ResourceReservation → ℕ
total_llm_committed rs = sum_of (λ v. v.units) (keep (λ v. v.resource_class == llm_inference) rs)

-- Whether the sample has a load that `round` does not take.
abbrev pub has_unbounded_load : Option HostResourceMetrics → Bool
has_unbounded_load none = false
has_unbounded_load (some m) = elim m.load_1m [ none ↦ false | some load ↦ is_unbounded load ]

-- Whether the branch of the processor is taken, and rounds such a load.
abbrev pub rounds_unbounded : Option HostResourceMetrics → ExecutionResource → Bool
rounds_unbounded sample r =
    r.enabled && r.resource_id == host_cpu_resource_id && has_unbounded_load sample

-- datetime.max, in microseconds since the first instant of a datetime
abbrev pub max_instant : ℕ
max_instant = 315537897599999999

abbrev pub envelope_of : ExecutionResource → ℕ → PoolReading → ObservedResourceCapacity
envelope_of r committed reading = record {
  resource_id = r.resource_id;
  resource_class = r.resource_class;
  measurement = reading.measurement;
  configured_capacity = r.capacity;
  configured_headroom_units = r.system_headroom;
  committed_units = committed;
  observed_available_units = reading.observed_available;
  uncertainty_headroom_units = reading.uncertainty;
  admission_capacity = reading.admission_capacity;
}

module _ (p : ResourceSafetyPolicy) (sample : Option HostResourceMetrics)
    (reservations : List ResourceReservation) where
  -- The loop over the resources.
  unfoldable pub observe_pools : ℕ → List ExecutionResource → Result (List ObservedResourceCapacity)
  unfolding read_pool committed_units_of observed_resource_capacity
  observe_pools budget [] = ok []
  observe_pools budget (r ∷ rest) = do
    raise_if (rounds_unbounded sample r) overflow_error
    let committed = committed_units_of reservations r.resource_id
    let reading = read_pool p sample r committed budget
    capacity ← observed_resource_capacity (envelope_of r committed reading)
    later ← observe_pools reading.llm_new_budget rest
    ok (capacity ∷ later)

unfoldable pub probe_errors_of : List String → List String
probe_errors_of values = keep (λ v. not (is_blank v)) (map strip values)

module _ ⦃u : Uuid⦄ (observation_json : ResourceObservationSnapshot → String) where
  unfoldable pub build_resource_observation :
      ℕ
      → ℕ
      → List ExecutionResource
      → List ResourceReservation
      → ResourceSafetyPolicy
      → Option HostResourceMetrics
      → List String
      → String
      → Result ResourceObservationSnapshot
  unfolding total_llm_committed observe_pools probe_errors_of sound_metrics
  build_resource_observation cycle captured_at resources reservations p metrics errors host_id = do
    let errors = probe_errors_of errors
    let healthy = is_some metrics && is_empty errors
    raise_if (ltb p.llm_concurrency_limit (total_llm_committed reservations))
        (resource_observation_error "committed LLM reservations exceed the configured safety limit")
    capacities ←
        observe_pools p (sound_metrics healthy metrics) reservations
          (p.llm_concurrency_limit - total_llm_committed reservations)
          (sorted_by execution_resource_sort_key resources)
    raise_if (ltb max_instant (captured_at + 1000000 * p.observation_max_age_seconds))
        overflow_error
    let provisional : ResourceObservationSnapshot = record {
      observation_id = 0;
      scheduler_cycle = cycle;
      captured_at = captured_at;
      valid_until = captured_at + 1000000 * p.observation_max_age_seconds;
      safety_policy_version = p.policy_version;
      policy = p;
      host_id = host_id;
      healthy = healthy;
      probe_errors = errors;
      metrics = metrics;
      capacities = capacities;
    }
    validate_snapshot observation_json (record provisional {
      observation_id = deterministic_resource_observation_id observation_json provisional;
    })

abbrev pub pool : String → ResourceClass → ℕ → ℕ → ExecutionResource
pool name c capacity headroom = record {
  resource_id = name;
  resource_class = c;
  capacity = capacity;
  system_headroom = headroom;
  enabled = true;
}

-- The capacity and the headroom of the processor and of the memory.
unfoldable pub local_sizes : Option HostResourceMetrics → ResourceSafetyPolicy → (ℕ × ℕ) × (ℕ × ℕ)
unfolding cpu_system_headroom_units memory_system_headroom_mib
local_sizes none p = ((1, 1), (1, 1))
local_sizes (some m) p = (
  (m.logical_cpu_count, cpu_system_headroom_units p m.logical_cpu_count),
  (m.memory_total_mib, memory_system_headroom_mib p m.memory_total_mib),
)

unfoldable pub discover_local_execution_resources :
    Option HostResourceMetrics → ResourceSafetyPolicy → Result (List ExecutionResource)
unfolding local_sizes execution_resource
discover_local_execution_resources metrics p = do
  let ((cpus, cpu_headroom), (mib, mib_headroom)) = local_sizes metrics p
  cpu ← execution_resource (pool host_cpu_resource_id cpu_general cpus cpu_headroom)
  memory ← execution_resource (pool host_memory_resource_id memory_ram mib mib_headroom)
  llm ← execution_resource (pool local_llm_resource_id llm_inference p.llm_concurrency_limit 0)
  ok (sorted_by execution_resource_sort_key (cpu ∷ memory ∷ llm ∷ []))

-- ReservationCreditHostResourceProbe: the credit that its constructor works out.
unfoldable pub memory_credit_mib : ℕ → ℕ → Result ℕ
memory_credit_mib scheduled required = do
  raise_if (not (leb 1 scheduled)) (value_error "scheduled_memory_mib must be positive")
  raise_if (not (leb 1 required)) (value_error "required_memory_mib must be positive")
  raise_if (ltb scheduled required)
      (value_error "required_memory_mib cannot exceed scheduled_memory_mib")
  ok (scheduled - required)

-- ReservationCreditHostResourceProbe.capture, of what the base probe captured.
unfoldable pub credit_capture : ℕ → HostResourceMetrics → HostResourceMetrics
credit_capture credit physical = record physical {
  memory_available_mib = min physical.memory_total_mib (physical.memory_available_mib + credit);
}

-- _cpu_percent_from_counters, of a total and an idle counter each. Counters are natural numbers, so
-- a total that did not grow and an idle counter that fell are the tests below.
unfoldable pub cpu_percent_from_counters : ℕ × ℕ → ℕ × ℕ → Result ℕ
unfolding round_quotient
cpu_percent_from_counters first second = do
  raise_if (leb second.0 first.0 || ltb second.1 first.1)
      (resource_observation_error "CPU counters did not advance monotonically")
  let total_delta = second.0 - first.0
  let busy_delta = total_delta - (second.1 - first.1)
  ok (min 100 (round_quotient (busy_delta * 100) total_delta))
