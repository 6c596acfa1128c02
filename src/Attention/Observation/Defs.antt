-- ===== src/Attention/Observation/Defs.antt =====
-- attention_observation.py: the policy, the metrics, the envelope of a pool, the snapshot, and the
-- validators of these.
use Prim.Native.Nat.{◌/◌}
use prometheist.Base.{
  ℕ, ◌+◌, ◌-◌, ◌*◌, min, max, Bool, true, false, not, ◌&&◌, ◌||◌, Option, none, some, List, map,
  String, Result, ok, value_error, resource_observation_error, ◌>>◌, raise_if, if◌then◌else◌, ltb,
  leb, nat_eq, is_empty, no_duplicates, sorted_by, strip, is_blank, ◌==◌, ℕ_eq, String_eq,
  ℕ_ordered, String_ordered, pair_ordered,
}
use prometheist.Attention.Resources.{Uuid, ResourceClass, resource_class_sort_key}

pub data CapacityMeasurement : Type 0 where
  host configured fail_closed : CapacityMeasurement

pub record ResourceSafetyPolicy : Type 0 where
  pub policy_version : String
  pub observation_max_age_seconds : ℕ
  pub cpu_system_headroom_percent : ℕ
  pub max_cpu_pressure_percent : ℕ
  pub memory_system_headroom_percent : ℕ
  pub memory_system_headroom_min_mib : ℕ
  pub uncertainty_headroom_percent : ℕ
  pub llm_concurrency_limit : ℕ
  pub default_process_cpu_units : ℕ
  pub default_process_memory_mib : ℕ
  pub default_llm_process_memory_mib : ℕ

-- The constraints of the fields.
unfoldable pub resource_safety_policy : ResourceSafetyPolicy → Result ResourceSafetyPolicy
resource_safety_policy p = do
  raise_if (p.policy_version == "") (value_error "policy_version must not be empty")
  raise_if (not (leb 1 p.observation_max_age_seconds))
      (value_error "observation_max_age_seconds must be positive")
  raise_if (not (ltb p.cpu_system_headroom_percent 100))
      (value_error "cpu_system_headroom_percent must be below 100")
  raise_if (not (leb 1 p.max_cpu_pressure_percent && leb p.max_cpu_pressure_percent 100))
      (value_error "max_cpu_pressure_percent must be from 1 to 100")
  raise_if (not (ltb p.memory_system_headroom_percent 100))
      (value_error "memory_system_headroom_percent must be below 100")
  raise_if (not (ltb p.uncertainty_headroom_percent 100))
      (value_error "uncertainty_headroom_percent must be below 100")
  raise_if (not (leb 1 p.llm_concurrency_limit))
      (value_error "llm_concurrency_limit must be positive")
  raise_if (not (leb 1 p.default_process_cpu_units))
      (value_error "default_process_cpu_units must be positive")
  raise_if (not (leb 1 p.default_process_memory_mib))
      (value_error "default_process_memory_mib must be positive")
  raise_if (not (leb 1 p.default_llm_process_memory_mib))
      (value_error "default_llm_process_memory_mib must be positive")
  ok p

-- math.ceil(amount * percent / 100)
abbrev pub ceil_percent : ℕ → ℕ → ℕ
ceil_percent amount percent = (amount * percent + 99) / 100

unfoldable pub cpu_system_headroom_units : ResourceSafetyPolicy → ℕ → ℕ
cpu_system_headroom_units p logical_cpu_count =
    if leb logical_cpu_count 1 || nat_eq p.cpu_system_headroom_percent 0
    then 0
    else max 1 (ceil_percent logical_cpu_count p.cpu_system_headroom_percent)

unfoldable pub memory_system_headroom_mib : ResourceSafetyPolicy → ℕ → ℕ
memory_system_headroom_mib p total_mib =
    min total_mib (
      max p.memory_system_headroom_min_mib
        (ceil_percent total_mib p.memory_system_headroom_percent))

-- A load, which the probe rounds to two decimals, in hundredths. The validator lets a load pass that
-- is no finite number; `unbounded` is one that is infinite when it is multiplied by 100.
pub data LoadAverage : Type 0 where
  hundredths : ℕ → LoadAverage
  unbounded : LoadAverage

abbrev pub is_unbounded : LoadAverage → Bool
is_unbounded (hundredths n) = false
is_unbounded unbounded = true

pub record HostResourceMetrics : Type 0 where
  pub platform : String
  pub logical_cpu_count : ℕ
  pub cpu_utilization_percent : ℕ
  pub load_1m : Option LoadAverage
  pub memory_total_mib : ℕ
  pub memory_available_mib : ℕ

-- The constructor, with validate_available_memory.
unfoldable pub host_resource_metrics : HostResourceMetrics → Result HostResourceMetrics
host_resource_metrics m = do
  raise_if (m.platform == "") (value_error "platform must not be empty")
  raise_if (not (leb 1 m.logical_cpu_count)) (value_error "logical_cpu_count must be positive")
  raise_if (ltb 100 m.cpu_utilization_percent)
      (value_error "cpu_utilization_percent must be from 0 to 100")
  raise_if (not (leb 1 m.memory_total_mib)) (value_error "memory_total_mib must be positive")
  raise_if (ltb m.memory_total_mib m.memory_available_mib)
      (value_error "available memory must not exceed total memory")
  ok m

pub record ObservedResourceCapacity : Type 0 where
  pub resource_id : String
  pub resource_class : ResourceClass
  pub measurement : CapacityMeasurement
  pub configured_capacity : ℕ
  pub configured_headroom_units : ℕ
  pub committed_units : ℕ
  pub observed_available_units : ℕ
  pub uncertainty_headroom_units : ℕ
  pub admission_capacity : ℕ

-- The constructor, with normalize_resource_id and validate_capacity_envelope.
unfoldable pub observed_resource_capacity :
    ObservedResourceCapacity → Result ObservedResourceCapacity
observed_resource_capacity c = do
  raise_if (is_blank (strip c.resource_id)) (value_error "resource_id must not be empty")
  raise_if (not (leb 1 c.configured_capacity)) (value_error "configured_capacity must be positive")
  raise_if (ltb c.configured_capacity c.configured_headroom_units)
      (value_error "configured headroom cannot exceed capacity")
  raise_if (ltb c.admission_capacity c.committed_units)
      (value_error "observation cannot invalidate committed reservations")
  raise_if (ltb (c.configured_capacity - c.configured_headroom_units) c.admission_capacity)
      (value_error "observation cannot exceed configured safe capacity")
  ok (record c { resource_id = strip c.resource_id })

-- The validator has seen to it that this does not fall below 0.
unfoldable pub available_for_new_work : ObservedResourceCapacity → ℕ
available_for_new_work c = c.admission_capacity - c.committed_units

pub record ResourceObservationSnapshot : Type 0 where
  pub observation_id : ℕ
  pub scheduler_cycle : ℕ
  pub captured_at : ℕ
  pub valid_until : ℕ
  pub safety_policy_version : String
  pub policy : ResourceSafetyPolicy
  pub host_id : String
  pub healthy : Bool
  pub probe_errors : List String
  pub metrics : Option HostResourceMetrics
  pub capacities : List ObservedResourceCapacity

abbrev pub is_some {ℓ} : {A : Type ℓ} → Option A → Bool
is_some none = false
is_some (some a) = true

abbrev pub bool_eq : Bool → Bool → Bool
bool_eq true b = b
bool_eq false b = not b

-- The key that the snapshot sorts its capacities by.
abbrev pub capacity_sort_key : ObservedResourceCapacity → ℕ × String
capacity_sort_key c = (resource_class_sort_key c.resource_class, c.resource_id)

-- _OBSERVATION_NAMESPACE, "64b7f260-e79d-4f81-b732-45ee4e4ae4a8"
abbrev pub observation_namespace : ℕ
observation_namespace = 133877905924312359902213821285263926440

-- `observation_json` is the canonical JSON text of a snapshot. It is taken of the snapshot with a
-- blank identity, since the text leaves the identity out.
module _ ⦃u : Uuid⦄ (observation_json : ResourceObservationSnapshot → String) where
  unfoldable pub deterministic_resource_observation_id : ResourceObservationSnapshot → ℕ
  deterministic_resource_observation_id o =
      u.uuid5 observation_namespace (observation_json (record o { observation_id = 0 }))

  -- The constraints of the fields, and validate_snapshot.
  unfoldable pub validate_snapshot :
      ResourceObservationSnapshot → Result ResourceObservationSnapshot
  unfolding deterministic_resource_observation_id
  validate_snapshot o = do
    raise_if (not (leb 1 o.scheduler_cycle)) (value_error "scheduler_cycle must be positive")
    raise_if (o.safety_policy_version == "") (value_error "safety_policy_version must not be empty")
    raise_if (o.host_id == "") (value_error "host_id must not be empty")
    raise_if (leb o.valid_until o.captured_at)
        (value_error "resource observation must have a positive lifetime")
    raise_if (not (bool_eq o.healthy (is_some o.metrics && is_empty o.probe_errors)))
        (value_error "observation health must match metrics and probe errors")
    raise_if (not (o.safety_policy_version == o.policy.policy_version))
        (value_error "observation safety policy version does not match policy")
    raise_if (not (no_duplicates (map (λ c. c.resource_id) o.capacities)))
        (value_error "resource observation contains duplicate resource ids")
    let normal = record o { capacities = sorted_by capacity_sort_key o.capacities }
    raise_if (not (normal.observation_id == deterministic_resource_observation_id normal))
        (value_error "resource observation id is not deterministic")
    ok normal

-- ResourceObservationSnapshot.assert_fresh
unfoldable pub assert_fresh : ResourceObservationSnapshot → ℕ → Result (Unit {0})
assert_fresh o at =
    raise_if (ltb at o.captured_at || ltb o.valid_until at)
      (resource_observation_error "resource observation is stale")
