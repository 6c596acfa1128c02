-- ===== src/Attention/Metadata/Defs.antt =====
-- attention.py: the enumerations, `ServiceGuarantee` and `SchedulingMetadata`.
use prometheist.Base.{
  ℕ, Bool, false, ◌&&◌, Option, none, some, List, [], ◌∷◌, ◌++◌, map, Result, ok, value_error,
  ◌>>=◌, ◌>>◌, raise_if, if◌then◌else◌, not, contains, sorted_by, ◌==◌, ℕ_eq, ℕ_ordered,
}
use prometheist.Attention.Resources.{
  ResourceClass, resource_class_sort_key, ResourceClass_eq, llm_inference, ResourceRequirement,
  resource_requirement_sort_key, ProcessResourceEstimate, resource_requirements,
}

-- `PriorityClass` is an `IntEnum`: P0 to P5 are the numbers 0 to 5, and a lower number is a higher
-- scheduling priority.
abbrev pub PriorityClass : Type 0
PriorityClass = ℕ

pub data TaskCriticality : Type 0 where
  emergency user_blocking user_requested supporting maintenance opportunistic : TaskCriticality

pub data ServiceClass : Type 0 where
  interactive user_work support maintenance background : ServiceClass

pub data InterruptionPolicy : Type 0 where
  preemptible checkpoint_only atomic : InterruptionPolicy

pub record ServiceGuarantee : Type 0 where
  pub max_wait_cycles : Option ℕ
  pub guaranteed_priority : PriorityClass

-- DEFAULT_SERVICE_GUARANTEES
abbrev pub default_service_guarantees : ServiceClass → ServiceGuarantee
default_service_guarantees interactive = record {
  max_wait_cycles = some 1;
  guaranteed_priority = 1;
}
default_service_guarantees user_work = record { max_wait_cycles = some 4; guaranteed_priority = 2 }
default_service_guarantees support = record { max_wait_cycles = some 8; guaranteed_priority = 2 }
default_service_guarantees ServiceClass.maintenance = record {
  max_wait_cycles = some 32;
  guaranteed_priority = 2;
}
default_service_guarantees background = record {
  max_wait_cycles = some 128;
  guaranteed_priority = 3;
}

-- CRITICALITY_PRIORITY
abbrev pub criticality_priority : TaskCriticality → PriorityClass
criticality_priority emergency = 0
criticality_priority user_blocking = 1
criticality_priority user_requested = 2
criticality_priority supporting = 3
criticality_priority TaskCriticality.maintenance = 4
criticality_priority opportunistic = 5

-- A deadline is the number of microseconds to it on one clock. `required_capabilities` is carried
-- along and never read by the scheduler, so it has no field.
pub record SchedulingMetadata : Type 0 where
  pub criticality : TaskCriticality
  pub service_class : ServiceClass
  pub interruption_policy : InterruptionPolicy
  pub deadline : Option ℕ
  pub required_resource_classes : List ResourceClass
  pub resource_requirements : List ResourceRequirement
  pub process_resource_estimate : Option ProcessResourceEstimate
  pub dependency_ids : List ℕ

-- requirements_by_class.get(resource_class)
unfoldable pub units_of : List ResourceRequirement → ResourceClass → Option ℕ
units_of [] c = none
units_of (r ∷ rs) c = if r.resource_class == c then some r.units else units_of rs c

-- requirements_by_class[requirement.resource_class] = requirement
unfoldable pub put_requirement :
    ResourceRequirement → List ResourceRequirement → List ResourceRequirement
put_requirement r [] = r ∷ []
put_requirement r (s ∷ rs) =
    if s.resource_class == r.resource_class then r ∷ rs else s ∷ put_requirement r rs

-- The first loop: each class at most once.
collect : List ResourceRequirement → List ResourceRequirement → Result (List ResourceRequirement)
collect by_class [] = ok by_class
collect by_class (r ∷ rs) = do
  raise_if (contains (map (λ s. s.resource_class) by_class) r.resource_class)
      (value_error "resource_requirements must contain each class at most once")
  collect (put_requirement r by_class) rs

conflicts : Option ℕ → ℕ → Bool
conflicts none units = false
conflicts (some existing) units = not (existing == units)

-- The second loop: the estimate's requirements join the explicit ones.
join_estimate :
    List ResourceRequirement → List ResourceRequirement → Result (List ResourceRequirement)
join_estimate by_class [] = ok by_class
join_estimate by_class (r ∷ rs) = do
  raise_if (conflicts (units_of by_class r.resource_class) r.units)
      (value_error "process_resource_estimate conflicts with an explicit requirement")
  join_estimate (put_requirement r by_class) rs

estimate_requirements : Option ProcessResourceEstimate → List ResourceRequirement
estimate_requirements none = []
estimate_requirements (some e) = resource_requirements e

-- set(xs), as a list
unfoldable pub distinct_classes : List ResourceClass → List ResourceClass
distinct_classes [] = []
distinct_classes (c ∷ cs) =
    let rest = distinct_classes cs in if contains rest c then rest else c ∷ rest

lacks_llm_slot : Option ProcessResourceEstimate → List ResourceClass → Bool
lacks_llm_slot none classes = false
lacks_llm_slot (some e) classes = contains classes llm_inference && not (e.llm_slots == 1)

-- SchedulingMetadata.normalize_resource_contract
unfoldable pub normalize_resource_contract : SchedulingMetadata → Result SchedulingMetadata
unfolding collect join_estimate estimate_requirements conflicts lacks_llm_slot
normalize_resource_contract m = do
  explicit ← collect [] m.resource_requirements
  by_class ← join_estimate explicit (estimate_requirements m.process_resource_estimate)
  let classes =
      distinct_classes (m.required_resource_classes ++ map (λ r. r.resource_class) by_class)
  raise_if (lacks_llm_slot m.process_resource_estimate classes)
      (value_error "an LLM-backed process estimate must reserve exactly one LLM slot")
  ok (record m {
    required_resource_classes = sorted_by resource_class_sort_key classes;
    resource_requirements = sorted_by resource_requirement_sort_key by_class;
  })

or_one : Option ℕ → ℕ
or_one none = 1
or_one (some units) = units

-- The canonical quantitative contract: one unit of a class that is required without a number.
unfoldable pub quantitative_resource_requirements : SchedulingMetadata → List ResourceRequirement
unfolding or_one
quantitative_resource_requirements m =
    map (λ c. record { resource_class = c; units = or_one (units_of m.resource_requirements c) })
      m.required_resource_classes

unfoldable pub derive_priority : SchedulingMetadata → PriorityClass
derive_priority m = criticality_priority m.criticality
