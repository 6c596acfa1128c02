-- ===== src/Attention/Resources/Defs.antt =====
-- attention_resources.py. A UUID is the number that its hexadecimal digits write.
use prometheist.Attention.Resources.Class.{
  ResourceClass, resource_class_sort_key, ResourceClass_eq, cpu_general, memory_ram, llm_inference,
}
use prometheist.Base.{
  ℕ, ◌-◌, Bool, List, [], ◌∷◌, ◌++◌, map, String, Result, ok, err, value_error, ◌>>=◌, ◌>>◌,
  raise_if, if◌then◌else◌, leb, ltb, not, any, contains, no_duplicates, is_disjoint, strip,
  is_blank, sorted_by, nat_eq, ℕ_eq, String_eq, ℕ_ordered, String_ordered, pair_ordered, ◌+++◌,
  pair_eq,
}

-- The functions of Python's `uuid` module that the package calls: `uuid5(namespace, name)`, and
-- `str(uuid)`. Theorems that need more of them say so in a hypothesis.
pub record Uuid : Type 0 where
  pub uuid5 : ℕ → String → ℕ
  pub text : ℕ → String

-- `metadata` is carried along and never read, so it has no field.
pub record ExecutionResource : Type 0 where
  pub resource_id : String
  pub resource_class : ResourceClass
  pub capacity : ℕ
  pub system_headroom : ℕ
  pub enabled : Bool

unfoldable pub normalize_resource_id : String → Result String
normalize_resource_id value =
    let normalized = strip value in
    if is_blank normalized then err (value_error "resource_id must not be empty") else ok normalized

-- The constructor, with the constraints of its fields and its validators.
unfoldable pub execution_resource : ExecutionResource → Result ExecutionResource
unfolding normalize_resource_id
execution_resource r = do
  name ← normalize_resource_id r.resource_id
  raise_if (not (leb 1 r.capacity)) (value_error "capacity must be positive")
  raise_if (ltb r.capacity r.system_headroom)
      (value_error "system_headroom must not exceed capacity")
  ok (record r { resource_id = name })

-- Capacity that ordinary work may reserve from this pool.
unfoldable pub admissible_capacity : ExecutionResource → ℕ
admissible_capacity r = if not r.enabled then 0 else r.capacity - r.system_headroom

pub record ResourceRequirement : Type 0 where
  pub resource_class : ResourceClass
  pub units : ℕ

pub data EstimateSource : Type 0 where
  declared profiled historical_peak conservative_default : EstimateSource

pub record ProcessResourceEstimate : Type 0 where
  pub cpu_units : ℕ
  pub memory_mib : ℕ
  pub llm_slots : ℕ
  pub source : EstimateSource
  pub basis : String

abbrev pub resource_requirement_sort_key : ResourceRequirement → ℕ
resource_requirement_sort_key r = resource_class_sort_key r.resource_class

unfoldable pub resource_requirements : ProcessResourceEstimate → List ResourceRequirement
resource_requirements e =
    let host =
      record { resource_class = cpu_general; units = e.cpu_units }
      ∷ record { resource_class = memory_ram; units = e.memory_mib }
      ∷ [] in
    let slots = record { resource_class = llm_inference; units = e.llm_slots } ∷ [] in
    sorted_by resource_requirement_sort_key (host ++ (if nat_eq e.llm_slots 0 then [] else slots))

pub record ResourceReservation : Type 0 where
  pub reservation_id : ℕ
  pub task_id : ℕ
  pub resource_id : String
  pub resource_class : ResourceClass
  pub units : ℕ

pub record ResourceAdmissionPlan : Type 0 where
  pub admitted_task_ids : List ℕ
  pub unadmitted_task_ids : List ℕ
  pub reservations : List ResourceReservation

-- ResourceAdmissionPlan.validate_identity_sets
unfoldable pub validate_admission_plan : ResourceAdmissionPlan → Result ResourceAdmissionPlan
validate_admission_plan plan = do
  raise_if (not (no_duplicates plan.admitted_task_ids))
      (value_error "admitted_task_ids must not contain duplicates")
  raise_if (not (no_duplicates plan.unadmitted_task_ids))
      (value_error "unadmitted_task_ids must not contain duplicates")
  raise_if (not (is_disjoint plan.admitted_task_ids plan.unadmitted_task_ids))
      (value_error "admitted and unadmitted task ids must be disjoint")
  raise_if (not (no_duplicates (map (λ r. r.reservation_id) plan.reservations)))
      (value_error "reservations must not contain duplicate ids")
  raise_if
      (not
        (no_duplicates {A = ℕ × String} (map (λ r. (r.task_id, r.resource_id)) plan.reservations)))
      (value_error "a task may reserve a resource pool only once")
  raise_if (any (λ r. not (contains plan.admitted_task_ids r.task_id)) plan.reservations)
      (value_error "every reservation must belong to an admitted task")
  ok plan

abbrev pub execution_resource_sort_key : ExecutionResource → ℕ × String
execution_resource_sort_key r = (resource_class_sort_key r.resource_class, r.resource_id)

module _ ⦃u : Uuid⦄ where
  -- The identity of a reservation of a pool whose name is not blank.
  abbrev pub reservation_uuid : ℕ → String → ℕ
  reservation_uuid task_id resource_id =
      u.uuid5 task_id ("prometheist-resource-reservation:" +++ strip resource_id)

  unfoldable pub deterministic_reservation_id : ℕ → String → Result ℕ
  deterministic_reservation_id task_id resource_id =
      if is_blank (strip resource_id)
      then err (value_error "resource_id must not be empty")
      else ok (reservation_uuid task_id resource_id)

abbrev pub resource_reservation_sort_key : ResourceReservation → ℕ × (String × (ℕ × ℕ))
resource_reservation_sort_key r =
    (resource_class_sort_key r.resource_class, (r.resource_id, (r.task_id, r.reservation_id)))
