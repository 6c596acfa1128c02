-- ===== src/Attention/Allocation/Defs.antt =====
-- attention.py: `_allocate_task_resources`, `_resource_class_deficits`, and
-- `_hold_available_task_capacity`.
use prometheist.Base.{
  ℕ, ◌+◌, ◌-◌, Option, none, some, List, [], ◌∷◌, ◌++◌, String, if◌then◌else◌, min, nat_eq, keep,
  sum_of, ◌==◌, String_eq, ℕ_eq,
}
use prometheist.Attention.Resources.{
  Uuid, ResourceClass, ResourceClass_eq, ExecutionResource, ResourceRequirement,
  ResourceReservation, reservation_uuid,
}

-- A dictionary of what each pool has left. The scheduler reads it at the pools that it was built
-- from only, so that a missing key does not arise, and the dictionary is a function.
abbrev pub Capacity : Type 0
Capacity = String → ℕ

-- remaining[k] -= units
abbrev pub take_from : Capacity → String → ℕ → Capacity
take_from remaining k units j = if k == j then remaining j - units else remaining j

-- remaining[k] += units
abbrev pub give_to : Capacity → String → ℕ → Capacity
give_to remaining k units j = if k == j then remaining j + units else remaining j

-- resources_by_class[resource_class], of the enabled pools in their canonical order
abbrev pub pools_of : List ExecutionResource → ResourceClass → List ExecutionResource
pools_of pools c = keep (λ r. r.resource_class == c) pools

module _ ⦃u : Uuid⦄ (task_id : ℕ) where
  abbrev pub reservation_of : ExecutionResource → ℕ → ResourceReservation
  reservation_of r units = record {
    reservation_id = reservation_uuid task_id r.resource_id;
    task_id = task_id;
    resource_id = r.resource_id;
    resource_class = r.resource_class;
    units = units;
  }

  -- The inner loop over the pools of one class: the reservations made, the units still needed and
  -- what remains.
  unfoldable pub reserve_from :
      List ExecutionResource → ℕ → Capacity → List ResourceReservation × ℕ × Capacity
  reserve_from [] needed remaining = ([], needed, remaining)
  reserve_from (r ∷ rs) needed remaining =
      let reserved = min needed (remaining r.resource_id) in
      let remaining' = take_from remaining r.resource_id reserved in
      let skipped = reserve_from rs needed remaining in
      let rest = reserve_from rs (needed - reserved) remaining' in
      let made = reservation_of r reserved in
      if nat_eq reserved 0
      then skipped
      else if nat_eq (needed - reserved) 0
      then (made ∷ [], 0, remaining')
      else (made ∷ rest.0, rest.1, rest.2)

  prepend :
      List ResourceReservation
      → Option (List ResourceReservation × Capacity)
      → Option (List ResourceReservation × Capacity)
  prepend made none = none
  prepend made (some (later, remaining)) = some (made ++ later, remaining)

  -- _allocate_task_resources: all of the requirements, or none.
  unfoldable pub allocate :
      List ExecutionResource
      → List ResourceRequirement
      → Capacity
      → Option (List ResourceReservation × Capacity)
  unfolding prepend
  allocate pools [] remaining = some ([], remaining)
  allocate pools (q ∷ qs) remaining =
      let made = reserve_from (pools_of pools q.resource_class) q.units remaining in
      let rest = prepend made.0 (allocate pools qs made.2) in if nat_eq made.1 0 then rest else none

-- sum(remaining[resource.resource_id] for resource in ...)
unfoldable pub available : List ExecutionResource → Capacity → ℕ
available rs remaining = sum_of (λ r. remaining r.resource_id) rs

-- _resource_class_deficits: `max(0, units - available)` of each class, where it is not 0
unfoldable pub deficits :
    List ExecutionResource → List ResourceRequirement → Capacity → List ResourceRequirement
deficits pools [] remaining = []
deficits pools (q ∷ qs) remaining =
    let missing = q.units - available (pools_of pools q.resource_class) remaining in
    let rest = deficits pools qs remaining in
    if nat_eq missing 0
    then rest
    else record { resource_class = q.resource_class; units = missing } ∷ rest

-- The inner loop of `_hold_available_task_capacity`, by the units that are still to hold.
unfoldable pub hold_from : List ExecutionResource → ℕ → Capacity → Capacity
hold_from [] missing remaining = remaining
hold_from (r ∷ rs) missing remaining =
    let units = min missing (remaining r.resource_id) in
    let remaining' = take_from remaining r.resource_id units in
    let skipped = hold_from rs missing remaining in
    let rest = hold_from rs (missing - units) remaining' in
    if nat_eq units 0 then skipped else if nat_eq (missing - units) 0 then remaining' else rest

unfoldable pub hold : List ExecutionResource → List ResourceRequirement → Capacity → Capacity
hold pools [] remaining = remaining
hold pools (q ∷ qs) remaining =
    hold pools qs (hold_from (pools_of pools q.resource_class) q.units remaining)

-- The units that reservations take of one pool.
unfoldable pub units_at : String → List ResourceReservation → ℕ
units_at k = sum_of (λ v. if v.resource_id == k then v.units else 0)
