-- ===== src/Attention/Allocation/Tests.antt =====
-- An allocation of two pools, and the theorems about allocations at it.
use prometheist.Base.{
  ℕ, ◌+◌, ◌≡◌, refl, true, some, List, [], ◌∷◌, String, keep, no_duplicates, if◌then◌else◌, ◌==◌,
  contains, is_empty, String_eq, strip,
}
use prometheist.Attention.Resources.{
  Uuid, ResourceClass, ResourceClass_eq, cpu_general, memory_ram, ExecutionResource,
  ResourceRequirement, ResourceReservation,
}
use prometheist.Attention.Allocation.Defs.{
  Capacity, reserve_from, allocate, deficits, take_from, units_at,
}
use prometheist.Attention.Allocation.Contract.{
  is_some, units_in, required_in, allocate_conserves, allocate_exact,
}
use prometheist.Attention.Allocation.Deficits.{allocate_iff_no_deficit}

instance abbrev toy_uuid : Uuid
toy_uuid = record { uuid5 = λ n name. n; text = λ n. "task" }

abbrev pool : String → ResourceClass → ℕ → ExecutionResource
pool name c units = record {
  resource_id = name;
  resource_class = c;
  capacity = units;
  system_headroom = 0;
  enabled = true;
}

abbrev pools : List ExecutionResource
pools = pool "cpu-a" cpu_general 2 ∷ pool "cpu-b" cpu_general 2 ∷ pool "ram" memory_ram 64 ∷ []

abbrev free : Capacity
free k = if k == "ram" then 64 else 2

abbrev contract : List ResourceRequirement
contract =
    record { resource_class = cpu_general; units = 3 }
    ∷ record { resource_class = memory_ram; units = 32 }
    ∷ []

abbrev reserved : String → ResourceClass → ℕ → ResourceReservation
reserved name c units = record {
  reservation_id = 5;
  task_id = 5;
  resource_id = name;
  resource_class = c;
  units = units;
}

abbrev made : List ResourceReservation
made =
    reserved "cpu-a" cpu_general 2
    ∷ reserved "cpu-b" cpu_general 1
    ∷ reserved "ram" memory_ram 32
    ∷ []

abbrev left : Capacity
left = take_from (take_from (take_from free "cpu-a" 2) "cpu-b" 1) "ram" 32

allocates : allocate 5 pools contract free ≡ some (made, left)
unfolding allocate reserve_from keep strip
allocates = refl

allocate_conserves_example : left "cpu-b" + units_at "cpu-b" made ≡ free "cpu-b"
allocate_conserves_example = allocate_conserves 5 pools contract free allocates "cpu-b"

allocate_exact_example : units_in cpu_general made ≡ required_in cpu_general contract
allocate_exact_example = allocate_exact 5 pools contract free allocates cpu_general

allocate_iff_no_deficit_example :
    is_some (allocate 5 pools contract free) ≡ is_empty (deficits pools contract free)
unfolding no_duplicates contains
allocate_iff_no_deficit_example = allocate_iff_no_deficit 5 pools contract free refl refl
