-- ===== src/Attention/Allocation/Deficits.antt =====
-- When there is an allocation: exactly if the contract has no deficit.
use prometheist.Base.{
  ℕ, ◌≡◌, refl, Bool, true, false, List, [], ◌∷◌, String, arith, keep, sum_of, ◌==◌, String_eq,
  ℕ_eq, contains, no_duplicates, beq_refl, is_empty,
}
use prometheist.Attention.Resources.{
  Uuid, ResourceClass, ResourceClass_eq, ExecutionResource, ResourceRequirement,
}
use prometheist.Attention.Allocation.Defs.{Capacity, available, allocate, deficits, pools_of}
use prometheist.Attention.Allocation.Reserve.{names, reserve_untouched, reserve_left}
use prometheist.Attention.Allocation.Contract.{classes, is_some, run}

module _ ⦃u : Uuid⦄ (task_id : ℕ) (pools : List ExecutionResource) where
  names-keep :
      (p : ExecutionResource → Bool) (rs : List ExecutionResource) (k : String)
      → contains (names rs) k ≡ false
      → contains (names (keep p rs)) k ≡ false
  unfolding keep contains
  names-keep p [] k h = refl
  names-keep p (r ∷ rs) k h = ground (arith, names-keep p rs k)

  pools_of-distinct :
      (rs : List ExecutionResource) (c : ResourceClass)
      → no_duplicates (names rs) ≡ true
      → no_duplicates (names (pools_of rs c)) ≡ true
  unfolding keep contains no_duplicates
  pools_of-distinct [] c h = h
  pools_of-distinct (r ∷ rs) c h =
      ground
        (arith, pools_of-distinct rs c, names-keep (λ r. r.resource_class == c) rs r.resource_id)

  keep_apart :
      (p q : ExecutionResource → Bool) (rs : List ExecutionResource) (k : String)
      → ((r : ExecutionResource) → p r ≡ true → q r ≡ false)
      → no_duplicates (names rs) ≡ true
      → contains (names (keep q rs)) k ≡ true
      → contains (names (keep p rs)) k ≡ false
  unfolding keep contains no_duplicates
  keep_apart p q [] k ne h m = refl
  keep_apart p q (r ∷ rs) k ne h m = ground (
    arith,
    ne r,
    keep_apart p q rs k ne,
    names-keep p rs k,
    names-keep q rs k,
    String_eq.beq_iff r.resource_id k,
  )

  class_apart : (b c d : ResourceClass) → (c == d) ≡ false → (b == c) ≡ true → (b == d) ≡ false
  class_apart b c d ne e = ground arith

  -- No pool belongs to two classes.
  pools_of-apart :
      (rs : List ExecutionResource) (c d : ResourceClass) (k : String)
      → no_duplicates (names rs) ≡ true
      → (c == d) ≡ false
      → contains (names (pools_of rs d)) k ≡ true
      → contains (names (pools_of rs c)) k ≡ false
  pools_of-apart rs c d k h ne m =
      keep_apart (λ r. r.resource_class == c) (λ r. r.resource_class == d) rs k
        (λ r e. class_apart r.resource_class c d ne e) h m

  available-eq :
      (rs : List ExecutionResource) (f g : Capacity)
      → ((k : String) → contains (names rs) k ≡ true → f k ≡ g k)
      → available rs f ≡ available rs g
  unfolding available sum_of contains
  available-eq [] f g h = refl
  available-eq (r ∷ rs) f g h = ground (
    arith,
    h r.resource_id,
    beq_refl r.resource_id,
    available-eq rs f g (λ k m. h k (ground (arith, m))),
  )

  -- What a class reserves leaves the other classes alone.
  available-run :
      (q : ResourceRequirement) (d : ResourceClass) (remaining : Capacity)
      → no_duplicates (names pools) ≡ true
      → (q.resource_class == d) ≡ false
      → available (pools_of pools d) (run task_id pools q remaining).2
        ≡ available (pools_of pools d) remaining
  available-run q d remaining h ne = available-eq (pools_of pools d) _ _ λ k m.
      reserve_untouched task_id (pools_of pools q.resource_class) q.units remaining k
        (pools_of-apart pools q.resource_class d k h ne m)

  deficits-run :
      (q : ResourceRequirement) (qs : List ResourceRequirement) (remaining : Capacity)
      → no_duplicates (names pools) ≡ true
      → contains (classes qs) q.resource_class ≡ false
      → deficits pools qs (run task_id pools q remaining).2 ≡ deficits pools qs remaining
  unfolding deficits contains
  deficits-run q [] remaining h ne = refl
  deficits-run q (p ∷ qs) remaining h ne = ground (
    arith,
    available-run q p.resource_class remaining h (ground arith),
    deficits-run q qs remaining h (ground arith),
  )

  -- Where pool names are distinct, a contract that names each class at most once has an allocation
  -- exactly if it has no deficit.
  pub allocate_iff_no_deficit :
      (qs : List ResourceRequirement) (remaining : Capacity)
      → no_duplicates (names pools) ≡ true
      → no_duplicates (classes qs) ≡ true
      → is_some (allocate task_id pools qs remaining) ≡ is_empty (deficits pools qs remaining)
  unfolding allocate deficits no_duplicates
  allocate_iff_no_deficit [] remaining h k = refl
  allocate_iff_no_deficit (q ∷ qs) remaining h k = ground (
    arith,
    reserve_left task_id (pools_of pools q.resource_class) q.units remaining
        (pools_of-distinct pools q.resource_class h),
    deficits-run q qs remaining h (ground arith),
    allocate_iff_no_deficit qs (run task_id pools q remaining).2 h (ground arith),
  )
