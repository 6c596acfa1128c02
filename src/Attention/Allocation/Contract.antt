-- ===== src/Attention/Allocation/Contract.antt =====
-- `_allocate_task_resources` as a whole: what an allocation takes, that it meets the contract
-- exactly, and when there is none.
use prometheist.Base.{
  ℕ, ◌+◌, ◌≡◌, ap, Bool, true, false, Option, none, some, List, [], ◌∷◌, ◌++◌, map, String,
  if◌then◌else◌, arith, keep, sum_of, All, ◌==◌, String_eq, ℕ_eq, Bool-cases, Option-cases, inl,
  inr, sum_of-append,
}
use prometheist.Attention.Resources.{
  Uuid, ResourceClass, ResourceClass_eq, ExecutionResource, ResourceRequirement,
  ResourceReservation,
}
use prometheist.Attention.Allocation.Defs.{Capacity, reserve_from, units_at, allocate, pools_of}
use prometheist.Attention.Allocation.Reserve.{reserve_conserves, reserve_total, reserve-All}

abbrev pub classes : List ResourceRequirement → List ResourceClass
classes qs = map (λ q. q.resource_class) qs

-- What reservations, or requirements, come to in one class.
unfoldable pub units_in : ResourceClass → List ResourceReservation → ℕ
units_in c = sum_of (λ v. if v.resource_class == c then v.units else 0)

unfoldable pub required_in : ResourceClass → List ResourceRequirement → ℕ
required_in c = sum_of (λ q. if q.resource_class == c then q.units else 0)

abbrev pub is_some {ℓ} : {A : Type ℓ} → Option A → Bool
is_some none = false
is_some (some a) = true

pub units_at-append :
    (k : String) (vs ws : List ResourceReservation)
    → units_at k (vs ++ ws) ≡ units_at k vs + units_at k ws
unfolding units_at
units_at-append k vs ws = sum_of-append _ vs ws

pub units_in-append :
    (c : ResourceClass) (vs ws : List ResourceReservation)
    → units_in c (vs ++ ws) ≡ units_in c vs + units_in c ws
unfolding units_in
units_in-append c vs ws = sum_of-append _ vs ws

-- Reservations of one class count in that class, and in no other.
units_in_class :
    (c d : ResourceClass) (vs : List ResourceReservation)
    → All (λ v. v.resource_class ≡ d) vs
    → units_in c vs ≡ (if d == c then sum_of (λ v. v.units) vs else 0)
unfolding units_in sum_of
units_in_class c d [] h = ground arith
units_in_class c d (v ∷ vs) h = ground (arith, units_in_class c d vs h.1, h.0)

pools_of-class :
    (pools : List ExecutionResource) (d : ResourceClass)
    → All (λ r. r.resource_class ≡ d) (pools_of pools d)
unfolding keep
pools_of-class [] d = tt
pools_of-class (r ∷ rs) d = elim (Bool-cases (r.resource_class == d)) [
  | inl e ↦ rw e ((ResourceClass_eq.beq_iff r.resource_class d).0 e, pools_of-class rs d)
  | inr e ↦ rw e (pools_of-class rs d)
]

All-map {ℓ κ μ} :
    {A : Type ℓ} {P : A → Type κ} {Q : A → Type μ} (xs : List A)
    → ((x : A) → P x → Q x)
    → All P xs
    → All Q xs
All-map [] f h = tt
All-map (x ∷ xs) f h = (f x h.0, All-map xs f h.1)

module _ ⦃u : Uuid⦄ (task_id : ℕ) (pools : List ExecutionResource) where
  abbrev pub run : ResourceRequirement → Capacity → List ResourceReservation × ℕ × Capacity
  run q remaining = reserve_from task_id (pools_of pools q.resource_class) q.units remaining

  allocate-cons :
      (q : ResourceRequirement) (qs : List ResourceRequirement) (remaining : Capacity)
      {made : List ResourceReservation} {after : Capacity}
      → allocate task_id pools (q ∷ qs) remaining ≡ some (made, after)
      → (later : List ResourceReservation) × ((run q remaining).1 ≡ 0)
        × (allocate task_id pools qs (run q remaining).2 ≡ some (later, after))
        × (made ≡ (run q remaining).0 ++ later)
  unfolding allocate
  allocate-cons q qs remaining h =
      elim (Option-cases (allocate task_id pools qs (run q remaining).2)) [
        | inl e ↦ absurd (ground (arith, e))
        | inr ((later, rest), e) ↦ (later, ground (arith, e), ground (arith, e), ground (arith, e))
      ]

  -- An allocation that is returned takes of each pool what it reserves there, and nothing else.
  pub allocate_conserves :
      (qs : List ResourceRequirement) (remaining : Capacity) {made : List ResourceReservation}
      {after : Capacity}
      → allocate task_id pools qs remaining ≡ some (made, after)
      → (k : String) → after k + units_at k made ≡ remaining k
  allocate_conserves [] remaining h k = unfold allocate units_at sum_of in ground arith
  allocate_conserves (q ∷ qs) remaining h k =
      let (later, full, rest, e) = allocate-cons q qs remaining h in
      let first = (run q remaining).0 in
      omega (
        arith,
        reserve_conserves task_id (pools_of pools q.resource_class) q.units remaining k,
        allocate_conserves qs (run q remaining).2 rest k,
        units_at-append k first later,
        ap (units_at k) e,
      )

  run_class :
      (q : ResourceRequirement) (remaining : Capacity)
      → All (λ v. v.resource_class ≡ q.resource_class) (run q remaining).0
  run_class q remaining =
      reserve-All task_id _ (pools_of pools q.resource_class) q.units remaining (
        All-map (pools_of pools q.resource_class) (λ r e n pos. e)
          (pools_of-class pools q.resource_class))

  -- An allocation that is returned has exactly the units that the contract asks for, in each class.
  pub allocate_exact :
      (qs : List ResourceRequirement) (remaining : Capacity) {made : List ResourceReservation}
      {after : Capacity}
      → allocate task_id pools qs remaining ≡ some (made, after)
      → (c : ResourceClass) → units_in c made ≡ required_in c qs
  unfolding required_in sum_of
  allocate_exact [] remaining h c = unfold allocate units_in in ground arith
  allocate_exact (q ∷ qs) remaining h c =
      let (later, full, rest, e) = allocate-cons q qs remaining h in
      let first = (run q remaining).0 in
      ground (
        arith,
        units_in_class c q.resource_class first (run_class q remaining),
        reserve_total task_id (pools_of pools q.resource_class) q.units remaining,
        allocate_exact qs (run q remaining).2 rest c,
        units_in-append c first later,
        ap (units_in c) e,
        full,
      )
