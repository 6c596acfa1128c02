-- ===== src/Attention/Allocation/Reserve.antt =====
-- The loop over the pools of one class.
use prometheist.Base.{
  ℕ, ◌+◌, ◌-◌, ◌<◌, ◌≡◌, refl, true, false, List, [], ◌∷◌, map, String, arith, min, nat_eq, sum_of,
  All, String_eq, ℕ_eq, contains, no_duplicates, Bool-cases, inl, inr,
}
use prometheist.Attention.Resources.{Uuid, ResourceClass_eq, ExecutionResource, ResourceReservation}
use prometheist.Attention.Allocation.Defs.{
  Capacity, take_from, reserve_from, reservation_of, available, units_at,
}

abbrev pub names : List ExecutionResource → List String
names rs = map (λ r. r.resource_id) rs

abbrev pub reserved_names : List ResourceReservation → List String
reserved_names vs = map (λ v. v.resource_id) vs

-- What is taken of another pool does not count.
pub available-take_from :
    (rs : List ExecutionResource) (remaining : Capacity) (k : String) (units : ℕ)
    → contains (names rs) k ≡ false
    → available rs (take_from remaining k units) ≡ available rs remaining
unfolding available sum_of contains
available-take_from [] remaining k units h = refl
available-take_from (r ∷ rs) remaining k units h = ground (
  arith,
  available-take_from rs remaining k units,
  String_eq.beq_iff r.resource_id k,
  String_eq.beq_iff k r.resource_id,
)

module _ ⦃u : Uuid⦄ (task_id : ℕ) where
  -- What a pool loses is what is reserved of it.
  pub reserve_conserves :
      (rs : List ExecutionResource) (needed : ℕ) (remaining : Capacity) (k : String)
      → (reserve_from task_id rs needed remaining).2 k
          + units_at k (reserve_from task_id rs needed remaining).0
        ≡ remaining k
  unfolding reserve_from units_at sum_of
  reserve_conserves [] needed remaining k = omega arith
  reserve_conserves (r ∷ rs) needed remaining k =
      let reserved = min needed (remaining r.resource_id) in
      ground (
        arith,
        reserve_conserves rs needed remaining k,
        reserve_conserves rs (needed - reserved) (take_from remaining r.resource_id reserved) k,
        String_eq.beq_iff r.resource_id k,
      )

  -- What is reserved and what is still needed make up what was needed.
  pub reserve_total :
      (rs : List ExecutionResource) (needed : ℕ) (remaining : Capacity)
      → sum_of (λ v. v.units) (reserve_from task_id rs needed remaining).0
          + (reserve_from task_id rs needed remaining).1
        ≡ needed
  unfolding reserve_from sum_of
  reserve_total [] needed remaining = omega arith
  reserve_total (r ∷ rs) needed remaining =
      let reserved = min needed (remaining r.resource_id) in
      ground (
        arith,
        reserve_total rs needed remaining,
        reserve_total rs (needed - reserved) (take_from remaining r.resource_id reserved),
      )

  pub reserve_untouched :
      (rs : List ExecutionResource) (needed : ℕ) (remaining : Capacity) (k : String)
      → contains (names rs) k ≡ false
      → (reserve_from task_id rs needed remaining).2 k ≡ remaining k
  unfolding reserve_from contains
  reserve_untouched [] needed remaining k h = refl
  reserve_untouched (r ∷ rs) needed remaining k h =
      let reserved = min needed (remaining r.resource_id) in
      ground (
        arith,
        reserve_untouched rs needed remaining k,
        reserve_untouched rs (needed - reserved) (take_from remaining r.resource_id reserved) k,
      )

  -- A reservation is of one of the pools, and of at least one unit.
  pub reserve-All {κ} :
      (P : ResourceReservation → Type κ) (rs : List ExecutionResource) (needed : ℕ)
      (remaining : Capacity)
      → All (λ r. (n : ℕ) → 0 < n → P (reservation_of task_id r n)) rs
      → All P (reserve_from task_id rs needed remaining).0
  unfolding reserve_from
  reserve-All P [] needed remaining h = tt
  reserve-All P (r ∷ rs) needed remaining h =
      let reserved = min needed (remaining r.resource_id) in
      elim (Bool-cases (nat_eq reserved 0)) [
        | inl e ↦ rw e (reserve-All P rs needed remaining h.1)
        | inr e ↦ elim (Bool-cases (nat_eq (needed - reserved) 0)) [
          | inl f ↦ rw (e, f) (h.0 reserved (ground arith), tt)
          | inr f ↦
              rw (e, f)
                (
                  h.0 reserved (ground arith),
                  reserve-All P rs (needed - reserved) (take_from remaining r.resource_id reserved)
                      h.1,
                )
        ]
      ]

  -- What is still needed after the loop is what the pools together cannot give.
  pub reserve_left :
      (rs : List ExecutionResource) (needed : ℕ) (remaining : Capacity)
      → no_duplicates (names rs) ≡ true
      → (reserve_from task_id rs needed remaining).1 ≡ needed - available rs remaining
  unfolding reserve_from no_duplicates contains available sum_of
  reserve_left [] needed remaining h = omega arith
  reserve_left (r ∷ rs) needed remaining h =
      let reserved = min needed (remaining r.resource_id) in
      ground (
        arith,
        reserve_left rs needed remaining,
        reserve_left rs (needed - reserved) (take_from remaining r.resource_id reserved),
        available-take_from rs remaining r.resource_id reserved,
      )
