-- ===== src/Worker/Store/Evolves.antt =====
-- How claims change in place: a claim that is not active stays as it is, and none changes its
-- identity.
use prometheist.Base.{
  ℕ, ◌+◌, ◌≤◌, ◌≡◌, refl, sym, subst, Bool, true, false, ◌&&◌, some, [], ◌∷◌, String, leb, ◌==◌,
  ℕ_eq, String_eq, arith, Bool-cases, inl, inr, All,
}
use prometheist.Worker.Protocol.{WorkerClaim}
use prometheist.Worker.Store.Tables.{
  Rows, is_row, find_row, update_rows, is_active, claims_conflict,
}
use prometheist.Worker.Store.Load.{max_worker_lease_seconds}
use prometheist.Worker.Store.Leases.{seconds}
use prometheist.Worker.Store.Claiming.{expire_claims}

-- A lease ends at most an hour after the last sign of life.
abbrev pub IsBounded : WorkerClaim → Type 0
IsBounded c = c.lease_expires_at ≤ c.last_heartbeat_at + seconds max_worker_lease_seconds

abbrev pub ClaimEvolves : String × WorkerClaim → String × WorkerClaim → Type 0
ClaimEvolves (k, c) (j, d) =
    (j ≡ k)
    × (d.claim_id ≡ c.claim_id)
    × (d.step_id ≡ c.step_id)
    × (d.assignment_id ≡ c.assignment_id)
    × (d.attempt ≡ c.attempt)
    × (is_active c ≡ false → d ≡ c)
    × (IsBounded c → IsBounded d)

abbrev pub Evolves : Rows WorkerClaim → Rows WorkerClaim → Type 0
Evolves [] [] = Unit
Evolves [] (y ∷ ys) = ⊥
Evolves (x ∷ xs) [] = ⊥
Evolves (x ∷ xs) (y ∷ ys) = ClaimEvolves x y × Evolves xs ys

pub ClaimEvolves-refl : (x : String × WorkerClaim) → ClaimEvolves x x
ClaimEvolves-refl x = (refl, refl, refl, refl, refl, (λ h. refl), λ b. b)

pub Evolves-refl : (xs : Rows WorkerClaim) → Evolves xs xs
Evolves-refl [] = tt
Evolves-refl (x ∷ xs) = (ClaimEvolves-refl x, Evolves-refl xs)

pub expire_claims-Evolves : (at : ℕ) (xs : Rows WorkerClaim) → Evolves xs (expire_claims at xs)
unfolding expire_claims
expire_claims-Evolves at [] = tt
expire_claims-Evolves at ((k, c) ∷ xs) =
    elim (Bool-cases (is_active c && leb c.lease_expires_at at)) [
      | inl e ↦ rw e (
        (refl, refl, refl, refl, refl, (λ h. absurd (cc (e, h))), λ b. b),
        expire_claims-Evolves at xs,
      )
      | inr e ↦ rw e (ClaimEvolves-refl (k, c), expire_claims-Evolves at xs)
    ]

-- No two rows break a unique constraint.
abbrev pub AreDistinct : Rows WorkerClaim → Type 0
AreDistinct [] = Unit
AreDistinct (x ∷ xs) = All (λ y. claims_conflict x y ≡ false) xs × AreDistinct xs

-- Rows with one key and one claim id are one row.
conflict_of_id :
    (key : String) (claim_id : ℕ) (x y : String × WorkerClaim)
    → is_row key (λ c. c.claim_id == claim_id) x ≡ true
    → is_row key (λ c. c.claim_id == claim_id) y ≡ true
    → claims_conflict x y ≡ true
conflict_of_id key claim_id (k, c) (j, d) h i = ground (
  arith,
  String_eq.beq_iff k key,
  String_eq.beq_iff j key,
  String_eq.beq_iff k j,
  ℕ_eq.beq_iff c.claim_id claim_id,
  ℕ_eq.beq_iff d.claim_id claim_id,
  ℕ_eq.beq_iff c.claim_id d.claim_id,
)

module _ (key : String) (claim_id : ℕ) where
  abbrev chosen : WorkerClaim → Bool
  chosen c = c.claim_id == claim_id

  -- Where a row is chosen, no other one is.
  others_not_chosen :
      (x : String × WorkerClaim) (xs : Rows WorkerClaim)
      → is_row key chosen x ≡ true
      → All (λ y. claims_conflict x y ≡ false) xs
      → All (λ y. is_row key chosen y ≡ false) xs
  others_not_chosen x [] h d = tt
  others_not_chosen x (y ∷ ys) h d = (
    elim (Bool-cases (is_row key chosen y)) [
      | inl e ↦ absurd (cc (conflict_of_id key claim_id x y h e, d.0))
      | inr e ↦ e
    ],
    others_not_chosen x ys h d.1,
  )

  update_rows_none :
      (f : WorkerClaim → WorkerClaim) (xs : Rows WorkerClaim)
      → All (λ y. is_row key chosen y ≡ false) xs
      → Evolves xs (update_rows key chosen f xs)
  unfolding update_rows
  update_rows_none f [] h = tt
  update_rows_none f (x ∷ xs) h = rw h.0 (ClaimEvolves-refl x, update_rows_none f xs h.1)

  -- An update of the one row with a claim id, which was found to be active.
  pub update_rows-Evolves :
      (f : WorkerClaim → WorkerClaim) (xs : Rows WorkerClaim) (c : WorkerClaim)
      → AreDistinct xs
      → find_row key chosen xs ≡ some c
      → ((k : String) → ClaimEvolves (k, c) (k, f c))
      → Evolves xs (update_rows key chosen f xs)
  unfolding update_rows find_row
  update_rows-Evolves f [] c d found evolve = tt
  update_rows-Evolves f ((k, x) ∷ xs) c d found evolve =
      elim (Bool-cases (is_row key chosen (k, x))) [
        | inl e ↦
            let same : x ≡ c = cc (rw e at found) in
            rw e (
              subst (λ y. ClaimEvolves (k, y) (k, f y)) (sym same) (evolve k),
              update_rows_none f xs (others_not_chosen (k, x) xs e d.0),
            )
        | inr e ↦
            rw e (ClaimEvolves-refl (k, x), update_rows-Evolves f xs c d.1 (rw e at found) evolve)
      ]
