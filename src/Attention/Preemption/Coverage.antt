-- ===== src/Attention/Preemption/Coverage.antt =====
-- Coverages: what selected candidates release of each class, capped at what is missing.
use prometheist.Base.{
  ℕ, ◌+◌, ◌≤◌, ◌≡◌, refl, Bool, false, not, List, [], ◌∷◌, map, if◌then◌else◌, min, nat_eq, sum_of,
  any, arith, All, nat_eq_iff,
}
use prometheist.Attention.Resources.{ResourceClass}
use prometheist.Attention.Preemption.Defs.{
  PreemptionCandidate, units_or_zero, next_coverage, contribution_of,
}

-- What candidates release of one class.
unfoldable pub released : ResourceClass → List PreemptionCandidate → ℕ
released c = sum_of (λ p. units_or_zero p.released_units c)

-- The candidates that a mask selects: every subset of them is one.
unfoldable pub chosen : List Bool → List PreemptionCandidate → List PreemptionCandidate
chosen [] cs = []
chosen (b ∷ bs) [] = []
chosen (b ∷ bs) (c ∷ cs) = let rest = chosen bs cs in if b then c ∷ rest else rest

abbrev pub nonzero : List ℕ → Bool
nonzero contribution = any (λ units. not (nat_eq units 0)) contribution

module _ (need : ResourceClass → ℕ) where
  abbrev pub capped : List ResourceClass → (ResourceClass → ℕ) → List ℕ
  capped classes v = map (λ c. min (need c) (v c)) classes

  pub capped_ext :
      (classes : List ResourceClass) (v w : ResourceClass → ℕ)
      → ((c : ResourceClass) → v c ≡ w c)
      → capped classes v ≡ capped classes w
  capped_ext [] v w e = refl
  capped_ext (c ∷ classes) v w e = ground (arith, e c, capped_ext classes v w e)

  -- One candidate more.
  pub onward-capped :
      (classes : List ResourceClass) (v : ResourceClass → ℕ) (p : PreemptionCandidate)
      → next_coverage (map need classes) (capped classes v) (contribution_of classes p)
        ≡ capped classes (λ c. v c + units_or_zero p.released_units c)
  unfolding next_coverage
  onward-capped [] v p = refl
  onward-capped (c ∷ classes) v p = ground (arith, onward-capped classes v p)

  -- A candidate that releases nothing that is missing.
  pub capped_skip :
      (classes : List ResourceClass) (v w : ResourceClass → ℕ) (p : PreemptionCandidate)
      → nonzero (contribution_of classes p) ≡ false
      → capped classes (λ c. v c + w c)
        ≡ capped classes (λ c. v c + (units_or_zero p.released_units c + w c))
  unfolding any
  capped_skip [] v w p h = refl
  capped_skip (c ∷ classes) v w p h =
      ground (arith, nat_eq_iff (units_or_zero p.released_units c) 0, capped_skip classes v w p)

  pub capped_zero : (classes : List ResourceClass) → capped classes (λ c. 0) ≡ map (λ c. 0) classes
  capped_zero [] = refl
  capped_zero (c ∷ classes) = ground (arith, capped_zero classes)

  -- A coverage is the target exactly if nothing is missing.
  pub capped_full :
      (classes : List ResourceClass) (v : ResourceClass → ℕ)
      → All (λ c. need c ≤ v c) classes
      → capped classes v ≡ map need classes
  capped_full [] v h = refl
  capped_full (c ∷ classes) v h = ground (arith, h.0, capped_full classes v h.1)

  pub capped_covers :
      (classes : List ResourceClass) (v : ResourceClass → ℕ)
      → map need classes ≡ capped classes v
      → All (λ c. need c ≤ v c) classes
  capped_covers [] v h = tt
  capped_covers (c ∷ classes) v h =
      (omega (arith, cons_head h), capped_covers classes v (cons_tail h))
    where
      cons_head : {x y : ℕ} {xs ys : List ℕ} → x ∷ xs ≡ y ∷ ys → x ≡ y
      cons_head h = cc

      cons_tail : {x y : ℕ} {xs ys : List ℕ} → x ∷ xs ≡ y ∷ ys → xs ≡ ys
      cons_tail h = cc
