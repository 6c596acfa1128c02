-- ===== src/Attention/Preemption/Minimal.antt =====
-- The victims are as few as any candidates that cover the deficits.
use prometheist.Base.{
  guarded, ok-injective, no_duplicates, ℕ_eq, ℕ, suc, ◌+◌, ◌≤◌, ◌≡◌, refl, sym, subst, ◌∙◌, Bool,
  true, false, not, Option, some, List, [], ◌∷◌, map, ok, if◌then◌else◌, length, sum_of, arith, All,
  Bool-cases, inl, inr, is_empty,
}
use prometheist.Attention.Resources.{ResourceClass, ResourceRequirement}
use prometheist.Attention.Preemption.Defs.{
  PreemptionCandidate, States, lookup, units_or_zero, contribution_of, extend, search_states,
  ordered_candidates, required_classes, best_selection, select_minimum_victims, pick,
}
use prometheist.Attention.Preemption.States.{Reached, extend-Reached, extend-onward, tuple_eq_iff}
use prometheist.Attention.Preemption.Coverage.{
  released, chosen, nonzero, capped, capped_ext, onward-capped, capped_skip, capped_zero,
  capped_full,
}

module _ (need : ResourceClass → ℕ) (classes : List ResourceClass) where
  abbrev target : List ℕ
  target = map need classes

  abbrev cover : (ResourceClass → ℕ) → List ℕ
  cover v = capped need classes v

  abbrev search : List PreemptionCandidate → ℕ → States → States
  search cs i states = search_states classes target cs i states

  moved_to :
      (states : States) (j k : List ℕ) {m n : ℕ}
      → j ≡ k
      → m ≤ n
      → Reached states j m
      → Reached states k n
  moved_to states j k e le (w, found, short) =
      (w, subst (λ x. lookup states x ≡ some w) e found, omega (arith, short, le))

  -- The states after one candidate.
  abbrev after : PreemptionCandidate → ℕ → States → States
  after p i states =
      if nonzero (contribution_of classes p)
      then extend target (contribution_of classes p) i states states
      else states

  search-after :
      (p : PreemptionCandidate) (cs : List PreemptionCandidate) (i : ℕ) (states : States)
      → search (p ∷ cs) i states ≡ search cs (i + 1) (after p i states)
  unfolding search_states
  search-after p cs i states = elim (Bool-cases (nonzero (contribution_of classes p))) [
    | inl gives ↦ rw gives refl
    | inr idle ↦ rw idle refl
  ]

  after-stays :
      (p : PreemptionCandidate) (i : ℕ) (states : States) (j : List ℕ) (n : ℕ)
      → Reached states j n
      → Reached (after p i states) j n
  after-stays p i states j n r = branch (nonzero (contribution_of classes p))
    where
      branch :
          (b : Bool)
          → Reached
              (if b then extend target (contribution_of classes p) i states states else states)
              j
              n
      branch true = extend-Reached target (contribution_of classes p) i states states j n r
      branch false = r

  after-takes :
      (p : PreemptionCandidate) (i : ℕ) (states : States) (v : ResourceClass → ℕ) (n : ℕ)
      → Reached states (cover v) n
      → Reached (after p i states) (cover (λ c. v c + units_or_zero p.released_units c)) (n + 1)
  after-takes p i states v n r = elim (Bool-cases (nonzero (contribution_of classes p))) [
    | inl gives ↦
        subst
          (λ b.
            Reached
              (if b then extend target (contribution_of classes p) i states states else states)
              (cover (λ c. v c + units_or_zero p.released_units c)) (n + 1))
          (sym gives)
          (moved_to _ _ _ (onward-capped need classes v p) (omega arith)
            (extend-onward target (contribution_of classes p) i states states (cover v) n r))
    | inr idle ↦
        subst
          (λ b.
            Reached
              (if b then extend target (contribution_of classes p) i states states else states)
              (cover (λ c. v c + units_or_zero p.released_units c)) (n + 1))
          (sym idle)
          (moved_to states _ _
            (capped_ext need classes v (λ c. v c + 0) (λ c. omega arith)
              ∙ capped_skip need classes v (λ c. 0) p idle
              ∙ capped_ext need classes (λ c. v c + (units_or_zero p.released_units c + 0))
                  (λ c. v c + units_or_zero p.released_units c) (λ c. omega arith))
            (omega arith) r)
  ]

  -- From any state, the search reaches what any of the remaining candidates add to it.
  search-Reached :
      (cs : List PreemptionCandidate) (i : ℕ) (states : States) (v : ResourceClass → ℕ) (n : ℕ)
      (mask : List Bool)
      → Reached states (cover v) n
      → Reached
          (search cs i states)
          (cover (λ c. v c + released c (chosen mask cs)))
          (n + length (chosen mask cs))
  unfolding search_states chosen released sum_of
  search-Reached [] i states v n [] r =
      moved_to states _ _ (capped_ext need classes v (λ c. v c + 0) (λ c. omega arith))
        (omega arith) r
  search-Reached [] i states v n (b ∷ bs) r =
      moved_to states _ _ (capped_ext need classes v (λ c. v c + 0) (λ c. omega arith))
        (omega arith) r
  search-Reached (p ∷ cs) i states v n [] r =
      subst (λ u. Reached u (cover (λ c. v c + 0)) (n + 0)) (sym (search-after p cs i states))
        (moved_to _ _ _
          (capped_ext need classes (λ c. v c + released c (chosen [] cs)) (λ c. v c + 0)
            (λ c. none_chosen c cs))
          (omega (arith, none_length cs))
          (search-Reached cs (i + 1) (after p i states) v n []
            (after-stays p i states (cover v) n r)))
    where
      none_chosen :
          (c : ResourceClass) (cs : List PreemptionCandidate)
          → v c + released c (chosen [] cs) ≡ v c + 0
      none_chosen c cs = refl

      none_length : (cs : List PreemptionCandidate) → length (chosen [] cs) ≡ 0
      none_length cs = refl
  search-Reached (p ∷ cs) i states v n (false ∷ bs) r =
      subst
        (λ u. Reached u (cover (λ c. v c + released c (chosen bs cs))) (n + length (chosen bs cs)))
        (sym (search-after p cs i states))
        (search-Reached cs (i + 1) (after p i states) v n bs (after-stays p i states (cover v) n r))
  search-Reached (p ∷ cs) i states v n (true ∷ bs) r =
      let add : ResourceClass → ℕ = λ c. units_or_zero p.released_units c in
      subst
        (λ u.
          Reached u (cover (λ c. v c + (add c + released c (chosen bs cs))))
            (n + suc (length (chosen bs cs))))
        (sym (search-after p cs i states))
        (moved_to _ _ _
          (capped_ext need classes (λ c. (v c + add c) + released c (chosen bs cs))
            (λ c. v c + (add c + released c (chosen bs cs))) (λ c. omega arith))
          (omega arith)
          (search-Reached cs (i + 1) (after p i states) (λ c. v c + add c) (n + 1) bs
            (after-takes p i states v n r)))

  start-Reached : Reached ((map (λ c. 0) classes, []) ∷ []) (cover (λ c. 0)) 0
  unfolding lookup
  start-Reached = (
    [],
    rw ((tuple_eq_iff (map (λ c. 0) classes) (cover (λ c. 0))).1 (sym (capped_zero need classes)))
        refl,
    omega arith,
  )

-- Where the candidates that a mask selects cover the deficits, the search finds a selection that
-- is not larger.
pub best_selection_minimal :
    (deficits : List ResourceRequirement) (candidates : List PreemptionCandidate) (mask : List Bool)
    → All
        (λ c. units_or_zero deficits c ≤ released c (chosen mask (ordered_candidates candidates)))
        (required_classes deficits)
    → (selected : List ℕ) × (best_selection deficits candidates ≡ some selected)
      × (length selected ≤ length (chosen mask (ordered_candidates candidates)))
unfolding best_selection
best_selection_minimal deficits candidates mask covers =
    let need : ResourceClass → ℕ = units_or_zero deficits in
    let classes = required_classes deficits in
    let cs = ordered_candidates candidates in
    moved_to need classes _ _ _
      (capped_ext need classes (λ c. 0 + released c (chosen mask cs))
          (λ c. released c (chosen mask cs)) (λ c. omega arith)
        ∙ capped_full need classes (λ c. released c (chosen mask cs)) covers)
      (omega arith)
      (search-Reached need classes cs 0 ((map (λ c. 0) classes, []) ∷ []) (λ c. 0) 0 mask
        (start-Reached need classes))

pick-length :
    (ordered : List PreemptionCandidate) (selected : List ℕ)
    → length (pick ordered selected) ≤ length selected
unfolding pick
pick-length ordered [] = omega arith
pick-length ordered (i ∷ is) = ground (arith, pick-length ordered is)

-- Where the function returns, and any candidates release what is missing in every class, it has
-- found victims, and they are no more than those candidates.
pub select_minimum_victims-minimal :
    (deficits : List ResourceRequirement) (candidates : List PreemptionCandidate) (mask : List Bool)
    (result : Option (List PreemptionCandidate))
    → select_minimum_victims deficits candidates ≡ ok result
    → All
        (λ c. units_or_zero deficits c ≤ released c (chosen mask (ordered_candidates candidates)))
        (required_classes deficits)
    → (victims : List PreemptionCandidate) × (result ≡ some victims)
      × (length victims ≤ length (chosen mask (ordered_candidates candidates)))
unfolding select_minimum_victims
select_minimum_victims-minimal deficits candidates mask result h covers =
    let (selected, e, short) = best_selection_minimal deficits candidates mask covers in
    let cs = ordered_candidates candidates in
    let reached =
      guarded (not (no_duplicates (map (λ c. c.assignment_id) candidates))) _ _
        (guarded (not (no_duplicates (map (λ c. c.task_id) candidates))) _ _ h) in
    elim (Bool-cases (is_empty (required_classes deficits))) [
      | inl nothing ↦ ([], sym (ok-injective (rw nothing at reached)), omega arith)
      | inr some_class ↦ (
        pick cs selected,
        sym (ok-injective (rw (some_class, e) at reached)),
        omega (arith, short, pick-length cs selected),
      )
    ]
