-- ===== src/Attention/Preemption/Covers.antt =====
-- The victims release what is missing, in each class.
use prometheist.Base.{
  ℕ, suc, ◌+◌, ◌≤◌, ◌≡◌, refl, sym, ap, subst, ◌∙◌, Bool, true, false, not, some, List, [], ◌∷◌,
  ◌++◌, map, ok, if◌then◌else◌, nat_eq, sum_of, sum_of-append, any, arith, All, Bool-cases,
  Option-cases, inl, inr, is_empty, get_elem?, guarded, ok-injective, no_duplicates, ℕ_eq,
  some-injective,
}
use prometheist.Attention.Resources.{ResourceClass, ResourceRequirement}
use prometheist.Attention.Preemption.Defs.{
  PreemptionCandidate, States, lookup, put_state, offer, units_or_zero, next_coverage,
  contribution_of, extend, search_states, ordered_candidates, required_classes, best_selection,
  select_minimum_victims, pick, tuple_eq, improves,
}
use prometheist.Attention.Preemption.States.{tuple_eq_iff}
use prometheist.Attention.Preemption.Coverage.{
  released, capped, capped_ext, onward-capped, capped_zero, capped_covers,
}

module _ (P : List ℕ × List ℕ → Type 0) where
  All-put_state :
      (k v : List ℕ) (states : States) → P (k, v) → All P states → All P (put_state k v states)
  unfolding put_state
  All-put_state k v [] p h = (p, tt)
  All-put_state k v ((k', v') ∷ states) p h = elim (Bool-cases (tuple_eq k' k)) [
    | inl same ↦ rw same (subst (λ j. P (j, v)) (sym ((tuple_eq_iff k' k).0 same)) p, h.1)
    | inr other ↦ rw other (h.0, All-put_state k v states p h.1)
  ]

  All-offer : (k v : List ℕ) (states : States) → P (k, v) → All P states → All P (offer k v states)
  unfolding offer
  All-offer k v states p h = branch (improves v (lookup states k))
    where
      branch : (b : Bool) → All P (if b then put_state k v states else states)
      branch true = All-put_state k v states p h
      branch false = h

  All-extend :
      (target contribution : List ℕ) (index : ℕ) (states updated : States)
      → ((k v : List ℕ) → P (k, v) → P (next_coverage target k contribution, v ++ index ∷ []))
      → All P states
      → All P updated
      → All P (extend target contribution index states updated)
  unfolding extend
  All-extend target contribution index [] updated step h u = u
  All-extend target contribution index ((k, v) ∷ states) updated step h u =
      All-extend target contribution index states
        (offer (next_coverage target k contribution) (v ++ index ∷ []) updated) step h.1
        (All-offer (next_coverage target k contribution) (v ++ index ∷ []) updated (step k v h.0) u)

  lookup-All : (states : States) (k v : List ℕ) → All P states → lookup states k ≡ some v → P (k, v)
  unfolding lookup
  lookup-All [] k v h e = absurd (cc e)
  lookup-All ((k', v') ∷ states) k v h e = elim (Bool-cases (tuple_eq k' k)) [
    | inl same ↦
        subst (λ j. P (j, v)) ((tuple_eq_iff k' k).0 same)
          (subst (λ w. P (k', w)) (some-injective v' v (rw same at e)) h.0)
    | inr other ↦ lookup-All states k v h.1 (rw other at e)
  ]

pick-append :
    (ordered : List PreemptionCandidate) (is js : List ℕ)
    → pick ordered (is ++ js) ≡ pick ordered is ++ pick ordered js
unfolding pick
pick-append ordered [] js = refl
pick-append ordered (i ∷ is) js = ground (arith, pick-append ordered is js)

module _ (need : ResourceClass → ℕ) (classes : List ResourceClass)
    (ordered : List PreemptionCandidate) where
  -- A state says what its selection releases.
  abbrev IsTrue : List ℕ × List ℕ → Type 0
  IsTrue (k, v) = k ≡ capped need classes (λ c. released c (pick ordered v))

  pick_one :
      (p : PreemptionCandidate) (i : ℕ) (c : ResourceClass)
      → get_elem? ordered i ≡ some p
      → released c (pick ordered (i ∷ [])) ≡ units_or_zero p.released_units c
  unfolding released pick sum_of
  pick_one p i c found = ground (arith, found)

  released-snoc :
      (p : PreemptionCandidate) (i : ℕ) (v : List ℕ) (c : ResourceClass)
      → get_elem? ordered i ≡ some p
      → released c (pick ordered (v ++ i ∷ []))
        ≡ released c (pick ordered v) + units_or_zero p.released_units c
  unfolding released
  released-snoc p i v c found =
      ap (released c) (pick-append ordered v (i ∷ []))
      ∙ sum_of-append (λ q. units_or_zero q.released_units c) (pick ordered v)
          (pick ordered (i ∷ []))
      ∙ ap (λ n. released c (pick ordered v) + n) (pick_one p i c found)

  onward-IsTrue :
      (p : PreemptionCandidate) (i : ℕ) (k v : List ℕ)
      → get_elem? ordered i ≡ some p
      → IsTrue (k, v)
      → IsTrue (next_coverage (map need classes) k (contribution_of classes p), v ++ i ∷ [])
  unfolding released pick sum_of
  onward-IsTrue p i k v found e =
      ap (λ k. next_coverage (map need classes) k (contribution_of classes p)) e
      ∙ onward-capped need classes (λ c. released c (pick ordered v)) p
      ∙ capped_ext need classes _ _ (λ c. sym (released-snoc p i v c found))

  search-IsTrue :
      (cs : List PreemptionCandidate) (i : ℕ) (states : States)
      → ((j : ℕ) → get_elem? ordered (i + j) ≡ get_elem? cs j)
      → All IsTrue states
      → All IsTrue (search_states classes (map need classes) cs i states)
  unfolding search_states
  search-IsTrue [] i states at h = h
  search-IsTrue (p ∷ cs) i states at h =
      let here : get_elem? ordered i ≡ some p =
        subst (λ j. get_elem? ordered j ≡ some p) (omega arith) (at 0) in
      let later : (j : ℕ) → get_elem? ordered (i + 1 + j) ≡ get_elem? cs j =
        λ j. subst (λ k. get_elem? ordered k ≡ get_elem? cs j) (omega arith) (at (suc j)) in
      elim (Bool-cases (any (λ units. not (nat_eq units 0)) (contribution_of classes p))) [
        | inl gives ↦ rw gives (
            search-IsTrue cs (i + 1) _ later (
              All-extend IsTrue (map need classes) (contribution_of classes p) i states states
                (λ k v. onward-IsTrue p i k v here) h h))
        | inr idle ↦ rw idle (search-IsTrue cs (i + 1) states later h)
      ]

  start-IsTrue : All IsTrue ((map (λ c. 0) classes, []) ∷ [])
  unfolding released pick sum_of
  start-IsTrue = (sym (capped_zero need classes), tt)

-- What is selected covers the deficits.
pub best_selection-covers :
    (deficits : List ResourceRequirement) (candidates : List PreemptionCandidate)
    (selected : List ℕ)
    → best_selection deficits candidates ≡ some selected
    → All
        (λ c. units_or_zero deficits c ≤ released c (pick (ordered_candidates candidates) selected))
        (required_classes deficits)
unfolding best_selection
best_selection-covers deficits candidates selected e =
    let need : ResourceClass → ℕ = units_or_zero deficits in
    let classes = required_classes deficits in
    let cs = ordered_candidates candidates in
    let start : States = (map (λ c. 0) classes, []) ∷ [] in
    capped_covers need classes (λ c. released c (pick cs selected))
      (lookup-All (IsTrue need classes cs) (search_states classes (map need classes) cs 0 start)
        (map need classes) selected
        (search-IsTrue need classes cs cs 0 start (λ j. ap (get_elem? cs) (omega arith))
          (start-IsTrue need classes cs))
        e)

-- Victims that the function returns release at least what is missing, in each class.
pub select_minimum_victims-covers :
    (deficits : List ResourceRequirement) (candidates victims : List PreemptionCandidate)
    → select_minimum_victims deficits candidates ≡ ok (some victims)
    → All (λ c. units_or_zero deficits c ≤ released c victims) (required_classes deficits)
unfolding select_minimum_victims
select_minimum_victims-covers deficits candidates victims h =
    let cs = ordered_candidates candidates in
    let reached =
      guarded (not (no_duplicates (map (λ c. c.assignment_id) candidates))) _ _
        (guarded (not (no_duplicates (map (λ c. c.task_id) candidates))) _ _ h) in
    elim (Bool-cases (is_empty (required_classes deficits))) [
      | inl nothing ↦ subst (All _) (sym (is_empty-nil (required_classes deficits) nothing)) tt
      | inr some_class ↦ elim (Option-cases (best_selection deficits candidates)) [
        | inl none_found ↦ absurd (cc (rw (some_class, none_found) at reached))
        | inr (selected, e) ↦
            subst
              (λ vs.
                All (λ c. units_or_zero deficits c ≤ released c vs) (required_classes deficits))
              (some-injective (pick cs selected) victims
                (ok-injective (rw (some_class, e) at reached)))
              (best_selection-covers deficits candidates selected e)
      ]
    ]
  where
    is_empty-nil : (cs : List ResourceClass) → is_empty cs ≡ true → cs ≡ []
    is_empty-nil [] e = refl
    is_empty-nil (c ∷ cs) e = absurd (cc e)
