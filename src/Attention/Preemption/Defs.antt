-- ===== src/Attention/Preemption/Defs.antt =====
-- attention_preemption.py: `PreemptionCandidate`, `select_minimum_victims`, and its sort keys.
use prometheist.Base.{
  ℕ, ◌+◌, ◌≡◌, Bool, true, false, not, ◌&&◌, ◌||◌, Option, none, some, List, [], ◌∷◌, ◌++◌, map,
  Result, ok, value_error, ◌>>◌, raise_if, if◌then◌else◌, ltb, leb, min, nat_eq, length, keep, any,
  sorted_by, no_duplicates, ℕ_eq, Eq, Ordered, ℕ_ordered, pair_ordered, get_elem?, is_empty,
  ltb_irrefl, ltb_trans, ltb_total, ap, ◌↔◌, nat_eq_iff,
}
use prometheist.Attention.Resources.{
  ResourceClass, ResourceRequirement, resource_class_sort_key, ResourceClass_eq,
}
use prometheist.Attention.Metadata.{units_of}

-- A number that sorts descending: `-n` in a sort key.
pub record Descending : Type 0 where
  pub value : ℕ

abbrev pub descending_lt : Descending → Descending → Bool
descending_lt a b = ltb b.value a.value

pub descending_total :
    (a b : Descending) → descending_lt a b ≡ false → descending_lt b a ≡ false → a ≡ b
descending_total a b h k = ap (λ n. record { value = n }) (ltb_total a.value b.value k h)

pub descending_eq_iff : (a b : Descending) → (nat_eq a.value b.value ≡ true) ↔ (a ≡ b)
descending_eq_iff a b = (
  λ h. ap (λ n. record { value = n }) ((nat_eq_iff a.value b.value).0 h),
  λ e. (nat_eq_iff a.value b.value).1 (ap (λ d. d.value) e),
)

instance abbrev pub Descending_eq : Eq Descending
Descending_eq = record { beq = λ a b. nat_eq a.value b.value; beq_iff = descending_eq_iff }

instance abbrev pub Descending_ordered : Ordered Descending
Descending_ordered = record {
  lt = descending_lt;
  lt_irrefl = λ a. ltb_irrefl a.value;
  lt_trans = λ a b c h k. ltb_trans c.value b.value a.value k h;
  lt_total = descending_total;
}

-- `released_units` and the deficits are dictionaries by class, in insertion order.
pub record PreemptionCandidate : Type 0 where
  pub task_id : ℕ
  pub assignment_id : ℕ
  pub base_priority : ℕ
  pub checkpoint_required : Bool
  pub current_order : ℕ
  pub released_units : List ResourceRequirement

abbrev pub candidate_sort_key : PreemptionCandidate → Descending × (ℕ × (Descending × ℕ))
candidate_sort_key c = (
  record { value = c.base_priority },
  ((if c.checkpoint_required then 1 else 0), (record { value = c.current_order }, c.task_id)),
)

-- released_units.get(resource_class, 0)
unfoldable pub units_or_zero : List ResourceRequirement → ResourceClass → ℕ
units_or_zero rs c = elim (units_of rs c) [ none ↦ 0 | some units ↦ units ]

-- The order of tuples of numbers.
unfoldable pub tuple_lt : List ℕ → List ℕ → Bool
tuple_lt xs [] = false
tuple_lt [] (y ∷ ys) = true
tuple_lt (x ∷ xs) (y ∷ ys) = ltb x y || nat_eq x y && tuple_lt xs ys

-- _selection_key(a) < _selection_key(b)
unfoldable pub selection_lt : List ℕ → List ℕ → Bool
unfolding tuple_lt
selection_lt a b = ltb (length a) (length b) || nat_eq (length a) (length b) && tuple_lt a b

unfoldable pub tuple_eq : List ℕ → List ℕ → Bool
tuple_eq [] [] = true
tuple_eq [] (y ∷ ys) = false
tuple_eq (x ∷ xs) [] = false
tuple_eq (x ∷ xs) (y ∷ ys) = nat_eq x y && tuple_eq xs ys

-- The states of the dynamic program: from a coverage to the selection that has it.
abbrev pub States : Type 0
States = List (List ℕ × List ℕ)

-- states.get(coverage)
unfoldable pub lookup : States → List ℕ → Option (List ℕ)
unfolding tuple_eq
lookup [] k = none
lookup ((k', v) ∷ states) k = if tuple_eq k' k then some v else lookup states k

-- updated[coverage] = selected
unfoldable pub put_state : List ℕ → List ℕ → States → States
unfolding tuple_eq
put_state k v [] = (k, v) ∷ []
put_state k v ((k', v') ∷ states) =
    if tuple_eq k' k then (k', v) ∷ states else (k', v') ∷ put_state k v states

unfoldable pub improves : List ℕ → Option (List ℕ) → Bool
unfolding selection_lt
improves v none = true
improves v (some existing) = selection_lt v existing

-- The body of the inner loop, for one next coverage and selection.
unfoldable pub offer : List ℕ → List ℕ → States → States
unfolding improves lookup put_state
offer k v states = if improves v (lookup states k) then put_state k v states else states

unfoldable pub next_coverage : List ℕ → List ℕ → List ℕ → List ℕ
next_coverage [] coverage contribution = []
next_coverage (t ∷ ts) [] contribution = []
next_coverage (t ∷ ts) (x ∷ xs) [] = []
next_coverage (t ∷ ts) (x ∷ xs) (y ∷ ys) = min t (x + y) ∷ next_coverage ts xs ys

-- The inner loop over `states.items()`.
unfoldable pub extend : List ℕ → List ℕ → ℕ → States → States → States
unfolding offer next_coverage
extend target contribution index [] updated = updated
extend target contribution index ((coverage, selected) ∷ states) updated =
    extend target contribution index states
      (offer (next_coverage target coverage contribution) (selected ++ index ∷ []) updated)

abbrev pub contribution_of : List ResourceClass → PreemptionCandidate → List ℕ
contribution_of classes c = map (units_or_zero c.released_units) classes

-- The outer loop over the ordered candidates.
unfoldable pub search_states :
    List ResourceClass → List ℕ → List PreemptionCandidate → ℕ → States → States
unfolding extend
search_states classes target [] index states = states
search_states classes target (c ∷ cs) index states =
    let contribution = contribution_of classes c in
    let skipped = search_states classes target cs (index + 1) states in
    let extended =
      search_states classes target cs (index + 1)
        (extend target contribution index states states) in
    if any (λ units. not (nat_eq units 0)) contribution then extended else skipped

-- [ordered[index] for index in selected]
unfoldable pub pick : List PreemptionCandidate → List ℕ → List PreemptionCandidate
pick ordered [] = []
pick ordered (i ∷ is) =
    let rest = pick ordered is in elim (get_elem? ordered i) [ none ↦ rest | some c ↦ c ∷ rest ]

-- The classes in which units are missing.
unfoldable pub required_classes : List ResourceRequirement → List ResourceClass
required_classes deficits =
    sorted_by resource_class_sort_key
      (map (λ q. q.resource_class) (keep (λ q. leb 1 q.units) deficits))

abbrev pub ordered_candidates : List PreemptionCandidate → List PreemptionCandidate
ordered_candidates candidates = sorted_by candidate_sort_key candidates

-- What the loops find for the deficits.
unfoldable pub best_selection :
    List ResourceRequirement → List PreemptionCandidate → Option (List ℕ)
unfolding search_states lookup required_classes units_or_zero
best_selection deficits candidates =
    let classes = required_classes deficits in
    let target = map (units_or_zero deficits) classes in
    lookup
      (search_states classes target (ordered_candidates candidates) 0
        ((map (λ c. 0) classes, []) ∷ []))
      target

unfoldable pub select_minimum_victims :
    List ResourceRequirement → List PreemptionCandidate → Result (Option (List PreemptionCandidate))
unfolding best_selection pick required_classes
select_minimum_victims deficits candidates = do
  raise_if (not (no_duplicates (map (λ c. c.task_id) candidates)))
      (value_error "Preemption candidates must have unique task ids")
  raise_if (not (no_duplicates (map (λ c. c.assignment_id) candidates)))
      (value_error "Preemption candidates must have unique assignment ids")
  if is_empty (required_classes deficits)
      then ok (some [])
      else ok (elim (best_selection deficits candidates) [
        | none ↦ none
        | some selected ↦ some (pick (ordered_candidates candidates) selected)
      ])
