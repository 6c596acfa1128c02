-- ===== src/Ordering/Tests.antt =====
-- Small runs of attention_ordering.py, and its theorems at concrete work sets.
use mathlib.Core.List.{Perm}
use mathlib.Core.List.Perm
use prometheist.Base.{
  value_error_quoting, sorted_by, ℕ, ◌≡◌, refl, List, [], ◌∷◌, String, ok, err, value_error,
  text_lt, pair_lt, keep, contains, is_subset, is_disjoint, no_duplicates, discard, min_by, all,
  any, strip,
}
use prometheist.Ordering.{
  WorkItem, work_item, ids, find_item, dependencies, priority, order_loop,
  deterministic_dependency_order,
}
use prometheist.Ordering.Topology.{IsTopological, IsPrioritized, order_sound}
use prometheist.Ordering.Complete.{order_complete}
use prometheist.Ordering.Canonical.{returned, returned_order-perm}

abbrev item : String → ℕ → List String → WorkItem
item name priority needs = record { item_id = name; priority = priority; dependency_ids = needs }

-- "urgent" waits for "base"; "later" is free from the start, and still comes behind "urgent".
abbrev work_set : List WorkItem
work_set = item "later" 7 [] ∷ item "urgent" 1 ("base" ∷ []) ∷ item "base" 5 [] ∷ []

abbrev work_order : List String
work_order = "base" ∷ "urgent" ∷ "later" ∷ []

order_work_set : deterministic_dependency_order work_set ≡ ok work_order
unfolding deterministic_dependency_order order_loop find_item dependencies priority no_duplicates
    all keep is_subset is_disjoint contains discard min_by pair_lt text_lt
order_work_set = refl

cycle_is_refused :
    deterministic_dependency_order (item "a" 1 ("b" ∷ []) ∷ item "b" 1 ("a" ∷ []) ∷ [])
    ≡ err (value_error "attention work dependencies contain a cycle")
unfolding deterministic_dependency_order order_loop find_item dependencies priority no_duplicates
    all keep is_subset is_disjoint contains discard min_by pair_lt text_lt
cycle_is_refused = refl

work_item_strips : work_item " a " 3 ("b " ∷ []) ≡ ok (item "a" 3 ("b" ∷ []))
unfolding work_item strip any no_duplicates contains
work_item_strips = refl

order_sound_example :
    Perm work_order (ids work_set)
    × IsTopological work_set [] work_order
    × IsPrioritized work_set [] work_order
order_sound_example = order_sound work_set work_order order_work_set

order_complete_example :
    (result : List String) × (deterministic_dependency_order work_set ≡ ok result)
unfolding no_duplicates all is_subset contains dependencies find_item
order_complete_example =
    order_complete work_set work_order refl refl (order_sound work_set work_order order_work_set).0
      (refl, (refl, (refl, tt)))

returned_order-perm_example :
    returned (
      deterministic_dependency_order
        (item "urgent" 1 ("base" ∷ []) ∷ item "later" 7 [] ∷ item "base" 5 [] ∷ []))
    ≡ returned (deterministic_dependency_order work_set)
returned_order-perm_example = returned_order-perm _ work_set (Perm.swap _ _ _)

-- The error names the first item of the listing that has missing dependencies.
missing_test :
    deterministic_dependency_order (item "b" 1 ("y" ∷ "x" ∷ []) ∷ item "a" 1 ("z" ∷ []) ∷ [])
    ≡ err
        (value_error_quoting "attention work item has missing dependencies" ("b" ∷ "x" ∷ "y" ∷ []))
unfolding deterministic_dependency_order no_duplicates all keep is_subset contains sorted_by text_lt
missing_test = refl
