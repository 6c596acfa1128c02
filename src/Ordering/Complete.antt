-- ===== src/Ordering/Complete.antt =====
-- `deterministic_dependency_order` finds an order whenever there is one.
use mathlib.Core.List.{Mem, Perm, not-mem-nil}
use prometheist.Base.{
  ℕ, zero, suc, ◌≤◌, ◌≡◌, ◌≢◌, refl, subst, ◌∙◌, true, false, List, [], ◌∷◌, ◌++◌, String, ok,
  arith, Option-cases, Bool-cases, inl, inr, length, contains, no_duplicates, discard, beq_refl,
  String_eq, ℕ_eq, ℕ_ordered, String_ordered, pair_ordered, min_by-none, all, length-map,
  length-discard, contains-perm, contains-discard, is_disjoint_of, is_subset-contains,
}
use prometheist.Ordering.{
  WorkItem, ids, dependencies, decision_key, ready, next_item, has_known_dependencies,
  deterministic_dependency_order, order_loop,
}
use prometheist.Ordering.Greedy.{chosen_remains, mem-ready}
use prometheist.Ordering.Topology.{IsTopological}

module _ (items : List WorkItem) where
  -- The first identifier of a topological plan that still remains is ready.
  some_ready :
      (remaining before plan : List String) (k : String)
      → ((j : String) → contains before j ≡ true → contains remaining j ≡ false)
      → IsTopological items before plan
      → contains plan k ≡ true
      → contains remaining k ≡ true
      → ready items remaining ≢ []
  some_ready remaining before [] k out t there left = absurd (unfold contains in cc there)
  some_ready remaining before (j ∷ plan) k out t there left =
      elim (Bool-cases (contains remaining j)) [
        | inl still ↦ λ none_ready. not-mem-nil (
            subst (Mem j) none_ready (
              mem-ready items remaining j still (
                is_disjoint_of (dependencies items j) remaining
                  λ d e. out d (is_subset-contains (dependencies items j) before d t.0 e))))
        | inr gone ↦
            some_ready remaining (j ∷ before) plan k
              (λ d e. unfold contains in ground (arith, out d, String_eq.beq_iff j d)) t.1
              (unfold contains in ground (arith, String_eq.beq_iff j k)) left
      ]

  module _ (plan : List String) (t : IsTopological items [] plan) where
    order_loop_total :
        (rounds : ℕ) (remaining ordered : List String)
        → length remaining ≤ rounds
        → ((k : String) → contains remaining k ≡ true → contains plan k ≡ true)
        → (result : List String) × (order_loop items rounds remaining ordered ≡ ok result)
    unfolding order_loop
    order_loop_total rounds [] ordered fits h = (ordered, refl)
    order_loop_total zero (k ∷ ks) ordered fits h = absurd (omega arith)
    order_loop_total (suc rounds) (k ∷ ks) ordered fits h =
        elim (Option-cases (next_item items (k ∷ ks))) [
          | inl e ↦
              let here : contains (k ∷ ks) k ≡ true =
                unfold contains in ground (arith, beq_refl k) in
              absurd (
                some_ready (k ∷ ks) [] plan k (λ j b. absurd (unfold contains in cc b)) t (h k here)
                  here (min_by-none (decision_key items) (ready items (k ∷ ks)) e))
          | inr (chosen, e) ↦
              let (there, _) = chosen_remains items (k ∷ ks) e in
              let fewer = length-discard chosen (k ∷ ks) there in
              let (result, run) =
                order_loop_total rounds (discard chosen (k ∷ ks)) (ordered ++ chosen ∷ [])
                  (omega arith)
                  λ j left. h j (ground (arith, contains-discard chosen j (k ∷ ks))) in
              (result, rw (e, order_loop) run)
        ]

-- A work set with distinct identifiers and known dependencies that has a topological order at all
-- is ordered: the function returns a result, so its loop neither stops nor reports a cycle.
pub order_complete :
    (items : List WorkItem) (plan : List String)
    → no_duplicates (ids items) ≡ true
    → all (has_known_dependencies items) items ≡ true
    → Perm plan (ids items)
    → IsTopological items [] plan
    → (result : List String) × (deterministic_dependency_order items ≡ ok result)
unfolding deterministic_dependency_order
order_complete items plan distinct known p t =
    let fits : length (ids items) ≤ length items =
      omega (arith, length-map (λ (item : WorkItem). item.item_id) items) in
    let (result, run) =
      order_loop_total items plan t (length items) (ids items) [] fits
        λ k e. contains-perm k p ∙ e in
    (result, ground (arith, run))
