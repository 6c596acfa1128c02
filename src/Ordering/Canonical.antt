-- ===== src/Ordering/Canonical.antt =====
-- The order in which the items of a work set are given has no effect.
use mathlib.Core.Path.{fun_ext}
use mathlib.Core.Logic.{∥∥₁_elim}
use mathlib.Core.List.{Perm, Permᴰ, cons≢nil}
use mathlib.Core.List.Perm
use prometheist.Base.{
  Option, none, some, ok, err, ℕ, zero, suc, ◌≡◌, refl, sym, ap, ◌∙◌, true, List, [], ◌∷◌, ◌++◌,
  String, Result, arith, Option-cases, Bool-cases, inl, inr, length, contains, no_duplicates,
  discard, String_eq, ℕ_eq, ℕ_ordered, String_ordered, pair_ordered, all, keep, min_by, min_by-perm,
  all-perm, keep-perm, discard-perm_both, length-perm, String_set, is_subset-perm, is_disjoint-perm,
  no_duplicates-perm, no_duplicates_perm-eq,
}
use prometheist.Ordering.{
  WorkItem, priority_of, ids, find_item, dependencies, priority, decision_key, is_ready, ready,
  next_item, has_known_dependencies, deterministic_dependency_order, order_loop,
}

find_item-permᴰ :
    {xs ys : List WorkItem}
    → Permᴰ xs ys
    → no_duplicates (ids xs) ≡ true
    → (k : String) → find_item xs k ≡ find_item ys k
unfolding find_item no_duplicates contains
find_item-permᴰ Permᴰ.nil h k = refl
find_item-permᴰ (Permᴰ.cons {a = a} {b = b} q d) h k =
    ground (arith, q, find_item-permᴰ d (ground arith) k)
find_item-permᴰ (Permᴰ.swap {a = a} {b = b} q r) h k = ground (
  arith,
  q,
  r,
  String_eq.beq_iff a.item_id k,
  String_eq.beq_iff b.item_id k,
  String_eq.beq_iff b.item_id a.item_id,
)
find_item-permᴰ (Permᴰ.trans d e) h k =
    find_item-permᴰ d h k
    ∙ find_item-permᴰ e (no_duplicates-perm (Perm.map (λ (i : WorkItem). i.item_id) ∣ d ∣₁) h) k

module _ (xs ys : List WorkItem) (same : find_item xs ≡ find_item ys) where
  decision_key-eq : decision_key xs ≡ decision_key ys
  unfolding priority
  decision_key-eq = λ i k. (priority_of (same i k), k)

  is_ready-perm :
      {left right : List String} → Perm left right → is_ready xs left ≡ is_ready ys right
  unfolding dependencies
  is_ready-perm p = fun_ext λ k. rw same (is_disjoint-perm _ p)

  next_item-perm :
      {left right : List String} → Perm left right → next_item xs left ≡ next_item ys right
  next_item-perm {left} {right} p =
      ap (λ key. min_by key (ready xs left)) decision_key-eq
      ∙ ap (λ test. min_by (decision_key ys) (keep test left)) (is_ready-perm p)
      ∙ min_by-perm (decision_key ys) (λ a b e. ap (λ (x : ℕ × String). x.1) e)
          (keep-perm (is_ready ys right) p)

  order_loop-perm :
      (rounds : ℕ) (left right ordered : List String)
      → Perm left right
      → order_loop xs rounds left ordered ≡ order_loop ys rounds right ordered
  unfolding order_loop
  order_loop-perm rounds [] [] ordered p = refl
  order_loop-perm rounds (k ∷ ks) [] ordered p = absurd (cons≢nil (Perm.eq-nil p))
  order_loop-perm rounds [] (j ∷ js) ordered p = absurd (cons≢nil (Perm.eq-nil (Perm.symm p)))
  order_loop-perm zero (k ∷ ks) (j ∷ js) ordered p = refl
  order_loop-perm (suc rounds) (k ∷ ks) (j ∷ js) ordered p =
      let same_pick = next_item-perm p in
      elim (Option-cases (next_item xs (k ∷ ks))) [
        | inl e ↦ rw (e, sym same_pick ∙ e, order_loop)
        | inr (chosen, e) ↦
            rw (e, sym same_pick ∙ e, order_loop)
              (order_loop-perm rounds (discard chosen (k ∷ ks)) (discard chosen (j ∷ js))
                (ordered ++ chosen ∷ []) (discard-perm_both chosen p))
      ]

has_known-perm :
    {xs ys : List WorkItem} → Perm xs ys → has_known_dependencies xs ≡ has_known_dependencies ys
has_known-perm p =
    fun_ext λ item. is_subset-perm item.dependency_ids (Perm.map (λ (i : WorkItem). i.item_id) p)

-- The order, where one is returned.
abbrev pub returned : Result (List String) → Option (List String)
returned (ok order) = some order
returned (err e) = none

returned_set : IsSet (Option (List String))
returned_set = hlevel String_set

returned_order-permᴰ :
    (xs ys : List WorkItem)
    → Permᴰ xs ys
    → returned (deterministic_dependency_order xs) ≡ returned (deterministic_dependency_order ys)
unfolding deterministic_dependency_order
returned_order-permᴰ xs ys d =
    let p : Perm xs ys = ∣ d ∣₁ in
    let names = Perm.map (λ (i : WorkItem). i.item_id) p in
    let known =
      ap (λ test. all test xs) (has_known-perm p) ∙ all-perm (has_known_dependencies ys) p in
    elim (Bool-cases (no_duplicates (ids xs))) [
      | inl distinct ↦
          let same = fun_ext (find_item-permᴰ d distinct) in
          ground (
            arith,
            distinct,
            known,
            no_duplicates_perm-eq names,
            length-perm p,
            order_loop-perm xs ys same (length xs) (ids xs) (ids ys) [] names,
          )
      | inr twice ↦ ground (arith, twice, no_duplicates_perm-eq names)
    ]

-- Of two listings of one work set, either both raise, or both return, and the same order.
pub returned_order-perm :
    (xs ys : List WorkItem)
    → Perm xs ys
    → returned (deterministic_dependency_order xs) ≡ returned (deterministic_dependency_order ys)
returned_order-perm xs ys p = ∥∥₁_elim p (returned_set _ _) (returned_order-permᴰ xs ys)
