-- ===== src/Ordering/Topology.antt =====
-- The result of `deterministic_dependency_order`: every identifier once, dependencies first, and
-- at each place the runnable identifier with the least key.
use mathlib.Core.List.{Perm}
use mathlib.Core.List.Perm
use prometheist.Base.{
  ◌≡◌, refl, sym, subst, true, false, ◌||◌, List, [], ◌∷◌, String, ok, arith, length, length-map,
  contains, no_duplicates, is_subset, ◌==◌, String_eq, ℕ_eq, discard, contains-discard,
  discard-perm, no_duplicates-keep, contains_iff, is_subset-contains, is_subset_of,
  is_disjoint-contains, is_disjoint_of, all, not, All, All-of_mem, ◌<?◌, not-below_min, ℕ_ordered,
  String_ordered, pair_ordered,
}
use prometheist.Ordering.{
  WorkItem, ids, find_item, dependencies, decision_key, is_ready, ready, has_known_dependencies,
  deterministic_dependency_order, order_loop,
}
use prometheist.Ordering.Greedy.{Greedy, done, pick, chosen_remains, mem-ready, order_loop-Greedy}

-- Each identifier stands behind its dependencies: those are among `seen`, which grows on the way.
abbrev pub IsTopological : List WorkItem → List String → List String → Type 0
IsTopological items seen [] = Unit
IsTopological items seen (k ∷ ks) =
    (is_subset (dependencies items k) seen ≡ true) × IsTopological items (k ∷ seen) ks

-- At each place, no later identifier whose dependencies are placed has a smaller key.
abbrev pub IsPrioritized : List WorkItem → List String → List String → Type 0
IsPrioritized items seen [] = Unit
IsPrioritized items seen (k ∷ ks) =
    All
      (λ j.
        is_subset (dependencies items j) seen ≡ true
        → (decision_key items j <? decision_key items k) ≡ false)
      ks
    × IsPrioritized items (k ∷ seen) ks

dependencies_known :
    (items known : List WorkItem) (k : String)
    → all (has_known_dependencies known) items ≡ true
    → is_subset (dependencies items k) (ids known) ≡ true
unfolding dependencies find_item all is_subset
dependencies_known [] known k h = refl
dependencies_known (item ∷ items) known k h = ground (arith, dependencies_known items known k)

module _ (items : List WorkItem) (known : all (has_known_dependencies items) items ≡ true) where
  -- What is placed and what remains are distinct, and together they are all identifiers.
  pub record IsSplit (seen remaining : List String) : Type 0 where
    pub distinct : no_duplicates remaining ≡ true
    pub apart : (k : String) → contains seen k ≡ true → contains remaining k ≡ false
    pub covered :
        (k : String)
        → contains (ids items) k ≡ true
        → (contains seen k || contains remaining k) ≡ true

  pub IsSplit-pick :
      (seen remaining : List String) (chosen : String)
      → contains remaining chosen ≡ true
      → IsSplit seen remaining
      → IsSplit (chosen ∷ seen) (discard chosen remaining)
  unfolding contains
  IsSplit-pick seen remaining chosen h s = record {
    distinct = unfold discard in no_duplicates-keep (λ x. not (x == chosen)) remaining s.distinct;
    apart = λ k e. ground (
      arith,
      contains-discard chosen k remaining,
      s.apart k,
      String_eq.beq_iff k chosen,
      String_eq.beq_iff chosen k,
    );
    covered = λ k e. ground (
      arith,
      contains-discard chosen k remaining,
      s.covered k e,
      String_eq.beq_iff k chosen,
      String_eq.beq_iff chosen k,
    );
  }

  -- The test of the loop says that the dependencies are placed.
  ready→placed :
      (seen remaining : List String) (k : String)
      → IsSplit seen remaining
      → is_ready items remaining k ≡ true
      → is_subset (dependencies items k) seen ≡ true
  ready→placed seen remaining k s h = is_subset_of (dependencies items k) seen λ d e. ground (
    arith,
    s.covered d (
        is_subset-contains (dependencies items k) (ids items) d
          (dependencies_known items items k known) e),
    is_disjoint-contains (dependencies items k) remaining d h e,
  )

  pub placed→ready :
      (seen remaining : List String) (k : String)
      → IsSplit seen remaining
      → is_subset (dependencies items k) seen ≡ true
      → is_ready items remaining k ≡ true
  placed→ready seen remaining k s h =
      is_disjoint_of (dependencies items k) remaining
        λ d e. s.apart d (is_subset-contains (dependencies items k) seen d h e)

  Greedy-perm :
      {remaining rest : List String}
      → Greedy items remaining rest
      → {seen : List String} → IsSplit seen remaining
      → Perm rest remaining
  Greedy-perm done s = Perm.refl []
  Greedy-perm (pick {remaining = remaining} chosen e g) {seen} s =
      let (there, _) = chosen_remains items remaining e in
      Perm.trans (Perm.cons chosen (Greedy-perm g (IsSplit-pick seen remaining chosen there s)))
        (Perm.symm (discard-perm chosen remaining s.distinct there))

  Greedy-IsTopological :
      {remaining rest : List String}
      → Greedy items remaining rest
      → {seen : List String} → IsSplit seen remaining
      → IsTopological items seen rest
  Greedy-IsTopological done s = tt
  Greedy-IsTopological (pick {remaining = remaining} chosen e g) {seen} s =
      let (there, free) = chosen_remains items remaining e in
      (
        ready→placed seen remaining chosen s free,
        Greedy-IsTopological g (IsSplit-pick seen remaining chosen there s),
      )

  Greedy-IsPrioritized :
      {remaining rest : List String}
      → Greedy items remaining rest
      → {seen : List String} → IsSplit seen remaining
      → IsPrioritized items seen rest
  Greedy-IsPrioritized done s = tt
  Greedy-IsPrioritized (pick {remaining = remaining} {rest = rest} chosen e g) {seen} s =
      let (there, free) = chosen_remains items remaining e in
      let s' = IsSplit-pick seen remaining chosen there s in
      (
        All-of_mem _ rest λ j m placed.
            let still =
              (contains_iff (discard chosen remaining) j).1
                ((Perm.mem_iff (Greedy-perm g s')).0 m) in
            not-below_min (decision_key items) (ready items remaining) e (
              mem-ready items remaining j (ground (arith, contains-discard chosen j remaining))
                (placed→ready seen remaining j s placed)),
        Greedy-IsPrioritized g s',
      )

pub IsSplit-start :
    (items : List WorkItem) (known : all (has_known_dependencies items) items ≡ true)
    → no_duplicates (ids items) ≡ true
    → IsSplit items known [] (ids items)
unfolding contains
IsSplit-start items known h = record { distinct = h; apart = λ k e. cc; covered = λ k e. e }

-- A successful call has passed both checks, and its result is the loop's.
pub order-eq-ok :
    (items : List WorkItem) {result : List String}
    → deterministic_dependency_order items ≡ ok result
    → (no_duplicates (ids items) ≡ true)
      × (all (has_known_dependencies items) items ≡ true)
      × (order_loop items (length items) (ids items) [] ≡ ok result)
unfolding deterministic_dependency_order
order-eq-ok items h = ground arith

pub order-Greedy :
    (items : List WorkItem) {result : List String}
    → deterministic_dependency_order items ≡ ok result
    → Greedy items (ids items) result
order-Greedy items h =
    let (_, _, run) = order-eq-ok items h in
    let (rest, e, g) =
      order_loop-Greedy items (length items) (ids items) []
        (omega (arith, length-map (λ (item : WorkItem). item.item_id) items)) run in
    subst (Greedy items (ids items)) (sym e) g

-- An order that the function returns holds every identifier of the work set once, places every item
-- behind all of its dependencies, and at each place has, of the identifiers whose dependencies are
-- placed before it, the one with the least (priority, item_id).
pub order_sound :
    (items : List WorkItem) (result : List String)
    → deterministic_dependency_order items ≡ ok result
    → Perm result (ids items) × IsTopological items [] result × IsPrioritized items [] result
order_sound items result h =
    let (distinct, known, _) = order-eq-ok items h in
    let s = IsSplit-start items known distinct in
    let g = order-Greedy items h in
    (
      Greedy-perm items known g s,
      Greedy-IsTopological items known g s,
      Greedy-IsPrioritized items known g s,
    )
