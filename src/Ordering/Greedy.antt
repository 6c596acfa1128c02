-- ===== src/Ordering/Greedy.antt =====
-- What the loop of `deterministic_dependency_order` does, as a relation between the identifiers
-- that remain and those that it will still place.
use mathlib.Core.List.{append_assoc, append-nil, Mem}
use prometheist.Base.{
  ℕ, zero, suc, ◌≤◌, ◌≡◌, sym, ◌∙◌, true, some, List, [], ◌∷◌, ◌++◌, String, ok, arith, inl, inr,
  Option-cases, ok-injective, length, contains, String_eq, discard, contains_iff, contains-keep,
  min_by-mem, length-discard, ℕ_eq, ℕ_ordered, String_ordered, pair_ordered,
}
use prometheist.Ordering.{WorkItem, next_item, ready, decision_key, is_ready, order_loop}

module _ (items : List WorkItem) where
  pub data Greedy : List String → List String → Type 0 where
    done : Greedy [] []
    pick :
        {remaining rest : List String} (chosen : String)
        → next_item items remaining ≡ some chosen
        → Greedy (discard chosen remaining) rest
        → Greedy remaining (chosen ∷ rest)

  -- A chosen identifier remains, and is ready.
  pub chosen_remains :
      (remaining : List String) {chosen : String}
      → next_item items remaining ≡ some chosen
      → (contains remaining chosen ≡ true) × (is_ready items remaining chosen ≡ true)
  chosen_remains remaining {chosen} h =
      let m =
        (contains_iff (ready items remaining) chosen).1
          (min_by-mem (decision_key items) (ready items remaining) h) in
      ground (arith, contains-keep (is_ready items remaining) remaining chosen, m)

  pub mem-ready :
      (remaining : List String) (k : String)
      → contains remaining k ≡ true
      → is_ready items remaining k ≡ true
      → Mem k (ready items remaining)
  mem-ready remaining k there free =
      (contains_iff (ready items remaining) k).0
        (ground (arith, contains-keep (is_ready items remaining) remaining k))

  -- With a round for each remaining identifier, a successful loop places them greedily.
  pub order_loop-Greedy :
      (rounds : ℕ) (remaining ordered : List String) {result : List String}
      → length remaining ≤ rounds
      → order_loop items rounds remaining ordered ≡ ok result
      → (rest : List String) × (result ≡ ordered ++ rest) × Greedy remaining rest
  unfolding order_loop
  order_loop-Greedy rounds [] ordered {result} fits h =
      ([], ok-injective (sym h) ∙ sym (append-nil ordered), done)
  order_loop-Greedy zero (k ∷ ks) ordered fits h = absurd (omega arith)
  order_loop-Greedy (suc rounds) (k ∷ ks) ordered fits h =
      elim (Option-cases (next_item items (k ∷ ks))) [
        | inl e ↦ absurd (cc (rw (e, order_loop) at h))
        | inr (chosen, e) ↦
            let there = chosen_remains (k ∷ ks) e in
            let fewer = length-discard chosen (k ∷ ks) there.0 in
            let (rest, eq, g) =
              order_loop-Greedy rounds (discard chosen (k ∷ ks)) (ordered ++ chosen ∷ [])
                (omega arith) (rw (e, order_loop) at h) in
            (chosen ∷ rest, eq ∙ append_assoc ordered (chosen ∷ []) rest, pick chosen e g)
      ]
