-- ===== src/Attention/Preemption/States.antt =====
-- The states of the dynamic program under the offers that its loops make.
use prometheist.Base.{
  ℕ, ◌+◌, ◌≤◌, ◌≡◌, refl, sym, ap, subst, ◌∙◌, Bool, true, false, some, List, [], ◌∷◌, ◌++◌,
  if◌then◌else◌, length, length-append, arith, Bool-cases, Option-cases, some-injective, nat_eq_iff,
  inl, inr, ◌↔◌,
}
use prometheist.Attention.Preemption.Defs.{
  States, lookup, put_state, improves, offer, extend, next_coverage, tuple_eq, selection_lt,
}

pub tuple_eq_iff : (xs ys : List ℕ) → (tuple_eq xs ys ≡ true) ↔ (xs ≡ ys)
unfolding tuple_eq
tuple_eq_iff [] [] = ground arith
tuple_eq_iff [] (y ∷ ys) = ground arith
tuple_eq_iff (x ∷ xs) [] = ground arith
tuple_eq_iff (x ∷ xs) (y ∷ ys) = ground (arith, tuple_eq_iff xs ys, nat_eq_iff x y)

pub lookup-put_state :
    (k v j : List ℕ) (states : States)
    → lookup (put_state k v states) j ≡ (if tuple_eq k j then some v else lookup states j)
unfolding lookup put_state
lookup-put_state k v j [] = refl
lookup-put_state k v j ((k', v') ∷ states) =
    ground
      (arith, lookup-put_state k v j states, tuple_eq_iff k' k, tuple_eq_iff k j, tuple_eq_iff k' j)

-- The states have a selection of at most `n` candidates with this coverage.
abbrev pub Reached : States → List ℕ → ℕ → Type 0
Reached states k n = (v : List ℕ) × (lookup states k ≡ some v) × (length v ≤ n)

selection_lt-length : (v w : List ℕ) → selection_lt v w ≡ true → length v ≤ length w
unfolding selection_lt
selection_lt-length v w h = ground arith

not-selection_lt : (v w : List ℕ) → selection_lt v w ≡ false → length w ≤ length v
unfolding selection_lt
not-selection_lt v w h = ground arith

module _ (k v : List ℕ) (states : States) where
  offer_by :
      (b : Bool)
      → improves v (lookup states k) ≡ b
      → offer k v states ≡ (if b then put_state k v states else states)
  unfolding offer
  offer_by b e = ap (λ b. if b then put_state k v states else states) e

  improves-length :
      (w : List ℕ)
      → lookup states k ≡ some w
      → improves v (lookup states k) ≡ true
      → length v ≤ length w
  unfolding improves
  improves-length w found e = selection_lt-length v w (sym (ap (improves v) found) ∙ e)

  put-own : lookup (put_state k v states) k ≡ some v
  put-own = ground (arith, lookup-put_state k v k states, tuple_eq_iff k k)

  -- An offer loses no coverage, and makes no selection longer.
  pub offer-Reached : (j : List ℕ) (n : ℕ) → Reached states j n → Reached (offer k v states) j n
  offer-Reached j n (w, found, short) = elim (Bool-cases (improves v (lookup states k))) [
    | inr no_gain ↦ subst (λ u. Reached u j n) (sym (offer_by false no_gain)) (w, found, short)
    | inl gain ↦
        subst (λ u. Reached u j n) (sym (offer_by true gain))
          (elim (Bool-cases (tuple_eq k j)) [
            | inr other ↦ (
              w,
              lookup-put_state k v j states
                  ∙ ap (λ b. if b then some v else lookup states j) other
                  ∙ found,
              short,
            )
            | inl same ↦
                let e = (tuple_eq_iff k j).0 same in
                (
                  v,
                  lookup-put_state k v j states
                      ∙ ap (λ b. if b then some v else lookup states j) same,
                  omega (arith, short, improves-length w (ap (lookup states) e ∙ found) gain),
                )
          ])
  ]

  -- What is offered is there, or a selection that is not longer.
  pub offer-own : Reached (offer k v states) k (length v)
  unfolding improves
  offer-own = elim (Bool-cases (improves v (lookup states k))) [
    | inl gain ↦
        subst (λ u. Reached u k (length v)) (sym (offer_by true gain)) (v, put-own, omega arith)
    | inr no_gain ↦ elim (Option-cases (lookup states k)) [
      | inl gone ↦ absurd (true_false (sym (ap (improves v) gone) ∙ no_gain))
      | inr (w, found) ↦
          subst (λ u. Reached u k (length v)) (sym (offer_by false no_gain))
            (w, found, not-selection_lt v w (sym (ap (improves v) found) ∙ no_gain))
    ]
  ]
    where
      true_false : true ≡ false → ⊥
      true_false h = cc

module _ (target contribution : List ℕ) (index : ℕ) where
  abbrev onward : List ℕ → List ℕ
  onward k = next_coverage target k contribution

  -- The inner loop loses no coverage of what it updates.
  pub extend-Reached :
      (states updated : States) (j : List ℕ) (n : ℕ)
      → Reached updated j n
      → Reached (extend target contribution index states updated) j n
  unfolding extend
  extend-Reached [] updated j n r = r
  extend-Reached ((k, v) ∷ states) updated j n r =
      extend-Reached states (offer (onward k) (v ++ index ∷ []) updated) j n
        (offer-Reached (onward k) (v ++ index ∷ []) updated j n r)

  pub weaker :
      (states : States) (j : List ℕ) {m n : ℕ} → m ≤ n → Reached states j m → Reached states j n
  weaker states j le (w, found, short) = (w, found, omega (arith, short, le))

  -- It reaches what is one candidate further than each of the states that it goes over.
  pub extend-onward :
      (states updated : States) (j : List ℕ) (n : ℕ)
      → Reached states j n
      → Reached (extend target contribution index states updated) (onward j) (n + 1)
  unfolding extend lookup
  extend-onward [] updated j n (w, found, short) = absurd (cc found)
  extend-onward ((k, v) ∷ states) updated j n (w, found, short) = elim (Bool-cases (tuple_eq k j)) [
    | inl same ↦
        let e = (tuple_eq_iff k j).0 same in
        let shorter : length v ≤ n =
          subst (λ x. length x ≤ n) (sym (some-injective v w (rw same at found))) short in
        extend-Reached states (offer (onward k) (v ++ index ∷ []) updated) (onward j) (n + 1) (
          subst (λ i. Reached (offer (onward k) (v ++ index ∷ []) updated) (onward i) (n + 1)) e
            (weaker _ (onward k) (omega (arith, shorter, length-append v (index ∷ [])))
              (offer-own (onward k) (v ++ index ∷ []) updated)))
    | inr other ↦
        extend-onward states (offer (onward k) (v ++ index ∷ []) updated) j n
          (w, rw other at found, short)
  ]
