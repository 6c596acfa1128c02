-- ===== src/Base/Sort.antt =====
-- Python's stable `sorted(xs, key=...)`, and `min(xs, key=...)`.
use Prim.Native.Nat.{ℕ, ◌+◌}
use mathlib.Core.Path.{◌≡◌, refl, sym, ap, subst, ◌∙◌}
use mathlib.Core.Logic.{◌⊎◌, inl, inr}
use mathlib.Core.Logic.Or
use mathlib.Core.Bool.{false, Bool-set}
use mathlib.Core.Option.{Option, none, some, some-injective}
use mathlib.Core.List.{List, [], ◌∷◌, Perm, Mem, mem-cons, mem-cons_self, mem-cons_of_mem}
use mathlib.Core.List.Perm
use native.Mathlib.Omega.{arith}
use prometheist.Base.Tests.{if◌then◌else◌, Bool-cases, Option-cases}
use prometheist.Base.Lists.{All, All-mem, sum_of}
use prometheist.Base.Order.{Ordered, ◌<?◌, lt_asymm, not-lt_trans}

module _ {ℓ κ} {A : Type ℓ} {K : Type κ} ⦃o : Ordered K⦄ (key : A → K) where
  insert_by : A → List A → List A
  insert_by x [] = x ∷ []
  insert_by x (y ∷ ys) =
      let rest = insert_by x ys in if key y <? key x then y ∷ rest else x ∷ y ∷ ys

  unfoldable pub sorted_by : List A → List A
  unfolding insert_by
  sorted_by [] = []
  sorted_by (x ∷ xs) = insert_by x (sorted_by xs)

  -- No element has a smaller key than one that stands before it.
  abbrev pub IsSortedBy : List A → Type κ
  IsSortedBy [] = Unit
  IsSortedBy (x ∷ xs) = All (λ y. (key y <? key x) ≡ false) xs × IsSortedBy xs

  lesser : A → A → A
  lesser best x = if key x <? key best then x else best

  min_from : A → List A → A
  min_from best [] = best
  min_from best (x ∷ xs) = min_from (lesser best x) xs

  -- min(xs, key=...), with none where Python raises on an empty sequence
  unfoldable pub min_by : List A → Option A
  unfolding min_from lesser
  min_by [] = none
  min_by (x ∷ xs) = some (min_from x xs)

module _ {ℓ κ} {A : Type ℓ} {K : Type κ} ⦃o : Ordered K⦄ (key : A → K) where
  insert_by-perm : (x : A) (ys : List A) → Perm (insert_by key x ys) (x ∷ ys)
  unfolding insert_by
  insert_by-perm x [] = Perm.refl (x ∷ [])
  insert_by-perm x (y ∷ ys) =
      let later = Perm.trans (Perm.cons y (insert_by-perm x ys)) (Perm.swap x y ys) in
      ground (arith, later, Perm.refl (x ∷ y ∷ ys))

  pub sorted_by-perm : (xs : List A) → Perm (sorted_by key xs) xs
  unfolding sorted_by
  sorted_by-perm [] = Perm.refl []
  sorted_by-perm (x ∷ xs) =
      Perm.trans (insert_by-perm x (sorted_by key xs)) (Perm.cons x (sorted_by-perm xs))

  All-insert_by {μ} :
      (P : A → Type μ) (x : A) (ys : List A) → P x → All P ys → All P (insert_by key x ys)
  unfolding insert_by
  All-insert_by P x [] p h = (p, tt)
  All-insert_by P x (y ∷ ys) p h = elim (Bool-cases (key y <? key x)) [
    | inl e ↦ rw e (h.0, All-insert_by P x ys p h.1)
    | inr e ↦ rw e (p, h)
  ]

  pub All-sorted_by {μ} : (P : A → Type μ) (xs : List A) → All P xs → All P (sorted_by key xs)
  unfolding sorted_by
  All-sorted_by P [] h = h
  All-sorted_by P (x ∷ xs) h = All-insert_by P x (sorted_by key xs) h.0 (All-sorted_by P xs h.1)

  sum_of-insert_by :
      (f : A → ℕ) (x : A) (ys : List A) → sum_of f (insert_by key x ys) ≡ f x + sum_of f ys
  unfolding sum_of insert_by
  sum_of-insert_by f x [] = omega arith
  sum_of-insert_by f x (y ∷ ys) = ground (arith, sum_of-insert_by f x ys)

  pub sum_of-sorted_by : (f : A → ℕ) (xs : List A) → sum_of f (sorted_by key xs) ≡ sum_of f xs
  unfolding sum_of sorted_by
  sum_of-sorted_by f [] = omega arith
  sum_of-sorted_by f (x ∷ xs) =
      omega (arith, sum_of-insert_by f x (sorted_by key xs), sum_of-sorted_by f xs)

  All-above :
      (x y : A) (ys : List A)
      → (key y <? key x) ≡ false
      → All (λ z. (key z <? key y) ≡ false) ys
      → All (λ z. (key z <? key x) ≡ false) ys
  All-above x y [] e h = h
  All-above x y (z ∷ ys) e h = (not-lt_trans (key x) (key y) (key z) e h.0, All-above x y ys e h.1)

  insert_by-IsSortedBy :
      (x : A) (ys : List A) → IsSortedBy key ys → IsSortedBy key (insert_by key x ys)
  unfolding insert_by
  insert_by-IsSortedBy x [] s = (tt, tt)
  insert_by-IsSortedBy x (y ∷ ys) s = elim (Bool-cases (key y <? key x)) [
    | inl e ↦ rw e (
      All-insert_by (λ z. (key z <? key y) ≡ false) x ys (lt_asymm (key y) (key x) e) s.0,
      insert_by-IsSortedBy x ys s.1,
    )
    | inr e ↦ rw e ((e, All-above x y ys e s.0), s)
  ]

  pub sorted_by-IsSortedBy : (xs : List A) → IsSortedBy key (sorted_by key xs)
  unfolding sorted_by
  sorted_by-IsSortedBy [] = tt
  sorted_by-IsSortedBy (x ∷ xs) =
      insert_by-IsSortedBy x (sorted_by key xs) (sorted_by-IsSortedBy xs)

  lesser-cases : (b x : A) → (lesser key b x ≡ b) ⊎ (lesser key b x ≡ x)
  unfolding lesser
  lesser-cases b x = ground arith

  lesser_left : (b x : A) → (key b <? key (lesser key b x)) ≡ false
  unfolding lesser
  lesser_left b x = elim (Bool-cases (key x <? key b)) [
    | inl e ↦ rw e (lt_asymm (key x) (key b) e)
    | inr e ↦ rw e (o.lt_irrefl (key b))
  ]

  lesser_right : (b x : A) → (key x <? key (lesser key b x)) ≡ false
  unfolding lesser
  lesser_right b x = elim (Bool-cases (key x <? key b)) [
    | inl e ↦ rw e (o.lt_irrefl (key x))
    | inr e ↦ rw e e
  ]

  min_from-mem : (b : A) (xs : List A) → Mem (min_from key b xs) (b ∷ xs)
  unfolding min_from
  min_from-mem b [] = mem-cons_self
  min_from-mem b (x ∷ xs) =
      Or.elim squash₁ (mem-cons.0 (min_from-mem (lesser key b x) xs))
        (λ h. elim (lesser-cases b x) [
          | inl e ↦ rw h (rw e mem-cons_self)
          | inr e ↦ rw h (rw e (mem-cons_of_mem b mem-cons_self))
        ])
        (λ h. mem-cons_of_mem b (mem-cons_of_mem x h))

  min_from-least :
      (b : A) (xs : List A)
      → ((key b <? key (min_from key b xs)) ≡ false)
        × All (λ z. (key z <? key (min_from key b xs)) ≡ false) xs
  unfolding min_from
  min_from-least b [] = (o.lt_irrefl (key b), tt)
  min_from-least b (x ∷ xs) =
      let c = lesser key b x in
      let (low, rest) = min_from-least c xs in
      let m = min_from key c xs in
      (
        not-lt_trans (key m) (key c) (key b) low (lesser_left b x),
        (not-lt_trans (key m) (key c) (key x) low (lesser_right b x), rest),
      )

  -- What `min` returns is an element, and no element has a smaller key.
  pub min_by-mem : (xs : List A) {m : A} → min_by key xs ≡ some m → Mem m xs
  unfolding min_by
  min_by-mem [] h = cc
  min_by-mem (x ∷ xs) {m} h =
      subst (λ y. Mem y (x ∷ xs)) (some-injective (min_from key x xs) m h) (min_from-mem x xs)

  pub min_by-least :
      (xs : List A) {m : A} → min_by key xs ≡ some m → All (λ z. (key z <? key m) ≡ false) xs
  unfolding min_by
  min_by-least [] h = cc
  min_by-least (x ∷ xs) {m} h =
      subst (λ y. All (λ z. (key z <? key y) ≡ false) (x ∷ xs))
        (some-injective (min_from key x xs) m h) (min_from-least x xs)

  pub not-below_min :
      (xs : List A) {m x : A} → min_by key xs ≡ some m → Mem x xs → (key x <? key m) ≡ false
  not-below_min xs {m} h = All-mem _ xs (λ z. Bool-set _ _) (min_by-least xs h)

  -- The order of the elements has no effect on the least key.
  pub min_by_unique :
      (xs ys : List A) {m n : A}
      → Perm xs ys
      → min_by key xs ≡ some m
      → min_by key ys ≡ some n
      → key m ≡ key n
  min_by_unique xs ys {m} {n} p h k =
      o.lt_total (key m) (key n) (not-below_min ys k ((Perm.mem_iff p).0 (min_by-mem xs h)))
        (not-below_min xs h ((Perm.mem_iff p).1 (min_by-mem ys k)))

  pub min_by-none : (xs : List A) → min_by key xs ≡ none → xs ≡ []
  unfolding min_by
  min_by-none [] h = refl
  min_by-none (x ∷ xs) h = cc

  min_by-none-perm : {xs ys : List A} → Perm xs ys → min_by key xs ≡ none → min_by key ys ≡ none
  unfolding min_by
  min_by-none-perm {xs} {ys} p h =
      let empty = Perm.nil-eq (subst (λ zs. Perm zs ys) (min_by-none xs h) p) in
      subst (λ zs. min_by key zs ≡ none) empty refl

  -- The order of the elements has no effect on what `min` finds, where keys tell them apart.
  pub min_by-perm :
      ((a b : A) → key a ≡ key b → a ≡ b)
      → {xs ys : List A} → Perm xs ys
      → min_by key xs ≡ min_by key ys
  min_by-perm apart {xs} {ys} p = elim (Option-cases (min_by key xs)) [
    | inl e ↦ e ∙ sym (min_by-none-perm p e)
    | inr (m, e) ↦ elim (Option-cases (min_by key ys)) [
      | inl k ↦ min_by-none-perm (Perm.symm p) k ∙ sym k
      | inr (n, k) ↦ e ∙ ap some (apart m n (min_by_unique xs ys p e k)) ∙ sym k
    ]
  ]

module _ {ℓ κ} {A : Type ℓ} {K : Type κ} ⦃o : Ordered K⦄ (key : A → K) where
  insert_by-least :
      (x : A) (ys : List A) → All (λ y. (key y <? key x) ≡ false) ys → insert_by key x ys ≡ x ∷ ys
  unfolding insert_by
  insert_by-least x [] h = refl
  insert_by-least x (y ∷ ys) h = rw h.0 refl

  pub sorted_by-sorted : (xs : List A) → IsSortedBy key xs → sorted_by key xs ≡ xs
  unfolding sorted_by
  sorted_by-sorted [] s = refl
  sorted_by-sorted (x ∷ xs) s =
      ap (insert_by key x) (sorted_by-sorted xs s.1) ∙ insert_by-least x xs s.0
