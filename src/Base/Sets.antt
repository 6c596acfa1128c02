-- ===== src/Base/Sets.antt =====
-- What the set tests of `Equality` say of membership.
use Prim.Native.Nat.{ℕ, ◌≤◌, suc}
use mathlib.Core.Path.{◌≡◌, refl}
use mathlib.Core.Logic.{◌↔◌, inl, inr, ∥∥₁_elim}
use mathlib.Core.Logic.Or
use mathlib.Core.Bool.{Bool, true, false, ◌&&◌, ◌||◌, Bool-set}
use mathlib.Core.List.{
  List, [], ◌∷◌, ◌++◌, Mem, Perm, Permᴰ, mem-cons, mem-cons_self, mem-cons_of_mem, not-mem-nil,
}
use mathlib.Core.List.Perm
use native.Mathlib.Omega.{arith}
use prometheist.Base.Tests.{Bool-cases, not, nat_eq_iff}
use prometheist.Base.Lists.{keep, length}
use prometheist.Base.Equality.{
  Eq, ℕ_eq, ◌==◌, beq_refl, contains, no_duplicates, is_subset, is_disjoint,
}

module _ {ℓ} {A : Type ℓ} ⦃e : Eq A⦄ where
  pub contains_iff : (xs : List A) (a : A) → (contains xs a ≡ true) ↔ Mem a xs
  unfolding contains
  contains_iff [] a = (λ h. absurd (cc h), λ m. absurd (not-mem-nil m))
  contains_iff (x ∷ xs) a = (
    λ h. elim (Bool-cases (x == a)) [
      | inl p ↦ rw ((e.beq_iff x a).0 p) mem-cons_self
      | inr p ↦ mem-cons_of_mem x ((contains_iff xs a).0 (ground arith))
    ],
    λ m.
        Or.elim (Bool-set _ _) (mem-cons.0 m) (λ p. ground (arith, e.beq_iff x a))
          (λ k. ground (arith, (contains_iff xs a).1 k)),
  )

  pub contains-append :
      (xs ys : List A) (a : A) → contains (xs ++ ys) a ≡ (contains xs a || contains ys a)
  unfolding contains
  contains-append [] ys a = refl
  contains-append (x ∷ xs) ys a = ground (arith, contains-append xs ys a)

  pub contains-keep :
      (p : A → Bool) (xs : List A) (a : A) → contains (keep p xs) a ≡ (p a && contains xs a)
  unfolding contains keep
  contains-keep p [] a = ground arith
  contains-keep p (x ∷ xs) a = ground (arith, contains-keep p xs a, e.beq_iff x a)

  pub contains-perm : {xs ys : List A} (a : A) → Perm xs ys → contains xs a ≡ contains ys a
  contains-perm {xs} {ys} a p = ground (
    arith,
    λ (h : contains xs a ≡ true).
        (contains_iff ys a).1 ((Perm.mem_iff p).0 ((contains_iff xs a).0 h)),
    λ (h : contains ys a ≡ true).
        (contains_iff xs a).1 ((Perm.mem_iff p).1 ((contains_iff ys a).0 h)),
  )

  pub is_subset-contains :
      (xs ys : List A) (a : A)
      → is_subset xs ys ≡ true
      → contains xs a ≡ true
      → contains ys a ≡ true
  unfolding contains is_subset
  is_subset-contains [] ys a h k = cc
  is_subset-contains (x ∷ xs) ys a h k = ground (arith, is_subset-contains xs ys a, e.beq_iff x a)

  pub is_subset_of :
      (xs ys : List A)
      → ((a : A) → contains xs a ≡ true → contains ys a ≡ true)
      → is_subset xs ys ≡ true
  unfolding contains is_subset
  is_subset_of [] ys h = refl
  is_subset_of (x ∷ xs) ys h =
      ground (arith, h x, beq_refl x, is_subset_of xs ys (λ a k. h a (ground (arith, k))))

  pub is_disjoint-contains :
      (xs ys : List A) (a : A)
      → is_disjoint xs ys ≡ true
      → contains xs a ≡ true
      → contains ys a ≡ false
  unfolding contains is_disjoint
  is_disjoint-contains [] ys a h k = cc
  is_disjoint-contains (x ∷ xs) ys a h k =
      ground (arith, is_disjoint-contains xs ys a, e.beq_iff x a)

  pub is_disjoint_of :
      (xs ys : List A)
      → ((a : A) → contains xs a ≡ true → contains ys a ≡ false)
      → is_disjoint xs ys ≡ true
  unfolding contains is_disjoint
  is_disjoint_of [] ys h = refl
  is_disjoint_of (x ∷ xs) ys h =
      ground (arith, h x, beq_refl x, is_disjoint_of xs ys (λ a k. h a (ground (arith, k))))

  pub no_duplicates-keep :
      (p : A → Bool) (xs : List A) → no_duplicates xs ≡ true → no_duplicates (keep p xs) ≡ true
  unfolding no_duplicates keep
  no_duplicates-keep p [] h = refl
  no_duplicates-keep p (x ∷ xs) h = ground (arith, no_duplicates-keep p xs, contains-keep p xs x)

  -- xs.remove(a), of a set
  unfoldable pub discard : A → List A → List A
  unfolding keep
  discard a = keep (λ x. not (x == a))

  pub contains-discard :
      (a b : A) (xs : List A) → contains (discard a xs) b ≡ (not (b == a) && contains xs b)
  unfolding discard
  contains-discard a b xs = contains-keep (λ x. not (x == a)) xs b

  pub discard_absent : (a : A) (xs : List A) → contains xs a ≡ false → discard a xs ≡ xs
  unfolding discard contains
  discard_absent a [] h = refl
  discard_absent a (x ∷ xs) h = ground (arith, discard_absent a xs)

  -- Where the elements are distinct, `remove` takes one away.
  pub discard-perm :
      (a : A) (xs : List A)
      → no_duplicates xs ≡ true
      → contains xs a ≡ true
      → Perm xs (a ∷ discard a xs)
  unfolding discard contains no_duplicates
  discard-perm a [] h k = absurd (cc k)
  discard-perm a (x ∷ xs) h k = elim (Bool-cases (x == a)) [
    | inl p ↦
        let same = (e.beq_iff x a).0 p in
        rw p (rw same (rw (discard_absent a xs (ground arith)) (Perm.refl (a ∷ xs))))
    | inr p ↦
        let rest = discard-perm a xs (ground arith) (ground arith) in
        rw p (Perm.trans (Perm.cons x rest) (Perm.swap a x (discard a xs)))
  ]

  no_duplicates-permᴰ :
      {xs ys : List A} → Permᴰ xs ys → no_duplicates xs ≡ true → no_duplicates ys ≡ true
  unfolding no_duplicates contains
  no_duplicates-permᴰ Permᴰ.nil h = h
  no_duplicates-permᴰ (Permᴰ.cons {a = a} {b = b} {l₁ = l} {l₂ = m} q p) h =
      ground (arith, no_duplicates-permᴰ p, contains-perm a ∣ p ∣₁, q)
  no_duplicates-permᴰ (Permᴰ.swap {a = a} {b = b} {a' = c} {b' = d} {l = l} q r) h =
      ground (arith, q, r, e.beq_iff a b, e.beq_iff b a)
  no_duplicates-permᴰ (Permᴰ.trans p q) h = no_duplicates-permᴰ q (no_duplicates-permᴰ p h)

  pub no_duplicates-perm :
      {xs ys : List A} → Perm xs ys → no_duplicates xs ≡ true → no_duplicates ys ≡ true
  no_duplicates-perm p h = ∥∥₁_elim p (Bool-set _ _) (λ d. no_duplicates-permᴰ d h)

  length-keep-le : (p : A → Bool) (xs : List A) → length (keep p xs) ≤ length xs
  unfolding keep
  length-keep-le p [] = omega arith
  length-keep-le p (x ∷ xs) = ground (arith, length-keep-le p xs)

  pub length-discard :
      (a : A) (xs : List A) → contains xs a ≡ true → suc (length (discard a xs)) ≤ length xs
  unfolding discard contains
  length-discard a [] h = absurd (cc h)
  length-discard a (x ∷ xs) h =
      ground (arith, length-keep-le (λ y. not (y == a)) xs, length-discard a xs)

  pub is_subset-perm :
      (xs : List A) {ys zs : List A} → Perm ys zs → is_subset xs ys ≡ is_subset xs zs
  unfolding is_subset
  is_subset-perm [] p = refl
  is_subset-perm (x ∷ xs) p = ground (arith, contains-perm x p, is_subset-perm xs p)

  pub is_disjoint-perm :
      (xs : List A) {ys zs : List A} → Perm ys zs → is_disjoint xs ys ≡ is_disjoint xs zs
  unfolding is_disjoint
  is_disjoint-perm [] p = refl
  is_disjoint-perm (x ∷ xs) p = ground (arith, contains-perm x p, is_disjoint-perm xs p)

  pub no_duplicates_perm-eq : {xs ys : List A} → Perm xs ys → no_duplicates xs ≡ no_duplicates ys
  no_duplicates_perm-eq {xs} {ys} p = ground (
    arith,
    λ (h : no_duplicates xs ≡ true). no_duplicates-perm p h,
    λ (h : no_duplicates ys ≡ true). no_duplicates-perm (Perm.symm p) h,
  )

  pub discard_only : (a : A) → discard a (a ∷ []) ≡ []
  unfolding discard
  discard_only a = ground (arith, beq_refl a)

-- A new element at the end.
pub no_duplicates-snoc :
    (ks : List ℕ) (k : ℕ)
    → no_duplicates ks ≡ true
    → contains ks k ≡ false
    → no_duplicates (ks ++ k ∷ []) ≡ true
unfolding no_duplicates contains
no_duplicates-snoc [] k d h = refl
no_duplicates-snoc (x ∷ ks) k d h =
    ground (
      arith,
      no_duplicates-snoc ks k,
      contains-append ks (k ∷ []) x,
      nat_eq_iff x k,
      nat_eq_iff k x,
    )

pub is_subset-snoc :
    (ks : List ℕ) (k : ℕ) (js : List ℕ)
    → is_subset ks js ≡ true
    → contains js k ≡ true
    → is_subset (ks ++ k ∷ []) js ≡ true
unfolding is_subset
is_subset-snoc [] k js h m = ground arith
is_subset-snoc (x ∷ ks) k js h m = ground (arith, is_subset-snoc ks k js)
