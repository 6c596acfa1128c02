-- ===== src/Base/First.antt =====
-- The first element that passes a test, in a sorted list of those that pass another.
use mathlib.Core.Path.{◌≡◌, refl, subst}
use mathlib.Core.Logic.{inl, inr}
use mathlib.Core.Bool.{Bool, true, false, ◌&&◌, Bool-set}
use mathlib.Core.List.{List, [], ◌∷◌, Perm}
use mathlib.Core.List.Perm
use native.Mathlib.Omega.{arith}
use prometheist.Base.Tests.{Bool-cases}
use prometheist.Base.Lists.{All, All-mem, All-of_mem, keep}
use prometheist.Base.Order.{Ordered, ◌<?◌}
use prometheist.Base.Sort.{
  sorted_by, sorted_by-perm, sorted_by-IsSortedBy, IsSortedBy, All-sorted_by,
}

module _ {ℓ κ} {A : Type ℓ} (P : A → Type κ) where
  pub All-perm : {xs ys : List A} → ((x : A) → IsProp (P x)) → Perm xs ys → All P xs → All P ys
  All-perm {xs} {ys} prop p h = All-of_mem P ys (λ x m. All-mem P xs prop h ((Perm.mem_iff p).1 m))

module _ {ℓ κ μ} {A : Type ℓ} (P : A → Type κ) (Q : A → Type μ) where
  pub All-pair : (xs : List A) → All P xs → All Q xs → All (λ x. P x × Q x) xs
  All-pair [] p q = tt
  All-pair (x ∷ xs) p q = ((p.0, q.0), All-pair xs p.1 q.1)

  pub All-imp : ((x : A) → P x → Q x) → (xs : List A) → All P xs → All Q xs
  All-imp f [] h = tt
  All-imp f (x ∷ xs) h = (f x h.0, All-imp f xs h.1)

module _ {ℓ} {A : Type ℓ} where
  pub All-keep {κ} : (P : A → Type κ) (q : A → Bool) (xs : List A) → All P xs → All P (keep q xs)
  unfolding keep
  All-keep P q [] h = tt
  All-keep P q (x ∷ xs) h = elim (Bool-cases (q x)) [
    | inl e ↦ rw e (h.0, All-keep P q xs h.1)
    | inr e ↦ rw e (All-keep P q xs h.1)
  ]

  pub kept : (q : A → Bool) (xs : List A) → All (λ x. q x ≡ true) (keep q xs)
  unfolding keep
  kept q [] = tt
  kept q (x ∷ xs) = elim (Bool-cases (q x)) [
    | inl e ↦ rw e (e, kept q xs)
    | inr e ↦ rw e (kept q xs)
  ]

  -- What fails together with a test on the elements kept, fails on all of them.
  pub All-kept :
      (q r : A → Bool) (xs : List A)
      → All (λ x. r x ≡ false) (keep q xs)
      → All (λ x. (q x && r x) ≡ false) xs
  unfolding keep
  All-kept q r [] h = tt
  All-kept q r (x ∷ xs) h = elim (Bool-cases (q x)) [
    | inl e ↦ let (rx, rest) = passed x (keep q xs) (rw e at h) in (rw e rx, All-kept q r xs rest)
    | inr e ↦ (rw e refl, All-kept q r xs (rw e at h))
  ]
    where
      passed :
          (y : A) (ys : List A)
          → All (λ x. r x ≡ false) (y ∷ ys)
          → (r y ≡ false) × All (λ x. r x ≡ false) ys
      passed y ys h = h

module _ {ℓ κ μ} {A : Type ℓ} {K : Type κ} ⦃o : Ordered K⦄ (key : A → K) (q r : A → Bool)
    (P : A → Type μ) where
  -- An element that passes a test, where none that passes has a smaller key.
  abbrev IsFirst : A → List A → Type μ
  IsFirst x ys = P x × (r x ≡ true) × All (λ z. (r z && key z <? key x) ≡ false) ys

  above :
      (x : A) (ys : List A)
      → All (λ z. (key z <? key x) ≡ false) ys
      → All (λ z. (r z && key z <? key x) ≡ false) ys
  above x [] h = tt
  above x (y ∷ ys) h = (ground (arith, h.0), above x ys h.1)

  cons_head : {a b : A} {us vs : List A} → a ∷ us ≡ b ∷ vs → a ≡ b
  cons_head h = cc

  keep_head :
      (ys : List A) (x : A) (zs : List A)
      → IsSortedBy key ys
      → All P ys
      → keep r ys ≡ x ∷ zs
      → IsFirst x ys
  unfolding keep
  keep_head [] x zs s p h = absurd (cc h)
  keep_head (y ∷ ys) x zs s p h = elim (Bool-cases (r y)) [
    | inl e ↦
        subst (λ v. IsFirst v (y ∷ ys)) (cons_head (rw e at h))
          (p.0, e, (ground (arith, e, o.lt_irrefl (key y)), above y ys s.0))
    | inr e ↦
        let (px, rx, below) = keep_head ys x zs s.1 p.1 (rw e at h) in
        (px, rx, (ground (arith, e), below))
  ]

  -- The first in order of those that pass both tests: what holds of all elements holds of it, and
  -- none that passes has a smaller key.
  pub first_sorted :
      (xs : List A) (x : A) (zs : List A)
      → All P (keep q xs)
      → keep r (sorted_by key (keep q xs)) ≡ x ∷ zs
      → P x × (r x ≡ true) × All (λ z. (q z && (r z && key z <? key x)) ≡ false) xs
  first_sorted xs x zs p h =
      let ys = keep q xs in
      let (px, rx, below) =
        keep_head (sorted_by key ys) x zs (sorted_by-IsSortedBy key ys) (All-sorted_by key P ys p)
          h in
      (
        px,
        rx,
        All-kept q (λ z. r z && key z <? key x) xs
            (All-perm _ (λ z. Bool-set _ _) (sorted_by-perm key ys) below),
      )
