-- ===== src/Base/Reorder.antt =====
-- Filters and tests of a list do not depend on its order.
use mathlib.Core.Path.{◌≡◌, refl, ◌∙◌, ap}
use mathlib.Core.Logic.{∥∥₁_elim, ∥∥₁_map}
use mathlib.Core.Bool.{Bool, true, false, Bool-set}
use mathlib.Core.List.{List, ◌∷◌, Perm, Permᴰ}
use mathlib.Core.List.Permᴰ
use Prim.Native.Nat.{suc}
use native.Mathlib.Nat.{ℕ_set}
use native.Mathlib.Omega.{arith}
use prometheist.Base.Tests.{if◌then◌else◌, not}
use prometheist.Base.Equality.{Eq, ◌==◌}
use prometheist.Base.Sets.{discard}
use prometheist.Base.Lists.{keep, all, length}

module _ {ℓ} {A : Type ℓ} (p : A → Bool) where
  all-permᴰ : {xs ys : List A} → Permᴰ xs ys → all p xs ≡ all p ys
  unfolding all
  all-permᴰ Permᴰ.nil = refl
  all-permᴰ (Permᴰ.cons q d) = ground (arith, q, all-permᴰ d)
  all-permᴰ (Permᴰ.swap q r) = ground (arith, q, r)
  all-permᴰ (Permᴰ.trans d e) = all-permᴰ d ∙ all-permᴰ e

  pub all-perm : {xs ys : List A} → Perm xs ys → all p xs ≡ all p ys
  all-perm d = ∥∥₁_elim d (Bool-set _ _) all-permᴰ

  keep_cons :
      {a b : A} (c d : Bool) {xs ys : List A}
      → c ≡ d
      → a ≡ b
      → Permᴰ xs ys
      → Permᴰ (if c then a ∷ xs else xs) (if d then b ∷ ys else ys)
  keep_cons true true e q d = Permᴰ.cons q d
  keep_cons false false e q d = d
  keep_cons true false e q d = absurd (cc e)
  keep_cons false true e q d = absurd (cc e)

  keep_swap :
      (c d : Bool) (a b : A) (xs : List A)
      → Permᴰ
          (if c then a ∷ (if d then b ∷ xs else xs) else if d then b ∷ xs else xs)
          (if d then b ∷ (if c then a ∷ xs else xs) else if c then a ∷ xs else xs)
  keep_swap true true a b xs = Permᴰ.swap refl refl
  keep_swap true false a b xs = Permᴰ.refl (a ∷ xs)
  keep_swap false true a b xs = Permᴰ.refl (b ∷ xs)
  keep_swap false false a b xs = Permᴰ.refl xs

  keep-permᴰ : {xs ys : List A} → Permᴰ xs ys → Permᴰ (keep p xs) (keep p ys)
  unfolding keep
  keep-permᴰ Permᴰ.nil = Permᴰ.nil
  keep-permᴰ (Permᴰ.cons {a = a} {b = b} q d) = keep_cons (p a) (p b) (ap p q) q (keep-permᴰ d)
  keep-permᴰ (Permᴰ.swap {a = a} {b = b} {l = l} q r) =
      rw (← q) (rw (← r) (keep_swap (p a) (p b) a b (keep p l)))
  keep-permᴰ (Permᴰ.trans d e) = Permᴰ.trans (keep-permᴰ d) (keep-permᴰ e)

  pub keep-perm : {xs ys : List A} → Perm xs ys → Perm (keep p xs) (keep p ys)
  keep-perm d = ∥∥₁_map d keep-permᴰ

pub discard-perm_both {ℓ} :
    {A : Type ℓ} ⦃e : Eq A⦄ (a : A) {xs ys : List A}
    → Perm xs ys
    → Perm (discard a xs) (discard a ys)
unfolding discard
discard-perm_both a p = keep-perm (λ x. not (x == a)) p

length-permᴰ {ℓ} : {A : Type ℓ} {xs ys : List A} → Permᴰ xs ys → length xs ≡ length ys
length-permᴰ Permᴰ.nil = refl
length-permᴰ (Permᴰ.cons q d) = ap suc (length-permᴰ d)
length-permᴰ (Permᴰ.swap q r) = refl
length-permᴰ (Permᴰ.trans d e) = length-permᴰ d ∙ length-permᴰ e

pub length-perm {ℓ} : {A : Type ℓ} {xs ys : List A} → Perm xs ys → length xs ≡ length ys
length-perm d = ∥∥₁_elim d (ℕ_set _ _) length-permᴰ
