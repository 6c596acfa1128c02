-- ===== src/Base/Equality.antt =====
-- Equality tests as an interface, with the membership tests of Python's `in` and `set`.
use Prim.Native.Nat.{ℕ}
use Prim.Native.String.{String}
use mathlib.Core.Path.{◌≡◌, refl, sym, ◌∙◌}
use mathlib.Core.Logic.{◌↔◌, inl, inr}
use mathlib.Core.HLevel.{hedberg}
use mathlib.Core.Bool.{Bool, true, false, ◌&&◌, ◌||◌, false≢true}
use mathlib.Core.List.{List, [], ◌∷◌}
use native.Mathlib.Omega.{arith}
use text.Mathlib.Text.{◌==◌ as str_eq}
use text.Mathlib.TextEquality.{eq_iff}
use prometheist.Base.Tests.{nat_eq, nat_eq_iff, not, Bool-cases}

pub record Eq {ℓ} (Key : Type ℓ) : Type ℓ where
  pub beq : Key → Key → Bool
  pub beq_iff : (j k : Key) → (beq j k ≡ true) ↔ (j ≡ k)

infix 50 ◌==◌
abbrev pub ◌==◌ {ℓ} : {Key : Type ℓ} ⦃equality : Eq Key⦄ → Key → Key → Bool
◌==◌ ⦃equality⦄ = equality.beq

instance abbrev pub ℕ_eq : Eq ℕ
ℕ_eq = record { beq = nat_eq; beq_iff = nat_eq_iff }

instance abbrev pub String_eq : Eq String
String_eq = record { beq = str_eq; beq_iff = eq_iff }

module _ {ℓ κ} {A : Type ℓ} {B : Type κ} ⦃e : Eq A⦄ ⦃f : Eq B⦄ where
  abbrev pub pair_beq : A × B → A × B → Bool
  pair_beq (a, b) (c, d) = a == c && b == d

  pub pair_beq_iff : (x y : A × B) → (pair_beq x y ≡ true) ↔ (x ≡ y)
  pair_beq_iff (a, b) (c, d) = ground (arith, e.beq_iff a c, f.beq_iff b d)

  instance abbrev pub pair_eq : Eq (A × B)
  pair_eq = record { beq = pair_beq; beq_iff = pair_beq_iff }

module _ {ℓ} {A : Type ℓ} ⦃e : Eq A⦄ where
  pub beq_refl : (a : A) → (a == a) ≡ true
  beq_refl a = (e.beq_iff a a).1 refl

  -- a in xs
  unfoldable pub contains : List A → A → Bool
  contains [] a = false
  contains (x ∷ xs) a = x == a || contains xs a

  -- len(xs) == len(set(xs))
  unfoldable pub no_duplicates : List A → Bool
  unfolding contains
  no_duplicates [] = true
  no_duplicates (x ∷ xs) = not (contains xs x) && no_duplicates xs

  -- set(xs).issubset(ys)
  unfoldable pub is_subset : List A → List A → Bool
  unfolding contains
  is_subset [] ys = true
  is_subset (x ∷ xs) ys = contains ys x && is_subset xs ys

  -- not set(xs).intersection(ys)
  unfoldable pub is_disjoint : List A → List A → Bool
  unfolding contains
  is_disjoint [] ys = true
  is_disjoint (x ∷ xs) ys = not (contains ys x) && is_disjoint xs ys

-- A type with an equality test is a set.
pub Eq-discrete {ℓ} : {A : Type ℓ} → Eq A → Discrete A
Eq-discrete e a b = elim (Bool-cases (e.beq a b)) [
  | inl h ↦ yes ((e.beq_iff a b).0 h)
  | inr h ↦ no (λ p. false≢true (sym h ∙ (e.beq_iff a b).1 p))
]

pub String_set : IsSet String
String_set = hedberg (Eq-discrete String_eq)
