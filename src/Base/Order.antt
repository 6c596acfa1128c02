-- ===== src/Base/Order.antt =====
-- Strict orders as an interface: what `<` is on the keys that the program sorts by. Numbers (also
-- the 32 hexadecimal digits of a UUID, which compare as the number does), texts, and tuples.
use Prim.Native.Nat.{ℕ}
use Prim.Native.Char.{Char, code}
use Prim.Native.String.{String}
use mathlib.Core.Path.{◌≡◌, refl}
use mathlib.Core.Bool.{Bool, true, false, ◌&&◌, ◌||◌}
use native.Mathlib.Omega.{arith}
use text.Mathlib.TextEquality.{Char-path}
use prometheist.Base.Tests.{ltb, nat_eq}
use prometheist.Base.Equality.{Eq, ◌==◌, ℕ_eq, String_eq}

pub record Ordered {ℓ} (A : Type ℓ) : Type ℓ where
  pub lt : A → A → Bool
  pub lt_irrefl : (a : A) → lt a a ≡ false
  pub lt_trans : (a b c : A) → lt a b ≡ true → lt b c ≡ true → lt a c ≡ true
  pub lt_total : (a b : A) → lt a b ≡ false → lt b a ≡ false → a ≡ b

infix 50 ◌<?◌
abbrev pub ◌<?◌ {ℓ} : {A : Type ℓ} ⦃o : Ordered A⦄ → A → A → Bool
◌<?◌ ⦃o⦄ = o.lt

pub ltb_irrefl : (a : ℕ) → ltb a a ≡ false
ltb_irrefl a = ground arith

pub ltb_trans : (a b c : ℕ) → ltb a b ≡ true → ltb b c ≡ true → ltb a c ≡ true
ltb_trans a b c h k = ground arith

pub ltb_total : (a b : ℕ) → ltb a b ≡ false → ltb b a ≡ false → a ≡ b
ltb_total a b h k = ground arith

instance abbrev pub ℕ_ordered : Ordered ℕ
ℕ_ordered = record { lt = ltb; lt_irrefl = ltb_irrefl; lt_trans = ltb_trans; lt_total = ltb_total }

-- The order of Python's `str`: by code points, the shorter text first.
unfoldable pub text_lt : String → String → Bool
text_lt s String.[] = false
text_lt String.[] (String.◌∷◌ d t) = true
text_lt (String.◌∷◌ c s) (String.◌∷◌ d t) =
    ltb (code c) (code d) || nat_eq (code c) (code d) && text_lt s t

pub text_lt_irrefl : (s : String) → text_lt s s ≡ false
unfolding text_lt
text_lt_irrefl String.[] = refl
text_lt_irrefl (String.◌∷◌ c s) = ground (arith, text_lt_irrefl s)

pub text_lt_trans : (s t u : String) → text_lt s t ≡ true → text_lt t u ≡ true → text_lt s u ≡ true
unfolding text_lt
text_lt_trans s t String.[] h k = k
text_lt_trans s String.[] (String.◌∷◌ e u) h k = cc
text_lt_trans String.[] (String.◌∷◌ d t) (String.◌∷◌ e u) h k = refl
text_lt_trans (String.◌∷◌ c s) (String.◌∷◌ d t) (String.◌∷◌ e u) h k =
    ground (arith, text_lt_trans s t u)

text_cons_eq :
    (c d : Char) (s t : String)
    → code c ≡ code d
    → s ≡ t
    → ◌≡◌ {A = String} (String.◌∷◌ c s) (String.◌∷◌ d t)
text_cons_eq c d s t h k = cc (Char-path c d h, k)

pub text_lt_total : (s t : String) → text_lt s t ≡ false → text_lt t s ≡ false → s ≡ t
unfolding text_lt
text_lt_total String.[] String.[] h k = refl
text_lt_total String.[] (String.◌∷◌ d t) h k = cc
text_lt_total (String.◌∷◌ c s) String.[] h k = cc
text_lt_total (String.◌∷◌ c s) (String.◌∷◌ d t) h k =
    text_cons_eq c d s t (ground arith) (text_lt_total s t (ground arith) (ground arith))

instance abbrev pub String_ordered : Ordered String
String_ordered = record {
  lt = text_lt;
  lt_irrefl = text_lt_irrefl;
  lt_trans = text_lt_trans;
  lt_total = text_lt_total;
}

module _ {ℓ κ} {A : Type ℓ} {B : Type κ} ⦃e : Eq A⦄ ⦃o : Ordered A⦄ ⦃p : Ordered B⦄ where
  -- The order of Python's tuples: the first difference decides.
  unfoldable pub pair_lt : A × B → A × B → Bool
  pair_lt (a, b) (c, d) = a <? c || a == c && b <? d

  pub pair_lt_irrefl : (x : A × B) → pair_lt x x ≡ false
  unfolding pair_lt
  pair_lt_irrefl (a, b) = ground (arith, o.lt_irrefl a, p.lt_irrefl b)

  pub pair_lt_trans : (x y z : A × B) → pair_lt x y ≡ true → pair_lt y z ≡ true → pair_lt x z ≡ true
  unfolding pair_lt
  pair_lt_trans (a, b) (c, d) (f, g) h k =
      ground
        (arith, o.lt_trans a c f, p.lt_trans b d g, e.beq_iff a c, e.beq_iff c f, e.beq_iff a f)

  pub pair_lt_total : (x y : A × B) → pair_lt x y ≡ false → pair_lt y x ≡ false → x ≡ y
  unfolding pair_lt
  pair_lt_total (a, b) (c, d) h k =
      ground (arith, o.lt_total a c, p.lt_total b d, e.beq_iff a c, e.beq_iff c a)

  instance abbrev pub pair_ordered : Ordered (A × B)
  pair_ordered = record {
    lt = pair_lt;
    lt_irrefl = pair_lt_irrefl;
    lt_trans = pair_lt_trans;
    lt_total = pair_lt_total;
  }

module _ {ℓ} {A : Type ℓ} ⦃o : Ordered A⦄ where
  pub lt_asymm : (a b : A) → a <? b ≡ true → b <? a ≡ false
  lt_asymm a b h = ground (arith, o.lt_trans a b a h, o.lt_irrefl a)

  -- a ≤ b and b < c, read as tests.
  pub not-lt_trans : (a b c : A) → b <? a ≡ false → c <? b ≡ false → c <? a ≡ false
  not-lt_trans a b c h k =
      ground (arith, o.lt_trans c a b, o.lt_trans b c a, o.lt_total b a h, o.lt_total a b)
