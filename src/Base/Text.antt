-- ===== src/Base/Text.antt =====
-- Python's `str.strip`.
use Prim.Native.Nat.{ℕ}
use Prim.Native.Char.{code}
use Prim.Native.String.{String}
use mathlib.Core.Path.{◌≡◌, refl}
use mathlib.Core.Bool.{Bool, true, false, ◌&&◌, ◌||◌}
use prometheist.Base.Tests.{leb, nat_eq, if◌then◌else◌}

-- str.isspace of one code point
unfoldable pub is_space : ℕ → Bool
is_space c =
    leb 9 c && leb c 13
    || leb 28 c && leb c 32
    || nat_eq c 133
    || nat_eq c 160
    || nat_eq c 5760
    || leb 8192 c && leb c 8202
    || nat_eq c 8232
    || nat_eq c 8233
    || nat_eq c 8239
    || nat_eq c 8287
    || nat_eq c 12288

abbrev pub is_blank : String → Bool
is_blank String.[] = true
is_blank (String.◌∷◌ c s) = false

abbrev text_tail : String → String
text_tail String.[] = String.[]
text_tail (String.◌∷◌ c s) = s

strip_left : String → String
strip_left String.[] = String.[]
strip_left (String.◌∷◌ c s) =
    let rest = strip_left s in if is_space (code c) then rest else String.◌∷◌ c s

strip_right : String → String
strip_right String.[] = String.[]
strip_right (String.◌∷◌ c s) =
    let rest = strip_right s in
    if is_blank rest && is_space (code c) then String.[] else String.◌∷◌ c rest

-- value.strip()
unfoldable pub strip : String → String
unfolding strip_left strip_right is_space
strip s = strip_left (strip_right s)

strip_test : strip " a b  " ≡ "a b"
unfolding strip
strip_test = refl
