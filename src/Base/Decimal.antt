-- ===== src/Base/Decimal.antt =====
-- Python's `str` of a natural number, and concatenation of texts.
use Prim.Native.Nat.{ℕ, zero, suc, ◌/◌, ◌%◌}
use Prim.Native.String.{String, ◌++◌ as append_text}
use mathlib.Core.List.{List, [], ◌∷◌}
use prometheist.Base.Tests.{ltb, if◌then◌else◌, nat_eq}

infixr 60 ◌+++◌
abbrev pub ◌+++◌ : String → String → String
s +++ t = append_text s t

digit : ℕ → String
digit n =
    if nat_eq n 0
    then "0"
    else if nat_eq n 1
    then "1"
    else if nat_eq n 2
    then "2"
    else if nat_eq n 3
    then "3"
    else if nat_eq n 4
    then "4"
    else if nat_eq n 5
    then "5"
    else if nat_eq n 6
    then "6"
    else if nat_eq n 7
    then "7"
    else if nat_eq n 8
    then "8"
    else "9"

-- A number has no more digits than its value and one.
decimal_from : ℕ → ℕ → String → String
decimal_from zero n rest = rest
decimal_from (suc fuel) n rest =
    let longer = decimal_from fuel (n / 10) (digit (n % 10) +++ rest) in
    if ltb n 10 then digit n +++ rest else longer

-- str(n)
unfoldable pub decimal : ℕ → String
unfolding digit decimal_from
decimal n = decimal_from (suc n) n ""

-- separator.join(texts)
unfoldable pub join : String → List String → String
join separator [] = ""
join separator (t ∷ []) = t
join separator (t ∷ u ∷ rest) = t +++ separator +++ join separator (u ∷ rest)
