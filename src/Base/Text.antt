-- ===== src/Base/Text.antt =====
-- Text: a Go string is a native `String`, a sequence of code points (valid UTF-8, whose order by
-- bytes is the order by code points).
use Prim.Native.Nat.{ℕ, zero, suc, ◌/◌, ◌%◌}
use Prim.Native.Char.{Char, code}
use Prim.Native.String
use Prim.Native.String.{String}
use mathlib.Core.Path.{◌≡◌, refl, ap₂}
use mathlib.Core.Logic.{◌⊎◌, inl, inr}
use mathlib.Core.Bool.{Bool, true, false, ◌&&◌, ◌||◌}
use mathlib.Core.List.{List, [], ◌∷◌}
use native.Mathlib.Omega.{arith}
use text.Mathlib.TextEquality.{Char-path}
use hyperfleet_sentinel.Base.Tests.{ltb, eqb, if◌then◌else◌}

infixr 66 ◌+++◌
abbrev pub ◌+++◌ : String → String → String
s +++ t = String.◌++◌ s t

-- Go's `s <= t` on strings.
unfoldable pub str_leb : String → String → Bool
str_leb String.[] t = true
str_leb (String.◌∷◌ c s) String.[] = false
str_leb (String.◌∷◌ c s) (String.◌∷◌ d t) =
    ltb (code c) (code d) || (eqb (code c) (code d) && str_leb s t)

pub str_leb_total : (s t : String) → (str_leb s t ≡ true) ⊎ (str_leb t s ≡ true)
unfolding str_leb
str_leb_total String.[] t = inl refl
str_leb_total (String.◌∷◌ c s) String.[] = inr refl
str_leb_total (String.◌∷◌ c s) (String.◌∷◌ d t) = ground (arith, str_leb_total s t)

pub str_leb_trans : (s t u : String) → str_leb s t ≡ true → str_leb t u ≡ true → str_leb s u ≡ true
unfolding str_leb
str_leb_trans String.[] t u h k = refl
str_leb_trans (String.◌∷◌ c s) String.[] u h k = cc
str_leb_trans (String.◌∷◌ c s) (String.◌∷◌ d t) String.[] h k = cc
str_leb_trans (String.◌∷◌ c s) (String.◌∷◌ d t) (String.◌∷◌ e u) h k =
    ground (arith, str_leb_trans s t u)

codes_of_leb :
    (c d : Char) (s t : String)
    → str_leb (String.◌∷◌ c s) (String.◌∷◌ d t) ≡ true
    → str_leb (String.◌∷◌ d t) (String.◌∷◌ c s) ≡ true
    → (code c ≡ code d) × (str_leb s t ≡ true) × (str_leb t s ≡ true)
unfolding str_leb
codes_of_leb c d s t h k = ground arith

not-cons-leb : (c : Char) (s : String) → ¬ (str_leb (String.◌∷◌ c s) String.[] ≡ true)
unfolding str_leb
not-cons-leb c s h = cc

pub str_leb_antisymm : (s t : String) → str_leb s t ≡ true → str_leb t s ≡ true → s ≡ t
str_leb_antisymm String.[] String.[] h k = refl
str_leb_antisymm String.[] (String.◌∷◌ d t) h k = absurd (not-cons-leb d t k)
str_leb_antisymm (String.◌∷◌ c s) String.[] h k = absurd (not-cons-leb c s h)
str_leb_antisymm (String.◌∷◌ c s) (String.◌∷◌ d t) h k =
    let (same, below, above) = codes_of_leb c d s t h k in
    ap₂ String.◌∷◌ (Char-path c d same) (str_leb_antisymm s t below above)

-- strings.Join
unfoldable pub join : String → List String → String
join sep [] = ""
join sep (s ∷ []) = s
join sep (s ∷ t ∷ rest) = s +++ sep +++ join sep (t ∷ rest)

digit : ℕ → String
digit n =
    if eqb n 0
    then "0"
    else if eqb n 1
    then "1"
    else if eqb n 2
    then "2"
    else if eqb n 3
    then "3"
    else if eqb n 4
    then "4"
    else if eqb n 5
    then "5"
    else if eqb n 6
    then "6"
    else if eqb n 7
    then "7"
    else if eqb n 8
    then "8"
    else "9"

decimal_from : ℕ → ℕ → String
unfolding digit
decimal_from zero n = ""
decimal_from (suc fuel) n =
    let rest = decimal_from fuel (n / 10) in if ltb n 10 then digit n else rest +++ digit (n % 10)

-- `%d` of a number that is not negative; a number has at most as many digits as its successor.
unfoldable pub decimal : ℕ → String
unfolding decimal_from
decimal n = decimal_from (suc n) n
