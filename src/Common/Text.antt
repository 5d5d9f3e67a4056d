-- ===== src/Common/Text.antt =====
-- Text as the program prints and compares it.
pub mod Decimal
use Prim.Native.Nat.{ℕ, zero, suc, ◌+◌, ◌-◌, ◌/◌, ◌%◌}
use Prim.Native.Char.{code}
use Prim.Native.String
use Prim.Native.String.{String}
use mathlib.Core.Bool.{Bool, true, false, ◌&&◌, ◌||◌}
use mathlib.Core.List.{List, [], ◌∷◌}
use kampus_pipeline.Common.Tests.{ltb, nat_beq, if◌then◌else◌}

-- `a + b` on texts, and a template's pieces put together.
infixr 66 ◌&◌
abbrev pub ◌&◌ : String → String → String
a & b = String.◌++◌ a b

-- The UTF-16 code units of a text, which `<` on texts compares.
unfoldable pub units : String → List ℕ
units String.[] = []
units (String.◌∷◌ c s) =
    if ltb (code c) 0x10000
    then code c ∷ units s
    else (0xD800 + (code c - 0x10000) / 0x400) ∷ (0xDC00 + (code c - 0x10000) % 0x400) ∷ units s

unfoldable pub units_lt : List ℕ → List ℕ → Bool
units_lt [] [] = false
units_lt [] (y ∷ ys) = true
units_lt (x ∷ xs) [] = false
units_lt (x ∷ xs) (y ∷ ys) = ltb x y || nat_beq x y && units_lt xs ys

-- `a < b` on texts.
unfoldable pub text_lt : String → String → Bool
unfolding units units_lt
text_lt a b = units_lt (units a) (units b)

abbrev digit : ℕ → String
digit d =
    if nat_beq d 0
    then "0"
    else if nat_beq d 1
    then "1"
    else if nat_beq d 2
    then "2"
    else if nat_beq d 3
    then "3"
    else if nat_beq d 4
    then "4"
    else if nat_beq d 5
    then "5"
    else if nat_beq d 6
    then "6"
    else if nat_beq d 7
    then "7"
    else if nat_beq d 8
    then "8"
    else "9"

digits_from : ℕ → ℕ → String → String
digits_from zero n tail = tail
digits_from (suc fuel) n tail =
    let more = digits_from fuel (n / 10) (digit (n % 10) & tail) in
    if ltb n 10 then digit n & tail else more

-- A number in a template, in decimal. A number has at most as many digits as its value plus one.
unfoldable pub show : ℕ → String
unfolding digits_from
show n = digits_from (suc n) n ""

-- `texts.join(sep)`.
unfoldable pub join : String → List String → String
join sep [] = ""
join sep (t ∷ []) = t
join sep (t ∷ u ∷ ts) = t & sep & join sep (u ∷ ts)
