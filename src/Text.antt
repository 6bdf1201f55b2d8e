-- ===== src/Text.antt =====
-- Texts as lists of their codes, and what the code uses of strings, strconv and fmt on them: a split
-- at a separator, a prefix, decimal numbers.
pub mod Split
pub mod Decimal
use Prim.Native.Char.{code}
use Prim.Native.String.{String}
use lurus_identity.Base.{
  ℕ, zero, suc, ◌+◌, ◌-◌, ◌*◌, ◌/◌, ◌%◌, ◌≢◌, Bool, true, false, ◌||◌, Option, none, some, List, [],
  ◌∷◌, ◌++◌, ◌==◌, ltb, if◌then◌else◌,
}

abbrev pub Text : Type 0
Text = List ℕ

abbrev pub codes : String → Text
codes String.[] = []
codes (String.◌∷◌ c s) = code c ∷ codes s

unfoldable pub size : Text → ℕ
size [] = 0
size (c ∷ s) = suc (size s)

abbrev pub equal : Text → Text → Bool
equal [] [] = true
equal (c ∷ s) (d ∷ t) = if c == d then equal s t else false
equal _ _ = false

-- The first part of a split gets one more code in front.
unfoldable pub put : ℕ → List Text → List Text
put c [] = (c ∷ []) ∷ []
put c (p ∷ ps) = (c ∷ p) ∷ ps

-- `strings.Split` with a separator of one code
unfoldable pub split : ℕ → Text → List Text
unfolding put
split sep [] = [] ∷ []
split sep (c ∷ s) = let rest = split sep s in if c == sep then [] ∷ rest else put c rest

-- `strings.HasPrefix` and the text behind the prefix
unfoldable pub strip : Text → Text → Option Text
strip [] s = some s
strip (c ∷ p) [] = none
strip (c ∷ p) (d ∷ s) = let rest = strip p s in if c == d then rest else none

-- The digits of `n` in front of a text. The fuel is more than the number of digits.
unfoldable pub emit : ℕ → ℕ → Text → Text
emit zero n out = out
emit (suc fuel) n out =
    let more = emit fuel (n / 10) ((b'0' + n % 10) ∷ out) in if n == 0 then out else more

-- `%d` of a number that is not negative
unfoldable pub decimal : ℕ → Text
decimal n = if n == 0 then b'0' ∷ [] else emit (suc n) n []

unfoldable pub scan : Text → ℕ → Option ℕ
scan [] n = some n
scan (c ∷ s) n =
    let rest = scan s (n * 10 + (c - b'0')) in if ltb c b'0' || ltb b'9' c then none else rest

-- The largest int64.
abbrev pub max_int64 : ℕ
max_int64 = 9223372036854775807

abbrev pub in_range : Option ℕ → Option ℕ
in_range none = none
in_range (some n) = if ltb max_int64 n then none else some n

abbrev pub scan_digits : Text → Option ℕ
scan_digits [] = none
scan_digits (c ∷ s) = in_range (scan (c ∷ s) 0)

-- `strconv.ParseInt` in base 10, when its answer is not negative.
unfoldable pub parse_int : Text → Option ℕ
parse_int [] = none
parse_int (c ∷ s) = if c == b'+' then scan_digits s else scan_digits (c ∷ s)
