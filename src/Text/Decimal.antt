-- ===== src/Text/Decimal.antt =====
-- A number is read back from its decimal digits.
use Prim.Native.Nat.{◌/◌, ◌%◌}
use lurus_identity.Base.{
  ℕ, zero, suc, ◌+◌, ◌≤◌, ◌<◌, ◌≡◌, refl, ◌∙◌, true, false, some, [], ◌∷◌, arith, ◌==◌, Bool-cases,
  inl, inr,
}
use lurus_identity.Text.{Text, emit, decimal, scan, parse_int, max_int64, in_range}

scan_digit : (n : ℕ) (out : Text) → scan ((b'0' + n % 10) ∷ out) (n / 10) ≡ scan out n
unfolding scan
scan_digit n out = ground arith

scan-emit : (fuel n : ℕ) (out : Text) → n < fuel → scan (emit fuel n out) 0 ≡ scan out n
unfolding emit
scan-emit zero n out h = absurd (omega arith)
scan-emit (suc fuel) n out h = elim (Bool-cases (n == 0)) [
  | inl e ↦ ground arith
  | inr e ↦ rw e (scan-emit fuel (n / 10) ((b'0' + n % 10) ∷ out) (ground arith) ∙ scan_digit n out)
]

-- The first code is a digit.
abbrev StartsWithDigit : Text → Type 0
StartsWithDigit [] = ⊥
StartsWithDigit (c ∷ s) = (c == b'+') ≡ false

emit-StartsWithDigit :
    (fuel n c : ℕ) (out : Text) → (c == b'+') ≡ false → StartsWithDigit (emit fuel n (c ∷ out))
unfolding emit
emit-StartsWithDigit zero n c out h = h
emit-StartsWithDigit (suc fuel) n c out h = elim (Bool-cases (n == 0)) [
  | inl e ↦ rw e h
  | inr e ↦ rw e (emit-StartsWithDigit fuel (n / 10) (b'0' + n % 10) (c ∷ out) (ground arith))
]

parse_int-scan : (s : Text) → StartsWithDigit s → parse_int s ≡ in_range (scan s 0)
unfolding parse_int
parse_int-scan [] h = absurd h
parse_int-scan (c ∷ s) h = rw h refl

emit-positive : (n : ℕ) → (n == 0) ≡ false → StartsWithDigit (emit (suc n) n [])
unfolding emit
emit-positive n h = rw h (emit-StartsWithDigit n (n / 10) (b'0' + n % 10) [] (ground arith))

in_bounds : (n : ℕ) → n ≤ max_int64 → in_range (scan [] n) ≡ some n
unfolding scan
in_bounds n h = ground arith

zero_read : (n : ℕ) → (n == 0) ≡ true → parse_int (b'0' ∷ []) ≡ some n
unfolding parse_int scan
zero_read n h = ground arith

positive_read : (n : ℕ) → (n == 0) ≡ false → n ≤ max_int64 → parse_int (emit (suc n) n []) ≡ some n
positive_read n e h =
    parse_int-scan (emit (suc n) n []) (emit-positive n e)
    ∙ rw (scan-emit (suc n) n [] (omega arith)) (in_bounds n h)

-- A number in the range of int64 is read back from its decimal print.
pub parse_int-decimal : (n : ℕ) → n ≤ max_int64 → parse_int (decimal n) ≡ some n
unfolding decimal
parse_int-decimal n h = elim (Bool-cases (n == 0)) [
  | inl e ↦ rw e (zero_read n e)
  | inr e ↦ rw e (positive_read n e h)
]

zero_scanned : (n : ℕ) → (n == 0) ≡ true → scan (b'0' ∷ []) 0 ≡ some n
unfolding scan
zero_scanned n h = ground arith

nothing_left : (n : ℕ) → scan [] n ≡ some n
unfolding scan
nothing_left n = refl

pub scan-decimal : (n : ℕ) → scan (decimal n) 0 ≡ some n
unfolding decimal
scan-decimal n = elim (Bool-cases (n == 0)) [
  | inl e ↦ rw e (zero_scanned n e)
  | inr e ↦ rw e (scan-emit (suc n) n [] (omega arith) ∙ nothing_left n)
]
