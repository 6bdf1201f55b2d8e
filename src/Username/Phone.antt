-- ===== src/Username/Phone.antt =====
-- Phone numbers as user names, and Lurus ids.
use lurus_identity.Base.{
  ℕ, zero, suc, ◌-◌, ◌≡◌, ◌≢◌, refl, sym, ◌∙◌, Bool, true, false, ◌||◌, some, [], ◌∷◌, ◌++◌, arith,
}
use lurus_identity.Text.{Text, codes, size, strip, decimal, scan}
use lurus_identity.Text.Split.{strip-append}
use lurus_identity.Text.Decimal.{scan-decimal}
use lurus_identity.Username.{
  every, is_digit, is_word, matches_username, matches_phone, validate_username, is_phone_number,
  zeros, generate_lurus_id,
}

every-is_word : (s : Text) → every is_digit s ≡ true → every is_word s ≡ true
unfolding every
every-is_word [] h = refl
every-is_word (c ∷ s) h = ground (arith, every-is_word s)

phone-matches_username : (s : Text) → matches_phone s ≡ true → matches_username s ≡ true
unfolding matches_phone matches_username every size
phone-matches_username [] h = cc
phone-matches_username (a ∷ []) h = cc
phone-matches_username (a ∷ b ∷ s) h = ground (arith, every-is_word s)

no_word : false ≡ matches_username []
unfolding matches_username every size
no_word = refl

no_phone : matches_phone [] ≡ true → false ≡ true
unfolding matches_phone
no_phone h = h

redundant : (a b : Bool) → (b ≡ true → a ≡ true) → a || b ≡ a
redundant true b h = refl
redundant false true h = sym (h refl)
redundant false false h = refl

-- A text is a valid user name exactly when it matches the expression for user names: the alternative
-- for phone numbers adds nothing, and every phone number is a valid user name.
pub validate_username-matches :
    (s : Text)
    → (validate_username s ≡ matches_username s)
      × (is_phone_number s ≡ true → validate_username s ≡ true)
unfolding validate_username is_phone_number
validate_username-matches [] = (no_word, no_phone)
validate_username-matches (c ∷ s) = (
  redundant (matches_username (c ∷ s)) (matches_phone (c ∷ s)) (phone-matches_username (c ∷ s)),
  λ h. rw h (ground arith),
)

scan-zeros : (n : ℕ) (s : Text) → scan (zeros n ++ s) 0 ≡ scan s 0
unfolding zeros scan
scan-zeros zero s = refl
scan-zeros (suc n) s = scan-zeros n s

-- The digits behind "LU", with their leading zeros.
abbrev padded : ℕ → Text
padded n = zeros (7 - size (decimal n)) ++ decimal n

scan-padded : (n : ℕ) → scan (padded n) 0 ≡ some n
scan-padded n = scan-zeros (7 - size (decimal n)) (decimal n) ∙ scan-decimal n

strip-generate_lurus_id : (n : ℕ) → strip (codes "LU") (generate_lurus_id n) ≡ some (padded n)
unfolding generate_lurus_id
strip-generate_lurus_id n = strip-append (codes "LU") (padded n)

-- Accounts with distinct ids have distinct Lurus ids.
pub generate_lurus_id-injective : (m n : ℕ) → m ≢ n → generate_lurus_id m ≢ generate_lurus_id n
generate_lurus_id-injective m n d e =
    d (cc (scan-padded m, scan-padded n, strip-generate_lurus_id m, strip-generate_lurus_id n))
