-- ===== src/Username.antt =====
-- The validation of user names and the Lurus ids of internal/domain/entity/account.go. Texts are lists
-- of codes.
pub mod Phone
pub mod Tests
use lurus_identity.Base.{
  ℕ, zero, suc, ◌-◌, Bool, true, false, not, ◌&&◌, ◌||◌, List, [], ◌∷◌, ◌++◌, ◌==◌, ltb, leb,
  if◌then◌else◌,
}
use lurus_identity.Text.{Text, codes, size, decimal}

abbrev pub between : ℕ → ℕ → ℕ → Bool
between low high c = leb low c && leb c high

abbrev pub is_digit : ℕ → Bool
is_digit = between b'0' b'9'

-- `[a-zA-Z0-9_]`
abbrev pub is_word : ℕ → Bool
is_word c = between b'a' b'z' c || between b'A' b'Z' c || is_digit c || c == b'_'

unfoldable pub every : (ℕ → Bool) → Text → Bool
every p [] = true
every p (c ∷ s) = let rest = every p s in p c && rest

-- `^[a-zA-Z0-9_]{3,32}$`
unfoldable pub matches_username : Text → Bool
matches_username s = every is_word s && between 3 32 (size s)

-- `^1[3-9]\d{9}$`
unfoldable pub matches_phone : Text → Bool
matches_phone (a ∷ b ∷ s) = a == b'1' && between b'3' b'9' b && every is_digit s && size s == 9
matches_phone _ = false

-- Whether `ValidateUsername` returns no error.
unfoldable pub validate_username : Text → Bool
validate_username [] = false
validate_username (c ∷ s) = matches_username (c ∷ s) || matches_phone (c ∷ s)

unfoldable pub is_phone_number : Text → Bool
is_phone_number s = matches_phone s

unfoldable pub zeros : ℕ → Text
zeros zero = []
zeros (suc n) = b'0' ∷ zeros n

-- "LU%07d"
unfoldable pub generate_lurus_id : ℕ → Text
generate_lurus_id id = let digits = decimal id in codes "LU" ++ (zeros (7 - size digits) ++ digits)
