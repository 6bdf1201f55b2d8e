-- ===== src/Text/Split.antt =====
-- Splitting a text that was joined from parts without the separator.
use lurus_identity.Base.{ℕ, ◌≡◌, refl, true, false, some, [], ◌∷◌, ◌++◌, arith, ◌==◌}
use lurus_identity.Table.Laws.{All}
use lurus_identity.Text.{Text, put, split, strip, equal}

abbrev pub Lacks : ℕ → Text → Type 0
Lacks sep = All (λ c. (c == sep) ≡ false)

pub split-part : (sep : ℕ) (p s : Text) → Lacks sep p → split sep (p ++ sep ∷ s) ≡ p ∷ split sep s
unfolding split put
split-part sep [] s h = ground arith
split-part sep (c ∷ p) s h = rw (split-part sep p s h.1) (rw (h.0) refl)

pub split-last : (sep : ℕ) (p : Text) → Lacks sep p → split sep p ≡ p ∷ []
unfolding split put
split-last sep [] h = refl
split-last sep (c ∷ p) h = rw (split-last sep p h.1) (rw (h.0) refl)

pub strip-append : (p s : Text) → strip p (p ++ s) ≡ some s
unfolding strip
strip-append [] s = refl
strip-append (c ∷ p) s = rw (strip-append p s) (ground arith)

pub equal_self : (s : Text) → equal s s ≡ true
equal_self [] = refl
equal_self (c ∷ s) = ground (arith, equal_self s)

pub equal_to : (s t : Text) → equal s t ≡ true → s ≡ t
equal_to [] [] h = refl
equal_to [] (d ∷ t) h = absurd (cc)
equal_to (c ∷ s) [] h = absurd (cc)
equal_to (c ∷ s) (d ∷ t) h = ground (arith, equal_to s t)
