-- ===== src/Referral/Batch.antt =====
-- The loop that draws the codes of a batch.
use lurus_identity.Base.{
  ℕ, zero, suc, ◌+◌, ◌≤◌, ◌≡◌, refl, ap, inl, inr, String, false, some, List, [], ◌∷◌, ◌++◌, map,
  str_eq, eq_iff, arith, if◌then◌else◌, Bool-cases,
}
use lurus_identity.Text.{Text}
use lurus_identity.Referral.Bulk.{drawn, is_seen, generate_code, draw_codes}

abbrev pub length : List String → ℕ
length [] = 0
length (c ∷ cs) = suc (length cs)

abbrev pub AreDistinct : List String → Type 0
AreDistinct [] = Unit
AreDistinct (c ∷ cs) = (is_seen c cs ≡ false) × AreDistinct cs

-- How many different codes there are in a list, besides those that are known.
unfoldable pub distinct : List String → List String → ℕ
unfolding is_seen
distinct known [] = 0
distinct known (c ∷ cs) =
    let old = distinct known cs in
    let new = suc (distinct (known ++ c ∷ []) cs) in if is_seen c known then old else new

is_seen-append :
    (c d : String) (cs : List String)
    → is_seen c cs ≡ false
    → str_eq d c ≡ false
    → is_seen c (cs ++ d ∷ []) ≡ false
unfolding is_seen
is_seen-append c d [] h n = rw n refl
is_seen-append c d (x ∷ xs) h n = ground (arith, is_seen-append c d xs, n)

append-AreDistinct :
    (c : String) (cs : List String)
    → AreDistinct cs
    → is_seen c cs ≡ false
    → AreDistinct (cs ++ c ∷ [])
unfolding is_seen
append-AreDistinct c [] h n = (refl, tt)
append-AreDistinct c (x ∷ xs) h n = elim (Bool-cases (str_eq x c)) [
  | inl same ↦ absurd (let n' = rw same at n in cc)
  | inr other ↦ (
    is_seen-append x c xs h.0 (ground (arith, eq_iff x c, eq_iff c x)),
    append-AreDistinct c xs h.1 (rw other at n),
  )
]

length-append : (c : String) (cs : List String) → length (cs ++ c ∷ []) ≡ suc (length cs)
length-append c [] = refl
length-append c (x ∷ xs) = ap suc (length-append c xs)

module _ (hex : Text → String) (to_upper : String → String) where
  -- The loop ends with a batch whenever no read of random bytes fails and the bytes give as many different
  -- new codes as are missing: it has then drawn that many more, and no code occurs twice.
  pub draw_codes-IsDone :
      (bytes : List Text) (n : ℕ) (codes : List String)
      → AreDistinct codes
      → n ≤ distinct codes (map (generate_code hex to_upper) bytes)
      → (cs : List String) × (draw_codes hex to_upper n codes (map (λ b. some b) bytes) ≡ drawn cs)
        × (length cs ≡ length codes + n)
        × AreDistinct cs
  unfolding draw_codes distinct
  draw_codes-IsDone bytes zero codes d h = (codes, refl, omega arith, d)
  draw_codes-IsDone [] (suc n) codes d h = absurd (omega arith)
  draw_codes-IsDone (b ∷ bs) (suc n) codes d h =
      let code = generate_code hex to_upper b in
      elim (Bool-cases (is_seen code codes)) [
        | inl old ↦ rw old (draw_codes-IsDone bs (suc n) codes d (rw old at h))
        | inr new ↦
            let r =
              draw_codes-IsDone bs n (codes ++ code ∷ []) (append-AreDistinct code codes d new)
                (let h' = rw new at h in omega arith) in
            rw new (r.0, r.1, omega (arith, r.2, length-append code codes), r.3)
      ]
