-- ===== src/Account/Once.antt =====
-- A phone is bound with the code that was sent for it, and with no other.
use lurus_identity.Base.{
  ℕ, ◌≡◌, refl, String, Bool, true, false, not, Option, none, some, List, str_eq,
}
use lurus_identity.Table.{first}
use lurus_identity.Entity.Identity.{Account}
use lurus_identity.Store.{
  Tables, Db, CodeKey, PendingCode, Error, Result, ok, err, ⊤, lift, raise_if,
}
use lurus_identity.Store.Leads.{
  Leads, Outcome, Tried, Leads-try, Leads-bind, Leads-raise_if, Leads-query,
}
use lurus_identity.Account.Codes.{Messenger, is_pending, get_code, found_or, verify_and_bind_phone}

-- Redis holds no live code for the key, or another one.
abbrev pub Lacks : ℕ → CodeKey → String → Tables → Type 0
Lacks now k code t =
    (c : PendingCode)
    → first (is_pending now k) t.pending_codes ≡ some c
    → str_eq c.code code ≡ false

clash : (b : Bool) → b ≡ false → not b ≡ false → ⊥
clash true e f = absurd (cc)
clash false e f = absurd (cc)

module _ (now : ℕ) (k : CodeKey) (code : String) (rows : List Account) where
  -- Moreover the accounts are these.
  abbrev pub IsLocked : Tables → Type 0
  IsLocked t = Lacks now k code t × (t.accounts ≡ rows)

  abbrev pub AreSame : Tables → Type 0
  AreSame t = t.accounts ≡ rows

  get_code-leads :
      Leads IsLocked
        (get_code now k)
        (λ o t. IsLocked t × (first (is_pending now k) t.pending_codes ≡ o))
        AreSame
  unfolding get_code
  get_code-leads = Leads-query _ (λ t h. h.1)

  found-leads :
      (read : Result (Option PendingCode))
      → Leads
          (Tried (λ o t. IsLocked t × (first (is_pending now k) t.pending_codes ≡ o)) AreSame read)
          (lift (found_or Error.no_pending_code read))
          (λ c t. IsLocked t × (first (is_pending now k) t.pending_codes ≡ some c))
          AreSame
  unfolding lift
  found-leads (ok (some c)) = record { at = λ s h. h }
  found-leads (ok none) = record { at = λ s h. h.0.1 }
  found-leads (err e) = record { at = λ s h. h }

  same_code-leads :
      (c : PendingCode) (e : Error)
      → Leads
          (λ t. IsLocked t × (first (is_pending now k) t.pending_codes ≡ some c))
          (raise_if (not (str_eq c.code code)) e)
          (λ _ _. ⊥)
          AreSame
  same_code-leads c e =
      Leads-raise_if _ _ (λ t h f. clash (str_eq c.code code) (h.0.0 c h.1) f) (λ t h f. h.0.1)

  pub settled :
      (out : Result ⊤ × Db)
      → Outcome (λ _ _. ⊥) AreSame out
      → ((e : Error) × (out.0 ≡ err e)) × (out.1.tables.accounts ≡ rows)
  settled (ok a, u) x = absurd x
  settled (err e, u) x = ((e, refl), x)

verify-leads :
    (m : Messenger) (now i : ℕ) (phone code : String) (rows : List Account)
    → let k = CodeKey.phone_verify i (m.trim phone) in
      Leads
        (IsLocked now k code rows)
        (verify_and_bind_phone m now i phone code)
        (λ _ _. ⊥)
        (AreSame now k code rows)
unfolding verify_and_bind_phone
verify-leads m now i phone code rows =
    let k = CodeKey.phone_verify i (m.trim phone) in
    Leads-bind _ _ (Leads-raise_if {S = IsLocked now k code rows} _ _ (λ t h e. h) (λ t h e. h.1))
      λ _. Leads-bind _ _ (Leads-try _ (get_code-leads now k code rows)) λ read.
        Leads-bind _ _ (found-leads now k code rows read) λ c.
          Leads-bind _ _ (same_code-leads now k code rows c _) λ _. record { at = λ s h. absurd h }

-- Whichever statements fail: when Redis holds no live code for the account and the phone, or another
-- code, the call is refused and no account is changed.
pub verify_and_bind_phone-refuses :
    (m : Messenger) (now i : ℕ) (phone code : String) (s : Db)
    → Lacks now (CodeKey.phone_verify i (m.trim phone)) code s.tables
    → ((e : Error) × ((verify_and_bind_phone m now i phone code s).0 ≡ err e))
      × ((verify_and_bind_phone m now i phone code s).1.tables.accounts ≡ s.tables.accounts)
verify_and_bind_phone-refuses m now i phone code s h =
    settled now (CodeKey.phone_verify i (m.trim phone)) code s.tables.accounts
      (verify_and_bind_phone m now i phone code s)
      ((verify-leads m now i phone code s.tables.accounts).at s (h, refl))
