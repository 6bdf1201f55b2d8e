-- ===== src/Account/Codes.antt =====
-- internal/app/registration_service.go: password resets and the verification of phones, by codes in
-- Redis. Random codes and readings of the clock are arguments; mail, SMS, the Zitadel client and the
-- Go library's texts are parameters. A reset's value "code:sub" is its two parts: the code has no colon.
use lurus_identity.Base.{
  ℕ, ◌+◌, String, Bool, true, false, not, ◌&&◌, Option, none, some, str_eq, ◌==◌, ltb,
  if◌then◌else◌,
}
use Prim.Native.String.{len}
use lurus_identity.Text.{codes}
use lurus_identity.Table.{first, insert, delete}
use lurus_identity.Entity.Identity.{Account}
use lurus_identity.Username.{is_phone_number}
use lurus_identity.Store.{
  CodeKey, PendingCode, Error, Result, ok, err, M, ⊤, pure, ◌>>=◌, ◌>>◌, raise_if, require, lift,
  query, exec, try, ignore,
}
use lurus_identity.Referral.{get_account}
use lurus_identity.Account.Repo
use lurus_identity.Account.Registration.{min_password_len}

-- What the service takes from elsewhere. `request_reset` answers the code of a Zitadel reset; the senders
-- and `set_password` answer whether they succeeded.
pub record Messenger : Type 0 where
  pub lower : String → String
  pub trim : String → String
  pub has_at_sign : String → Bool
  pub sms_provider : String
  pub request_reset : String → Option String
  pub send_sms : String → String → Bool
  pub send_email : String → String → Bool
  pub set_password : String → String → String → Bool

-- Ten minutes, in nanoseconds.
abbrev pub code_ttl : ℕ
code_ttl = 600000000000

abbrev pub same_key : CodeKey → CodeKey → Bool
same_key (CodeKey.password_reset a) (CodeKey.password_reset b) = str_eq a b
same_key (CodeKey.phone_verify i a) (CodeKey.phone_verify j b) = i == j && str_eq a b
same_key _ _ = false

abbrev pub is_pending : ℕ → CodeKey → PendingCode → Bool
is_pending now k c = same_key c.key k && ltb now c.expires_at

-- SET, GET and DEL
unfoldable pub set_code : ℕ → CodeKey → String → String → M ⊤
set_code now k code sub = exec λ t. record t {
  pending_codes =
      insert (record { key = k; code = code; zitadel_sub = sub; expires_at = now + code_ttl })
        (delete (λ c. same_key c.key k) t.pending_codes);
}

unfoldable pub get_code : ℕ → CodeKey → M (Option PendingCode)
get_code now k = query (λ t. first (is_pending now k) t.pending_codes)

unfoldable pub delete_code : CodeKey → M ⊤
delete_code k =
    exec λ t. record t { pending_codes = delete (λ c. same_key c.key k) t.pending_codes }

-- The channel that a reset's code was sent through, "" when there is none.
pub data Channel : Type 0 where
  email sms unavailable : Channel

abbrev pub found_or : {A : Type 0} → Error → Result (Option A) → Result A
found_or e (ok (some a)) = ok a
found_or e _ = err e

module _ (m : Messenger) where
  unfoldable pub by_username_unless : String → Option Account → M (Option Account)
  by_username_unless identifier (some a) = pure (some a)
  by_username_unless identifier none = Repo.get_by_username m.lower identifier

  unfoldable pub resolve_lowered : String → M (Option Account)
  unfolding by_username_unless
  resolve_lowered identifier =
      if m.has_at_sign identifier
      then Repo.get_by_email identifier
      else if is_phone_number (codes identifier)
      then (do found ← Repo.get_by_phone identifier; by_username_unless identifier found)
      else Repo.get_by_username m.lower identifier

  unfoldable pub resolve_account : String → M (Option Account)
  resolve_account identifier = resolve_lowered (m.lower (m.trim identifier))

  unfoldable pub reset_by_sms : ℕ → String → Account → M Channel
  reset_by_sms now code a = do
    set_code now (CodeKey.password_reset a.phone) code a.zitadel_sub
    raise_if (not (m.send_sms a.phone code)) Error.send_failed
    pure Channel.sms

  unfoldable pub reset_by_email : ℕ → Account → M Channel
  reset_by_email now a = if str_eq a.email "" then pure Channel.unavailable else (do
    code ← require (m.request_reset a.zitadel_sub) Error.zitadel_failed
    set_code now (CodeKey.password_reset a.email) code a.zitadel_sub
    raise_if (not (m.send_email a.email code)) Error.send_failed
    pure Channel.email)

  -- An account that is missing or unknown to Zitadel is answered as if a code was sent.
  unfoldable pub send_reset : ℕ → String → Option Account → M Channel
  unfolding reset_by_sms reset_by_email
  send_reset now code none = pure Channel.email
  send_reset now code (some a) =
      if str_eq a.zitadel_sub ""
      then pure Channel.email
      else if not (str_eq a.phone "") && not (str_eq m.sms_provider "")
      then reset_by_sms now code a
      else reset_by_email now a

  unfoldable pub forgot_password : ℕ → String → String → M Channel
  unfolding send_reset
  forgot_password now code identifier = do
    raise_if (str_eq (m.trim identifier) "") Error.identifier_required
    a ← resolve_account (m.trim identifier)
    send_reset now code a

  -- The code of one key; an error of Redis counts as none.
  abbrev pub or_none : Result (Option PendingCode) → Option PendingCode
  or_none (ok c) = c
  or_none (err _) = none

  unfoldable pub look_up : ℕ → String → M (Option PendingCode)
  look_up now name =
      if str_eq name ""
      then pure none
      else (do found ← try (get_code now (CodeKey.password_reset name)); pure (or_none found))

  unfoldable pub code_or_email : ℕ → Account → Option PendingCode → M (Option PendingCode)
  code_or_email now a (some c) = pure (some c)
  code_or_email now a none = look_up now a.email

  unfoldable pub reset_password : ℕ → String → String → String → M ⊤
  unfolding look_up code_or_email
  reset_password now identifier code password = do
    raise_if (ltb (len password) min_password_len) Error.short_password
    found ← resolve_account (m.trim identifier)
    a ← require found Error.no_pending_code
    by_phone ← look_up now a.phone
    stored ← code_or_email now a by_phone
    c ← require stored Error.no_pending_code
    raise_if (not (str_eq c.code code)) Error.wrong_code
    raise_if (not (m.set_password c.zitadel_sub c.code password)) Error.zitadel_failed
    ignore (delete_code c.key)

  abbrev pub is_other : ℕ → Option Account → Bool
  is_other i none = false
  is_other i (some a) = not (a.id == i)

  unfoldable pub send_phone_verification_code : ℕ → String → ℕ → String → M ⊤
  send_phone_verification_code now code i phone = do
    raise_if (not (is_phone_number (codes (m.trim phone)))) Error.invalid_phone
    existing ← Repo.get_by_phone (m.trim phone)
    raise_if (is_other i existing) Error.phone_taken
    set_code now (CodeKey.phone_verify i (m.trim phone)) code ""
    raise_if (not (m.send_sms (m.trim phone) code)) Error.send_failed

  unfoldable pub verify_and_bind_phone : ℕ → ℕ → String → String → M ⊤
  verify_and_bind_phone now i phone code = do
    raise_if (not (is_phone_number (codes (m.trim phone)))) Error.invalid_phone
    read ← try (get_code now (CodeKey.phone_verify i (m.trim phone)))
    c ← lift (found_or Error.no_pending_code read)
    raise_if (not (str_eq c.code code)) Error.wrong_code
    known ← try (get_account i)
    a ← lift (found_or Error.account_not_found known)
    Repo.save m.lower (record a { phone = m.trim phone; phone_verified = true })
    ignore (delete_code (CodeKey.phone_verify i (m.trim phone)))
