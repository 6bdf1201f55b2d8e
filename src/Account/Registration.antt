-- ===== src/Account/Registration.antt =====
-- internal/app/registration_service.go: `Register`. The Go library's texts, the Zitadel client and the
-- session codec are parameters; the affiliate code is random and an argument, as each reading of the
-- clock is. Resets and the verification of phones are in Account/Codes.
use Prim.Native.String.{len}
use lurus_identity.Base.{
  ℕ, String, Bool, not, ◌&&◌, Option, none, some, str_eq, ◌==◌, ltb, if◌then◌else◌,
}
use lurus_identity.Text.{Text, codes}
use lurus_identity.Entity.Identity.{Account}
use lurus_identity.Username.{validate_username, is_phone_number}
use lurus_identity.Session.{Codec, Answer, issue_session_token}
use lurus_identity.Store.{
  Error, Result, ok, err, M, ⊤, pure, raise, lift, ◌>>=◌, ◌>>◌, raise_if, try, ignore,
}
use lurus_identity.Referral.{on_signup}
use lurus_identity.Account.Repo
use lurus_identity.Account.Service.{new_account, create_numbered, bootstrap}

-- The service: what it takes from elsewhere, and its configuration. Without Zitadel, users are
-- created locally only.
pub record Registrar : Type 0 where
  pub lower : String → String
  pub trim : String → String
  pub is_address : String → Bool
  pub create_user : Option (String → String → String → Option String)
  pub codec : Codec
  pub secret : Text

pub record RegisterRequest : Type 0 where
  pub username : String
  pub password : String
  pub email : String
  pub phone : String
  pub aff_code : String

pub record RegistrationResult : Type 0 where
  pub token : Text
  pub account_id : ℕ
  pub lurus_id : Text

abbrev pub min_password_len : ℕ
min_password_len = 8

-- Seven days, in nanoseconds.
abbrev pub session_token_ttl : ℕ
session_token_ttl = 604800000000000

unfoldable pub refuse_taken : {A : Type 0} → Option A → Error → M ⊤
refuse_taken none e = pure tt
refuse_taken (some a) e = raise e

module _ (r : Registrar) where
  unfoldable pub check_email : String → M String
  check_email email = if str_eq email "" then pure "" else (do
    let address = r.trim (r.lower email)
    raise_if (not (r.is_address address)) Error.invalid_email
    known ← Repo.get_by_email address
    refuse_taken known Error.email_taken
    pure address)

  unfoldable pub check_phone : String → M String
  check_phone phone = if str_eq phone "" then pure "" else (do
    let number = r.trim phone
    raise_if (not (is_phone_number (codes number))) Error.invalid_phone
    known ← Repo.get_by_phone number
    refuse_taken known Error.phone_taken
    pure number)

  -- A user name that is a phone number fills an empty phone.
  abbrev pub phone_of : String → String → String
  phone_of username phone =
      if is_phone_number (codes username) && str_eq phone "" then username else phone

  abbrev pub zitadel_answer : Option String → Result String
  zitadel_answer none = err Error.zitadel_failed
  zitadel_answer (some sub) = ok sub

  unfoldable pub zitadel_user :
      Option (String → String → String → Option String) → String → String → String → M String
  zitadel_user none username password email = pure ""
  zitadel_user (some create) username password email =
      lift (zitadel_answer (create username password email))

  abbrev pub user_account : String → String → String → String → String → Account
  user_account sub username email phone aff = record (new_account sub email aff) {
    username = username;
    phone = phone;
  }

  -- After the referrer was stored.
  unfoldable pub reward_signup : ℕ → ℕ → Result ⊤ → M ⊤
  reward_signup account referrer (ok _) = ignore (on_signup account referrer)
  reward_signup account referrer (err _) = pure tt

  unfoldable pub set_referrer : Account → Result (Option Account) → M ⊤
  set_referrer a (ok (some referrer)) = if referrer.id == a.id then pure tt else (do
    saved ← try (Repo.save r.lower (record a { referrer_id = some referrer.id }))
    reward_signup a.id referrer.id saved)
  set_referrer a _ = pure tt

  unfoldable pub process_referral : Account → String → M ⊤
  unfolding set_referrer reward_signup
  process_referral a aff_code =
      if str_eq aff_code ""
      then pure tt
      else (do found ← try (Repo.get_by_aff_code aff_code); set_referrer a found)

  abbrev pub token_of : Account → Answer Text → Result RegistrationResult
  token_of a (Answer.refused e) = err Error.token_failed
  token_of a (Answer.granted token) =
      ok (record { token = token; account_id = a.id; lurus_id = a.lurus_id })

  unfoldable pub issue_token : ℕ → Account → M RegistrationResult
  issue_token now a =
      lift (token_of a (issue_session_token r.codec now a.id session_token_ttl r.secret))

  unfoldable pub register : ℕ → String → RegisterRequest → M RegistrationResult
  register now aff req = do
    let username = r.trim req.username
    raise_if (not (validate_username (codes username))) Error.invalid_username
    raise_if (ltb (len req.password) min_password_len) Error.short_password
    known ← Repo.get_by_username r.lower username
    refuse_taken known Error.username_taken
    email ← check_email req.email
    given ← check_phone req.phone
    let phone = phone_of username given
    sub ← zitadel_user r.create_user username req.password email
    a ← create_numbered r.lower (user_account sub username email phone aff)
    bootstrap a
    process_referral a req.aff_code
    issue_token now a
