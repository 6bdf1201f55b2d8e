-- ===== src/Internal.antt =====
-- internal/adapter/handler/internal_api.go: the calls that other services make. An answer is an HTTP
-- status with what it shows; where the code shows the text of an error, the answer names its kind. An id
-- in a path is what ParseInt made of it, or none; ids that are negative are left out.
pub mod Debits
pub mod Grpc
pub mod Tests
use lurus_identity.Base.{
  ℕ, String, Bool, true, false, ◌||◌, ◌&&◌, not, Option, none, some, List, [], ◌∷◌, ◌==◌, str_eq, ℤ,
  pos, leb_ℤ, if◌then◌else◌,
}
use lurus_identity.Text.{Text, equal}
use lurus_identity.Entity.Identity.{Account, Subscription}
use lurus_identity.Entity.Overview.{AccountOverview}
use lurus_identity.Entity.Billing.{Wallet, WalletTransaction, Reference}
use lurus_identity.Store.{Error, Result, ok, err, M, ⊤, pure, ◌>>=◌, ◌>>◌, try, ignore}
use lurus_identity.Session as Sessions
use lurus_identity.Account.Repo as Accounts
use lurus_identity.Account.Service.{upsert_by_zitadel_sub}
use lurus_identity.Referral.{get_account, on_signup}
use lurus_identity.Entitlement as Entitlements
use lurus_identity.Subscription.Repo.{get_active}
use lurus_identity.Overview as Overviews
use lurus_identity.Vip.{recalculate_from_wallet}
use lurus_identity.Wallet.Repo as Wallets
use lurus_identity.Wallet.Repo.{TxInfo}

-- A handler that dereferences a nil pointer panics.
pub data Reply (A : Type 0) : Type 0 where
  shows : ℕ → A → Reply A
  refuses : ℕ → String → Reply A
  panics : Reply A

-- 500 for an error, 404 for a missing row
abbrev pub found_reply : {A : Type 0} → String → String → Result (Option A) → Reply A
found_reply failed missing (err _) = refuses 500 failed
found_reply failed missing (ok none) = refuses 404 missing
found_reply failed missing (ok (some a)) = shows 200 a

abbrev pub account_reply : Result (Option Account) → Reply Account
account_reply = found_reply "lookup failed" "account not found"

unfoldable pub get_account_by_zitadel_sub : String → M (Reply Account)
get_account_by_zitadel_sub sub = do
  r ← try (Accounts.get_by_zitadel_sub sub)
  pure (account_reply r)

unfoldable pub get_account_by_oauth : String → String → M (Reply Account)
get_account_by_oauth provider provider_id = do
  r ← try (Accounts.get_by_oauth_binding provider provider_id)
  pure (account_reply r)

unfoldable pub get_account_by_email : String → M (Reply Account)
get_account_by_email email = do r ← try (Accounts.get_by_email email); pure (account_reply r)

unfoldable pub get_account_by_phone : String → M (Reply Account)
get_account_by_phone phone = do r ← try (Accounts.get_by_phone phone); pure (account_reply r)

-- The referrer's bonus is only paid when the row was saved; the answer shows the link in any case.
abbrev pub after_link : Account → ℕ → Result ⊤ → M Account
after_link a referrer (err _) = pure a
after_link a referrer (ok _) = ignore (on_signup a.id referrer) >> pure a

module _ (lower : String → String) where
  abbrev pub save_link : Account → ℕ → M Account
  save_link a referrer =
      let a' = record a { referrer_id = some referrer } in
      try (Accounts.save lower a') >>= after_link a' referrer

  abbrev pub link_to : Account → Result (Option Account) → M Account
  link_to a (ok (some r)) = if r.id == a.id then pure a else save_link a r.id
  link_to a _ = pure a

  abbrev pub has_referrer : Option ℕ → Bool
  has_referrer none = false
  has_referrer (some _) = true

  unfoldable pub link_referrer : String → Account → M Account
  link_referrer code a =
      if str_eq code "" || has_referrer a.referrer_id
      then pure a
      else try (Accounts.get_by_aff_code code) >>= link_to a

  abbrev pub upserted : String → Result Account → M (Reply Account)
  upserted code (err _) = pure (refuses 500 "upsert failed")
  upserted code (ok a) = do a' ← link_referrer code a; pure (shows 200 a')

  -- `aff` is the affiliate code of a new account, `code` that of its referrer.
  unfoldable pub upsert_account : String → String → String → String → M (Reply Account)
  unfolding link_referrer
  upsert_account sub email aff code =
      if str_eq sub "" || str_eq email ""
      then pure (refuses 400 "required")
      else try (upsert_by_zitadel_sub lower sub email aff) >>= upserted code

abbrev pub invalid_id : {A : Type 0} → M (Reply A)
invalid_id = pure (refuses 400 "invalid account id")

-- 500 for an error
abbrev pub plain_reply : {A : Type 0} → String → Result A → Reply A
plain_reply failed (err _) = refuses 500 failed
plain_reply failed (ok a) = shows 200 a

-- The map of entitlements is never nil.
unfoldable pub get_entitlements : ℕ → Option ℕ → String → M (Reply Entitlements.Entries)
get_entitlements now none p = invalid_id
get_entitlements now (some a) p = do
  r ← try (Entitlements.get now a p)
  pure (plain_reply "failed to get entitlements" r)

unfoldable pub get_subscription : Option ℕ → String → M (Reply Subscription)
get_subscription none p = invalid_id
get_subscription (some a) p = do
  r ← try (get_active a p)
  pure (found_reply "lookup failed" "no active subscription" r)

unfoldable pub get_account_overview : ℕ → ℕ → Option ℕ → String → M (Reply AccountOverview)
get_account_overview ttl now none p = invalid_id
get_account_overview ttl now (some a) p = do
  r ← try (Overviews.get ttl now a p)
  pure (plain_reply "failed to get overview" r)

-- A number that is zero counts as missing.
unfoldable pub report_usage : ℕ → ℤ → M (Reply Bool)
report_usage a amount =
    if a == 0 || (leb_ℤ amount (pos 0) && leb_ℤ (pos 0) amount)
    then pure (refuses 400 "required")
    else ignore (recalculate_from_wallet a) >> pure (shows 200 true)

-- The body of a debit and of a credit.
pub record Movement : Type 0 where
  pub amount : ℤ
  pub tx_type : String
  pub product_id : String

abbrev pub is_bound : Movement → Bool
is_bound m = not (leb_ℤ m.amount (pos 0)) && not (str_eq m.tx_type "")

abbrev pub info_of : String → Movement → TxInfo
info_of reference m = record {
  tx_type = m.tx_type;
  reference_type = reference;
  reference_id = Reference.plain "";
  product_id = m.product_id;
}

abbrev pub moved : ℕ → String → Result WalletTransaction → Reply ℤ
moved status failed (err _) = refuses status failed
moved status failed (ok tx) = shows 200 tx.balance_after

-- Every error of the debit is answered alike.
unfoldable pub debit_wallet : Option ℕ → Movement → M (Reply ℤ)
debit_wallet none m = invalid_id
debit_wallet (some a) m =
    if is_bound m
    then (do
      r ← try (Wallets.debit a m.amount (info_of "internal_debit" m))
      pure (moved 400 "insufficient_balance" r))
    else pure (refuses 400 "required")

unfoldable pub credit_wallet : Option ℕ → Movement → M (Reply ℤ)
credit_wallet none m = invalid_id
credit_wallet (some a) m =
    if is_bound m
    then (do
      r ← try (Wallets.credit a m.amount (info_of "internal_credit" m))
      pure (moved 500 "credit failed" r))
    else pure (refuses 400 "required")

-- The wallet's balance and its frozen part; without a wallet a nil pointer is read.
abbrev pub balance_reply : Result (Option Wallet) → Reply (ℤ × ℤ)
balance_reply (err _) = refuses 500 "balance lookup failed"
balance_reply (ok none) = panics
balance_reply (ok (some w)) = shows 200 (w.balance, w.frozen)

unfoldable pub get_wallet_balance : Option ℕ → M (Reply (ℤ × ℤ))
get_wallet_balance none = invalid_id
get_wallet_balance (some a) = do r ← try (Wallets.get_by_account_id a); pure (balance_reply r)

abbrev pub session_account : Result (Option Account) → Reply Account
session_account (ok (some a)) = shows 200 a
session_account _ = refuses 404 "account not found"

abbrev pub session_reply : Sessions.Answer ℕ → M (Reply Account)
session_reply (Sessions.Answer.refused _) = pure (refuses 401 "invalid session token")
session_reply (Sessions.Answer.granted i) = do r ← try (get_account i); pure (session_account r)

unfoldable pub validate_session : Sessions.Codec → ℕ → Text → Text → M (Reply Account)
unfolding Sessions.validate_session_token
validate_session c now secret token =
    if equal token []
    then pure (refuses 400 "required")
    else if equal secret []
    then pure (refuses 503 "session validation not configured")
    else session_reply (Sessions.validate_session_token c now token secret)
