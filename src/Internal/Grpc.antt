-- ===== src/Internal/Grpc.antt =====
-- internal/adapter/grpc/server.go: the same calls over gRPC. The conversion into the messages of the
-- protocol is left out; an answer is a status code with what it shows.
use lurus_identity.Base.{
  ℕ, ◌≡◌, ap, ◌∙◌, String, ◌+s◌, Bool, true, Option, none, some, List, [], ◌∷◌, str_eq, ℤ, pos,
  ◌-ℤ◌, leb_ℤ, ltb_ℤ, if◌then◌else◌, arith, refl, ◌≤ℤ◌,
}
use lurus_identity.Table.{first}
use lurus_identity.Entity.Identity.{Account}
use lurus_identity.Entity.Overview.{AccountOverview}
use lurus_identity.Entity.Billing.{Wallet, WalletTransaction}
use lurus_identity.Store.{Tables, Result, ok, err, M, pure, ◌>>=◌, ◌>>◌, follow, try, ignore}
use lurus_identity.Store.Run.{run}
use lurus_identity.Account.Repo as Accounts
use lurus_identity.Account.Service.{upsert_by_zitadel_sub}
use lurus_identity.Entitlement as Entitlements
use lurus_identity.Overview as Overviews
use lurus_identity.Vip.{recalculate_from_wallet}
use lurus_identity.Wallet.Repo.{of_account, credit, debit}
use lurus_identity.Wallet.Ledger.{IsReconciled, balance_of}
use lurus_identity.Wallet.Balances.{debit_balances}
use lurus_identity.Internal.{Movement, info_of, link_referrer}

pub data Answer (A : Type 0) : Type 0 where
  reply : A → Answer A
  unauthenticated not_found invalid_argument internal_error : Answer A

-- The metadata of the call, when there is any, by the values of "authorization".
unfoldable pub auth_interceptor :
    {A : Type 0} → String → Option (List String) → M (Answer A) → M (Answer A)
auth_interceptor key none handler = pure unauthenticated
auth_interceptor key (some []) handler = pure unauthenticated
auth_interceptor key (some (v ∷ vs)) handler =
    if str_eq v ("Bearer " +s key) then handler else pure unauthenticated

abbrev pub found : Result (Option Account) → Answer Account
found (err _) = internal_error
found (ok none) = not_found
found (ok (some a)) = reply a

unfoldable pub get_account_by_zitadel_sub : String → M (Answer Account)
get_account_by_zitadel_sub sub = do r ← try (Accounts.get_by_zitadel_sub sub); pure (found r)

abbrev pub or_internal : {A : Type 0} → Result A → Answer A
or_internal (err _) = internal_error
or_internal (ok a) = reply a

module _ (lower : String → String) where
  abbrev pub linked : String → Result Account → M (Answer Account)
  linked code (err _) = pure internal_error
  linked code (ok a) = do a' ← link_referrer lower code a; pure (reply a')

  -- No field is required.
  unfoldable pub upsert_account : String → String → String → String → M (Answer Account)
  upsert_account sub email aff code =
      try (upsert_by_zitadel_sub lower sub email aff) >>= linked code

unfoldable pub get_entitlements : ℕ → ℕ → String → M (Answer Entitlements.Entries)
get_entitlements now a p = do r ← try (Entitlements.get now a p); pure (or_internal r)

unfoldable pub get_account_overview : ℕ → ℕ → ℕ → String → M (Answer AccountOverview)
get_account_overview ttl now a p = do r ← try (Overviews.get ttl now a p); pure (or_internal r)

unfoldable pub report_usage : ℕ → M (Answer Bool)
report_usage a = ignore (recalculate_from_wallet a) >> pure (reply true)

abbrev pub moved : Answer ℤ → Result WalletTransaction → Answer ℤ
moved refused (err _) = refused
moved refused (ok tx) = reply tx.balance_after

-- The amount and the type are passed on as they come.
unfoldable pub wallet_debit : ℕ → Movement → M (Answer ℤ)
wallet_debit a m = do
  r ← try (debit a m.amount (info_of "internal_debit" m))
  pure (moved invalid_argument r)

unfoldable pub wallet_credit : ℕ → Movement → M (Answer ℤ)
wallet_credit a m = do
  r ← try (credit a m.amount (info_of "internal_credit" m))
  pure (moved internal_error r)

tables_after :
    (a : ℕ) (m : Movement) (t : Tables)
    → (run (wallet_debit a m) t).1 ≡ (run (debit a m.amount (info_of "internal_debit" m)) t).1
unfolding run wallet_debit try ◌>>=◌ follow pure
tables_after a m t = refl

covers :
    (balance amount : ℤ)
    → pos 0 ≤ℤ balance
    → ltb_ℤ amount (pos 0) ≡ true
    → leb_ℤ amount balance ≡ true
covers balance amount h n = ground arith

-- Without failures, from a reconciled state, a debit over gRPC of a negative amount from a wallet that is
-- not overdrawn is carried out and raises its balance by that amount.
pub wallet_debit-raises :
    (a : ℕ) (m : Movement) (t : Tables) {w : Wallet}
    → IsReconciled t
    → first (of_account a) t.wallets ≡ some w
    → pos 0 ≤ℤ w.balance
    → ltb_ℤ m.amount (pos 0) ≡ true
    → balance_of a (run (wallet_debit a m) t).1.wallets ≡ w.balance -ℤ m.amount
wallet_debit-raises a m t {w} r h solvent negative =
    ap (λ (u : Tables). balance_of a u.wallets) (tables_after a m t)
    ∙ debit_balances a a m.amount (info_of "internal_debit" m) t r h
    ∙ rw (covers w.balance m.amount solvent negative) (rw h (ground arith))
