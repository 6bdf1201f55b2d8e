-- ===== src/Account/Frame.antt =====
-- The steps of a registration before and after its account is created: what they keep.
use lurus_identity.Base.{ℕ, String, Bool, true, false, Option, none, some, List}
use lurus_identity.Table.{first}
use lurus_identity.Entity.Billing.{Wallet}
use lurus_identity.Entity.Identity.{Account}
use lurus_identity.Entity.Billing.{RewardEvent}
use lurus_identity.Store.{Tables, Result, ok, err, Error}
use lurus_identity.Store.Keeps.{Keeps, Keeps-sql, keeps_rules}
use lurus_identity.Referral.{
  get_account, same_reward, insert_reward, create_reward_event, pay_referrer, reward_known, reward,
  on_signup,
}
use lurus_identity.Vip.Frame.{get_or_create-Keeps}
use lurus_identity.Wallet.Repo as Wallets
use lurus_identity.Wallet.Frame.{credit-Keeps}
use lurus_identity.Account.Service.{bootstrap}
use lurus_identity.Account.Repo.{get_by_email, get_by_phone, get_by_username}
use lurus_identity.Account.Registration.{
  Registrar, refuse_taken, check_email, check_phone, zitadel_user,
}

module _ {P : Tables → Type 0} where
  pub refuse_taken-Keeps : {A : Type 0} (o : Option A) (e : Error) → Keeps P (refuse_taken o e)
  unfolding refuse_taken
  refuse_taken-Keeps none e = search keeps_rules
  refuse_taken-Keeps (some a) e = search keeps_rules

  pub check_email-Keeps : (r : Registrar) (email : String) → Keeps P (check_email r email)
  unfolding check_email get_by_email
  check_email-Keeps r email = search (keeps_rules, refuse_taken-Keeps)

  pub check_phone-Keeps : (r : Registrar) (phone : String) → Keeps P (check_phone r phone)
  unfolding check_phone get_by_phone
  check_phone-Keeps r phone = search (keeps_rules, refuse_taken-Keeps)

  pub get_by_username-Keeps :
      (lower : String → String) (u : String) → Keeps P (get_by_username lower u)
  unfolding get_by_username
  get_by_username-Keeps lower u = search keeps_rules

  pub zitadel_user-Keeps :
      (r : Registrar) (o : Option (String → String → String → Option String)) (u p e : String)
      → Keeps P (zitadel_user r o u p e)
  unfolding zitadel_user
  zitadel_user-Keeps r none u p e = search keeps_rules
  zitadel_user-Keeps r (some f) u p e = search keeps_rules

-- What is known of the accounts alone is kept by the calls that write other tables.
module _ (Q : List Account → Type 0) where
  abbrev P : Tables → Type 0
  P t = Q t.accounts

  wallet-Keeps : (a : ℕ) → Keeps P (Wallets.get_or_create a)
  unfolding Wallets.get_or_create Wallets.first_or_create
  wallet-Keeps a =
      Keeps-sql _ (λ t h. first_or_create-Keeps (first (Wallets.of_account a) t.wallets) t h)
    where
      first_or_create-Keeps :
          (o : Option Wallet) (t : Tables) → P t → P (Wallets.first_or_create a o t).1
      first_or_create-Keeps none t h = h
      first_or_create-Keeps (some w) t h = h

  pub bootstrap-Keeps : (a : Account) → Keeps P (bootstrap a)
  unfolding bootstrap
  bootstrap-Keeps a = search (keeps_rules, wallet-Keeps, get_or_create-Keeps {P = P} (λ t vs h. h))

  create_reward_event-Keeps : (ev : RewardEvent) → Keeps P (create_reward_event ev)
  unfolding create_reward_event insert_reward
  create_reward_event-Keeps ev =
      Keeps-sql _ (λ t h. inserted (first (same_reward ev) t.reward_events) t h)
    where
      inserted : (o : Option RewardEvent) (t : Tables) → P t → P (insert_reward ev o t).1
      inserted none t h = h
      inserted (some x) t h = h

  pay_referrer-Keeps : (ev : RewardEvent) (b : Bool) → Keeps P (pay_referrer ev b)
  unfolding pay_referrer
  pay_referrer-Keeps ev false = search keeps_rules
  pay_referrer-Keeps ev true =
      search (keeps_rules, wallet-Keeps, credit-Keeps {P = P} (λ t ws h. h) (λ t es h. h))

  reward_known-Keeps :
      (ev : RewardEvent) (r : Result (Option Account)) → Keeps P (reward_known ev r)
  unfolding reward_known
  reward_known-Keeps ev (ok (some x)) =
      search (keeps_rules, create_reward_event-Keeps, pay_referrer-Keeps)
  reward_known-Keeps ev (ok none) = search keeps_rules
  reward_known-Keeps ev (err e) = search keeps_rules

  pub on_signup-Keeps : (referee referrer : ℕ) → Keeps P (on_signup referee referrer)
  unfolding on_signup reward get_account
  on_signup-Keeps referee referrer = search (keeps_rules, reward_known-Keeps)
