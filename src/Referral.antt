-- ===== src/Referral.antt =====
-- internal/app/referral_service.go, with the unique constraint of
-- migrations/013_referral_reward_unique.sql. The generation of random codes and the statistics are
-- left out. The store of reward events is wired, as cmd/server/main.go does.
pub mod Once
pub mod Bulk
pub mod Batch
pub mod Unredeemable
pub mod BulkTests
pub mod Rewards
pub mod Tests
use lurus_identity.Base.{
  ℕ, ◌+◌, ◌*◌, ◌/◌, Bool, true, false, ◌&&◌, Option, none, some, ◌==◌, ltb, ℤ, pos, negsuc, leb_ℤ,
  if◌then◌else◌,
}
use lurus_identity.Table.{first, insert}
use lurus_identity.Entity.Billing.{Reference, ReferralEvent, RewardEvent}
use lurus_identity.Entity.Identity.{Account}
use lurus_identity.Store.{
  Tables, Error, Result, ok, M, ⊤, pure, raise, ◌>>=◌, ◌>>◌, sql, query, try,
}
use lurus_identity.Wallet.Repo.{TxInfo, get_or_create, credit}

-- `GetByID` of internal/adapter/repo/account.go
unfoldable pub get_account : ℕ → M (Option Account)
get_account i = query (λ t. first (λ (a : Account). a.id == i) t.accounts)

abbrev pub same_event : ReferralEvent → ReferralEvent → Bool
same_event ReferralEvent.signup ReferralEvent.signup = true
same_event ReferralEvent.first_topup ReferralEvent.first_topup = true
same_event ReferralEvent.first_subscription ReferralEvent.first_subscription = true
same_event (ReferralEvent.renewal_royalty m) (ReferralEvent.renewal_royalty n) = m == n
same_event _ _ = false

-- The columns of the unique constraint.
abbrev pub same_reward : RewardEvent → RewardEvent → Bool
same_reward x y =
    x.referrer_id == y.referrer_id
    && x.referee_id == y.referee_id
    && same_event x.event_type y.event_type

unfoldable pub insert_reward : RewardEvent → Option RewardEvent → Tables → Result Bool × Tables
insert_reward ev (some _) t = (ok false, t)
insert_reward ev none t = (ok true, record t { reward_events = insert ev t.reward_events })

-- Whether the row is new; a violation of the constraint is not an error.
unfoldable pub create_reward_event : RewardEvent → M Bool
unfolding insert_reward
create_reward_event ev = sql (λ t. insert_reward ev (first (same_reward ev) t.reward_events) t)

abbrev pub referral_info : ℕ → TxInfo
referral_info referee = record {
  tx_type = "referral_reward";
  reference_type = "referral_event";
  reference_id = Reference.referee referee;
  product_id = "";
}

unfoldable pub pay_referrer : RewardEvent → Bool → M ⊤
pay_referrer ev false = pure tt
pay_referrer ev true = do
  get_or_create ev.referrer_id
  credit ev.referrer_id ev.reward_credits (referral_info ev.referee_id)
  pure tt

-- A failing lookup is reported as a missing referrer.
unfoldable pub reward_known : RewardEvent → Result (Option Account) → M ⊤
unfolding pay_referrer
reward_known ev (ok (some _)) = do created ← create_reward_event ev; pay_referrer ev created
reward_known ev _ = raise Error.referrer_not_found

unfoldable pub reward : ℕ → ℕ → ReferralEvent → ℤ → M ⊤
unfolding reward_known
reward referrer referee kind amount = do
  found ← try (get_account referrer)
  reward_known
      (record {
        referrer_id = referrer;
        referee_id = referee;
        event_type = kind;
        reward_credits = amount;
      })
      found

unfoldable pub on_signup : ℕ → ℕ → M ⊤
on_signup referee referrer = reward referrer referee ReferralEvent.signup (pos 50000)

unfoldable pub on_first_topup : ℕ → ℕ → M ⊤
on_first_topup referee referrer = reward referrer referee ReferralEvent.first_topup (pos 100000)

unfoldable pub on_first_subscription : ℕ → ℕ → M ⊤
on_first_subscription referee referrer =
    reward referrer referee ReferralEvent.first_subscription (pos 300000)

-- 5 %, rounded to four decimals. The caller has excluded negative amounts.
unfoldable pub royalty : ℤ → ℤ
royalty (pos n) = pos ((2 * n + 20) / 40)
royalty (negsuc n) = pos 0

unfoldable pub on_renewal : ℕ → ℕ → ℤ → ℕ → M ⊤
unfolding royalty
on_renewal referee referrer amount renewals =
    if ltb 6 renewals
    then pure tt
    else if leb_ℤ amount (pos 0)
    then pure tt
    else reward referrer referee (ReferralEvent.renewal_royalty renewals) (royalty amount)
