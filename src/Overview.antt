-- ===== src/Overview.antt =====
-- internal/app/overview_service.go and internal/pkg/cache/overview.go. The JSON of an overview reads back
-- as it was written. A rate is in hundredths.
pub mod Shown
pub mod Discount
pub mod Tests
use lurus_identity.Base.{
  ℕ, ◌+◌, String, Bool, true, false, ◌&&◌, not, Option, none, some, List, [], ◌∷◌, ◌==◌, str_eq,
  ltb, ℤ, pos, leb_ℤ, if◌then◌else◌,
}
use lurus_identity.Table.{first, insert, select}
use lurus_identity.Entity.Overview.{AccountOverview, SubscriptionSummary, WalletSummary}
use lurus_identity.Entity.Identity.{Account, AccountVip, ProductPlan, Subscription}
use lurus_identity.Entity.Billing.{Wallet}
use lurus_identity.Store.{
  OverviewEntry, Tables, Error, Result, ok, err, M, ⊤, pure, ◌>>=◌, ◌>>◌, require, query, exec, try,
  ignore,
}
use lurus_identity.Referral.{get_account}
use lurus_identity.Vip as Vips
use lurus_identity.Wallet.Repo as Wallets
use lurus_identity.Subscription.Repo.{get_active}
use lurus_identity.Entitlement.{get_plan_by_id}

abbrev pub topup_url : String
topup_url = "https://identity.lurus.cn/wallet/topup"

unfoldable pub vip_level_en : ℕ → String
vip_level_en level =
    if level == 0
    then "Standard"
    else if level == 1
    then "Silver"
    else if level == 2
    then "Gold"
    else if level == 3
    then "Platinum"
    else if level == 4
    then "Diamond"
    else ""

pub record HolderTier : Type 0 where
  pub min_balance : ℤ
  pub discount_rate : ℕ
  pub tier : String

abbrev pub tier_of : ℕ → ℕ → String → HolderTier
tier_of units rate tier = record { min_balance = pos units; discount_rate = rate; tier = tier }

-- from 2000, 500, 100 and 0
abbrev pub holder_tiers : List HolderTier
holder_tiers =
    tier_of 20000000 85 "diamond_holder"
    ∷ tier_of 5000000 90 "gold_holder"
    ∷ tier_of 1000000 95 "silver_holder"
    ∷ tier_of 0 100 "none"
    ∷ []

-- The loop over the tiers.
unfoldable pub discount_in : List HolderTier → ℤ → ℕ × String
discount_in [] balance = (100, "none")
discount_in (t ∷ ts) balance =
    if leb_ℤ t.min_balance balance then (t.discount_rate, t.tier) else discount_in ts balance

unfoldable pub compute_discount : ℤ → ℕ × String
unfolding discount_in
compute_discount balance = discount_in holder_tiers balance

abbrev pub code_of : Result (Option ProductPlan) → String
code_of (ok (some plan)) = plan.code
code_of _ = ""

abbrev pub summary : Subscription → String → SubscriptionSummary
summary sub code = record {
  product_id = sub.product_id;
  plan_code = code;
  status = sub.status;
  expires_at = sub.expires_at;
  auto_renew = sub.auto_renew;
}

-- A failing lookup of the plan leaves its code empty.
unfoldable pub summarize : Option Subscription → M (Option SubscriptionSummary)
summarize none = pure none
summarize (some sub) = do
  plan ← try (get_plan_by_id sub.plan_id)
  pure (some (summary sub (code_of plan)))

unfoldable pub subscription_of : ℕ → String → M (Option SubscriptionSummary)
unfolding summarize
subscription_of a p = if str_eq p "" then pure none else get_active a p >>= summarize

abbrev pub or_standard : String → String
or_standard s = if str_eq s "" then "Standard" else s

abbrev pub wallet_summary : Wallet → WalletSummary
wallet_summary w = record {
  balance = w.balance;
  frozen = w.frozen;
  discount_rate = (compute_discount w.balance).0;
  discount_tier = (compute_discount w.balance).1;
}

abbrev pub overview_of :
    Account → AccountVip → Wallet → Option SubscriptionSummary → AccountOverview
overview_of acct v w sub = record {
  account = record { id = acct.id; lurus_id = acct.lurus_id };
  vip = record {
    level = v.level;
    level_name = v.level_name;
    level_en = or_standard (vip_level_en v.level);
  };
  wallet = wallet_summary w;
  subscription = sub;
  topup_url = topup_url;
}

unfoldable pub compute : ℕ → String → M AccountOverview
unfolding subscription_of compute_discount vip_level_en
compute a p = do
  found ← get_account a
  acct ← require found Error.account_not_found
  v ← Vips.get_or_create a
  w ← Wallets.get_or_create a
  sub ← subscription_of a p
  pure (overview_of acct v w sub)

-- The cache: a time to live for all entries.
abbrev pub is_key : ℕ → String → OverviewEntry → Bool
is_key a p e = e.account_id == a && str_eq e.product_id p

abbrev pub is_cached : ℕ → ℕ → String → OverviewEntry → Bool
is_cached now a p e = is_key a p e && ltb now e.expires_at

unfoldable pub cache_get : ℕ → ℕ → String → M (Option OverviewEntry)
cache_get now a p = query (λ t. first (is_cached now a p) t.overviews)

unfoldable pub cache_set : ℕ → ℕ → ℕ → String → AccountOverview → M ⊤
cache_set ttl now a p ov = exec λ t. record t {
  overviews =
      insert (record { account_id = a; product_id = p; overview = ov; expires_at = now + ttl })
        (select (λ e. not (is_key a p e)) t.overviews);
}

unfoldable pub cache_invalidate : ℕ → String → M ⊤
cache_invalidate a p =
    exec (λ t. record t { overviews = select (λ e. not (is_key a p e)) t.overviews })

-- A failing read of the cache is a miss, and a failing write is ignored.
abbrev pub by_cache : ℕ → ℕ → ℕ → String → Result (Option OverviewEntry) → M AccountOverview
by_cache ttl now a p (ok (some e)) = pure e.overview
by_cache ttl now a p _ = do ov ← compute a p; ignore (cache_set ttl now a p ov); pure ov

unfoldable pub get : ℕ → ℕ → ℕ → String → M AccountOverview
unfolding cache_get cache_set compute
get ttl now a p = do cached ← try (cache_get now a p); by_cache ttl now a p cached
