-- ===== src/Overview/Shown.antt =====
-- What an overview shows when it is not taken from the cache.
use lurus_identity.Base.{
  ℕ, ◌≡◌, refl, ◌∙◌, ◌⊎◌, inl, inr, String, Bool, true, false, Option, none, some, List, str_eq,
  ◌==◌, arith, if◌then◌else◌, Bool-cases, ℤ, pos, leb_ℤ, ◌≤ℤ◌,
}
use lurus_identity.Table.{first}
use lurus_identity.Table.Laws.{first-insert}
use lurus_identity.Entity.Overview.{AccountOverview, SubscriptionSummary}
use lurus_identity.Entity.Identity.{Account, AccountVip, ProductPlan, Subscription}
use lurus_identity.Entity.Billing.{Wallet}
use lurus_identity.Store.{
  OverviewEntry, Tables, Error, Result, ok, err, ⊤, pure, ◌>>=◌, ◌>>◌, ignore,
}
use lurus_identity.Store.Leads.{
  Leads, Outcome, Tried, Leads-bind, Leads-sql, Leads-pure, Leads-query, Leads-require, Leads-try,
  Leads-ignore,
}
use lurus_identity.Referral.{get_account}
use lurus_identity.Vip as Vips
use lurus_identity.Wallet.Repo as Wallets
use lurus_identity.Subscription.Repo.{get_active, live_of}
use lurus_identity.Entitlement.{get_plan_by_id, has_plan_id}
use lurus_identity.Overview.{
  summary, code_of, summarize, subscription_of, overview_of, compute, cache_set, is_cached,
  by_cache, cache_get, get, compute_discount,
}

-- The plan's code, or nothing.
abbrev pub ShowsPlan : Tables → Subscription → String → Type 0
ShowsPlan t sub code =
    (code ≡ "")
    ⊎ ((plan : ProductPlan) × (first (has_plan_id sub.plan_id) t.plans ≡ some plan)
        × (code ≡ plan.code))

-- The columns of the subscription.
pub record ShowsRow (sub : Subscription) (s : SubscriptionSummary) : Type 0 where
  pub product : s.product_id ≡ sub.product_id
  pub status : s.status ≡ sub.status
  pub expires : s.expires_at ≡ sub.expires_at
  pub renewed : s.auto_renew ≡ sub.auto_renew

-- Without a product, or without a live subscription to it, none is shown.
pub data ShowsSubscription (a : ℕ) (p : String) (t : Tables) (o : Option SubscriptionSummary)
    : Type 0 where
  without_product : str_eq p "" ≡ true → o ≡ none → ShowsSubscription a p t o
  without_subscription :
      first (live_of a p) t.subscriptions ≡ none → o ≡ none → ShowsSubscription a p t o
  with_subscription :
      (sub : Subscription) (s : SubscriptionSummary)
      → first (live_of a p) t.subscriptions ≡ some sub
      → o ≡ some s
      → ShowsPlan t sub s.plan_code
      → ShowsRow sub s
      → ShowsSubscription a p t o

-- The rows that the overview is of.
abbrev pub HasAccount : ℕ → Account → Tables → Type 0
HasAccount a acct t = first (λ (x : Account). x.id == a) t.accounts ≡ some acct

abbrev pub HasVip : ℕ → AccountVip → Tables → Type 0
HasVip a v t = first (Vips.vip_of a) t.vips ≡ some v

abbrev pub HasWallet : ℕ → Wallet → Tables → Type 0
HasWallet a w t = first (Wallets.of_account a) t.wallets ≡ some w

-- From 2000 CNY on, 15 percent off; from 500, ten; from 100, five; below that, none.
pub data IsDiscount (b : ℤ) (rate : ℕ) (tier : String) : Type 0 where
  diamond : pos 20000000 ≤ℤ b → rate ≡ 85 → tier ≡ "diamond_holder" → IsDiscount b rate tier
  gold :
      pos 5000000 ≤ℤ b
      → b ≤ℤ pos 19999999
      → rate ≡ 90
      → tier ≡ "gold_holder"
      → IsDiscount b rate tier
  silver :
      pos 1000000 ≤ℤ b
      → b ≤ℤ pos 4999999
      → rate ≡ 95
      → tier ≡ "silver_holder"
      → IsDiscount b rate tier
  full : b ≤ℤ pos 999999 → rate ≡ 100 → tier ≡ "none" → IsDiscount b rate tier

compute_discount-IsDiscount : (b : ℤ) → IsDiscount b (compute_discount b).0 (compute_discount b).1
unfolding compute_discount
compute_discount-IsDiscount b = elim (Bool-cases (leb_ℤ (pos 20000000) b)) [
  | inl d ↦ rw d (IsDiscount.diamond (ground arith) refl refl)
  | inr d ↦ rw d (elim (Bool-cases (leb_ℤ (pos 5000000) b)) [
    | inl g ↦ rw g (IsDiscount.gold (ground arith) (ground arith) refl refl)
    | inr g ↦ rw g (elim (Bool-cases (leb_ℤ (pos 1000000) b)) [
      | inl s ↦ rw s (IsDiscount.silver (ground arith) (ground arith) refl refl)
      | inr s ↦ rw s (elim (Bool-cases (leb_ℤ (pos 0) b)) [
        | inl z ↦ rw z (IsDiscount.full (ground arith) refl refl)
        | inr z ↦ rw z (IsDiscount.full (ground arith) refl refl)
      ])
    ])
  ])
]

pub record IsShown (a : ℕ) (p : String) (ov : AccountOverview) (t : Tables) : Type 0 where
  pub acct : Account
  pub v : AccountVip
  pub w : Wallet
  pub account : HasAccount a acct t
  pub vip : HasVip a v t
  pub wallet : HasWallet a w t
  pub account_id : ov.account.id ≡ acct.id
  pub lurus_id : ov.account.lurus_id ≡ acct.lurus_id
  pub level : ov.vip.level ≡ v.level
  pub level_name : ov.vip.level_name ≡ v.level_name
  pub balance : ov.wallet.balance ≡ w.balance
  pub frozen : ov.wallet.frozen ≡ w.frozen
  pub discount : IsDiscount w.balance ov.wallet.discount_rate ov.wallet.discount_tier
  pub subscription : ShowsSubscription a p t ov.subscription

row : (sub : Subscription) (code : String) → ShowsRow sub (summary sub code)
row sub code = record { product = refl; status = refl; expires = refl; renewed = refl }

number_self : (n : ℕ) → (n == n) ≡ true
number_self n = ground arith

module _ (a : ℕ) (acct : Account) where
  abbrev WithVip : AccountVip → Tables → Type 0
  WithVip v t = HasAccount a acct t × HasVip a v t

  abbrev WithWallet : AccountVip → Wallet → Tables → Type 0
  WithWallet v w t = HasAccount a acct t × HasVip a v t × HasWallet a w t

  vip_or_new-WithVip :
      (o : Option AccountVip) (t : Tables) (faults : List Bool)
      → first (Vips.vip_of a) t.vips ≡ o
      → HasAccount a acct t
      → Outcome WithVip
          (λ _. ⊤)
          (
            (Vips.vip_or_new a o t).0,
            record { tables = (Vips.vip_or_new a o t).1; faults = faults },
          )
  unfolding Vips.vip_or_new
  vip_or_new-WithVip (some v) t faults e h = (h, e)
  vip_or_new-WithVip none t faults e h =
      (h, first-insert (Vips.vip_of a) (Vips.new_vip a) t.vips ∙ rw e (rw (number_self a) refl))

  first_or_create-WithWallet :
      (v : AccountVip) (o : Option Wallet) (t : Tables) (faults : List Bool)
      → first (Wallets.of_account a) t.wallets ≡ o
      → WithVip v t
      → Outcome
          (WithWallet v)
          (λ _. ⊤)
          (
            (Wallets.first_or_create a o t).0,
            record { tables = (Wallets.first_or_create a o t).1; faults = faults },
          )
  unfolding Wallets.first_or_create
  first_or_create-WithWallet v (some w) t faults e h = (h.0, h.1, e)
  first_or_create-WithWallet v none t faults e h = (
    h.0,
    h.1,
    first-insert (Wallets.of_account a) (Wallets.new_wallet t.next_id a) t.wallets
        ∙ rw e (rw (number_self a) refl),
  )

  vip-Leads : Leads (HasAccount a acct) (Vips.get_or_create a) WithVip (λ _. ⊤)
  unfolding Vips.get_or_create
  vip-Leads = Leads-sql _ (λ t faults h. vip_or_new-WithVip _ t faults refl h) (λ t h. tt)

  wallet-Leads :
      (v : AccountVip) → Leads (WithVip v) (Wallets.get_or_create a) (WithWallet v) (λ _. ⊤)
  unfolding Wallets.get_or_create
  wallet-Leads v =
      Leads-sql _ (λ t faults h. first_or_create-WithWallet v _ t faults refl h) (λ t h. tt)

  -- The subscription, while the rest stays.
  abbrev WithSubscription :
      String → AccountVip → Wallet → Option SubscriptionSummary → Tables → Type 0
  WithSubscription p v w o t = WithWallet v w t × ShowsSubscription a p t o

  planned :
      (p : String) (v : AccountVip) (w : Wallet) (sub : Subscription)
      (r : Result (Option ProductPlan))
      → Leads
          (Tried
            (λ plan t.
              (WithWallet v w t × (first (live_of a p) t.subscriptions ≡ some sub))
              × (first (has_plan_id sub.plan_id) t.plans ≡ plan))
            (λ t. WithWallet v w t × (first (live_of a p) t.subscriptions ≡ some sub))
            r)
          (pure (some (summary sub (code_of r))))
          (WithSubscription p v w)
          (λ _. ⊤)
  planned p v w sub (err e) = Leads-pure _ (λ t h. (
    h.0,
    ShowsSubscription.with_subscription sub (summary sub "") h.1 refl (inl refl) (row sub ""),
  ))
  planned p v w sub (ok none) = Leads-pure _ (λ t h. (
    h.0.0,
    ShowsSubscription.with_subscription sub (summary sub "") h.0.1 refl (inl refl) (row sub ""),
  ))
  planned p v w sub (ok (some plan)) = Leads-pure _ (λ t h. (
    h.0.0,
    ShowsSubscription.with_subscription sub (summary sub plan.code) h.0.1 refl
        (inr (plan, h.1, refl)) (row sub plan.code),
  ))

  summarized :
      (p : String) (v : AccountVip) (w : Wallet) (o : Option Subscription)
      → Leads
          (λ t. WithWallet v w t × (first (live_of a p) t.subscriptions ≡ o))
          (summarize o)
          (WithSubscription p v w)
          (λ _. ⊤)
  unfolding summarize get_plan_by_id
  summarized p v w none =
      Leads-pure _ (λ t h. (h.0, ShowsSubscription.without_subscription h.1 refl))
  summarized p v w (some sub) =
      Leads-bind _ _
        (Leads-try _ (Leads-query (λ t. first (has_plan_id sub.plan_id) t.plans) (λ t h. h)))
        (planned p v w sub)

  subscribed :
      (p : String) (v : AccountVip) (w : Wallet) (b : Bool)
      → str_eq p "" ≡ b
      → Leads
          (WithWallet v w)
          (if b then pure none else get_active a p >>= summarize)
          (WithSubscription p v w)
          (λ _. ⊤)
  unfolding get_active
  subscribed p v w true e = Leads-pure _ (λ t h. (h, ShowsSubscription.without_product e refl))
  subscribed p v w false e =
      Leads-bind _ _ (Leads-query (λ t. first (live_of a p) t.subscriptions) (λ t h. tt))
        (summarized p v w)

  composed :
      (p : String)
      → Leads
          (HasAccount a acct)
          (do
            v ← Vips.get_or_create a
            w ← Wallets.get_or_create a
            sub ← subscription_of a p
            pure (overview_of acct v w sub))
          (λ ov t. IsShown a p ov t)
          (λ _. ⊤)
  unfolding subscription_of
  composed p = Leads-bind _ _ vip-Leads λ v. Leads-bind _ _ (wallet-Leads v) λ w.
      Leads-bind _ _ (subscribed p v w _ refl) λ sub. Leads-pure _ λ t h. record {
        acct = acct;
        v = v;
        w = w;
        account = h.0.0;
        vip = h.0.1;
        wallet = h.0.2;
        account_id = refl;
        lurus_id = refl;
        level = refl;
        level_name = refl;
        balance = refl;
        frozen = refl;
        discount = compute_discount-IsDiscount w.balance;
        subscription = h.1;
      }

compute-IsShown :
    (a : ℕ) (p : String) → Leads (λ t. ⊤) (compute a p) (λ ov t. IsShown a p ov t) (λ _. ⊤)
unfolding compute get_account
compute-IsShown a p =
    Leads-bind _ _ (Leads-query (λ t. first (λ (x : Account). x.id == a) t.accounts) (λ t h. tt))
      λ found.
        Leads-bind _ _
          (Leads-require {Q = λ acct t. HasAccount a acct t} found Error.account_not_found
            (λ acct t e h. h.1 ∙ e) (λ t h. tt))
          (λ acct. composed a acct p)

-- The cache is written after the tables were read.
cached-IsShown :
    {a : ℕ} {p : String} {ov : AccountOverview} (t : Tables) (entries : List OverviewEntry)
    → IsShown a p ov t
    → IsShown a p ov (record t { overviews = entries })
cached-IsShown t entries h = record {
  acct = h.acct;
  v = h.v;
  w = h.w;
  account = h.account;
  vip = h.vip;
  wallet = h.wallet;
  subscription = shown_same h.subscription;
  account_id = h.account_id;
  lurus_id = h.lurus_id;
  level = h.level;
  level_name = h.level_name;
  balance = h.balance;
  frozen = h.frozen;
  discount = h.discount;
}
  where
    shown_same :
        {a : ℕ} {p : String} {o : Option SubscriptionSummary}
        → ShowsSubscription a p t o
        → ShowsSubscription a p (record t { overviews = entries }) o
    shown_same (ShowsSubscription.without_product e n) = ShowsSubscription.without_product e n
    shown_same (ShowsSubscription.without_subscription e n) =
        ShowsSubscription.without_subscription e n
    shown_same (ShowsSubscription.with_subscription sub row e n c k) =
        ShowsSubscription.with_subscription sub row e n c k

fresh-Leads :
    (ttl now a : ℕ) (p : String)
    → Leads
        (λ t. ⊤)
        (do ov ← compute a p; ignore (cache_set ttl now a p ov); pure ov)
        (λ ov t. IsShown a p ov t)
        (λ _. ⊤)
unfolding cache_set
fresh-Leads ttl now a p = Leads-bind _ _ (compute-IsShown a p) λ ov.
    Leads-bind _ _ (Leads-ignore _ (Leads-sql _ (λ t faults h. cached-IsShown t _ h) (λ t h. h)))
      (λ u. Leads-pure _ (λ t h. h))

-- The tables have no entry for the account and the product that has not expired.
abbrev pub Missing : ℕ → ℕ → String → Tables → Type 0
Missing now a p t = first (is_cached now a p) t.overviews ≡ none

by_cache-Leads :
    (ttl now a : ℕ) (p : String) (r : Result (Option OverviewEntry))
    → Leads
        (Tried (λ o t. Missing now a p t × (first (is_cached now a p) t.overviews ≡ o)) (λ t. ⊤) r)
        (by_cache ttl now a p r)
        (λ ov t. IsShown a p ov t)
        (λ _. ⊤)
by_cache-Leads ttl now a p (err e) = fresh-Leads ttl now a p
by_cache-Leads ttl now a p (ok none) = record { at = λ s h. (fresh-Leads ttl now a p).at s tt }
by_cache-Leads ttl now a p (ok (some e)) = Leads-pure _ (λ t h. absurd (cc))

-- An overview that is not in the cache, whatever is stored and whichever statements fail, shows the ids of
-- the account, the level and its name of the VIP row and the two amounts of the wallet as they are stored
-- then, the discount that the balance gives, and the live subscription to the product that was asked for,
-- if there is one, with its plan's code or none.
pub get-IsShown :
    (ttl now a : ℕ) (p : String)
    → Leads (Missing now a p) (get ttl now a p) (λ ov t. IsShown a p ov t) (λ _. ⊤)
unfolding get cache_get
get-IsShown ttl now a p =
    Leads-bind _ _
      (Leads-try _ (Leads-query (λ t. first (is_cached now a p) t.overviews) (λ t h. tt)))
      (by_cache-Leads ttl now a p)
