-- ===== src/Vip.antt =====
-- internal/app/vip_service.go and internal/adapter/repo/vip.go: levels granted by spending and by
-- yearly subscriptions. Levels are not negative.
pub mod Frame
pub mod Levels
pub mod Tests
use lurus_identity.Base.{
  ℕ, String, Bool, Option, none, some, List, [], ◌∷◌, ◌==◌, ltb, ℤ, leb_ℤ, if◌then◌else◌,
}
use lurus_identity.Table.{first, update, insert, order_by}
use lurus_identity.Entity.Billing.{Wallet}
use lurus_identity.Entity.Identity.{AccountVip, VipLevelConfig}
use lurus_identity.Store.{Tables, Result, ok, err, M, ⊤, pure, ◌>>=◌, ◌>>◌, sql, query, exec, try}
use lurus_identity.Wallet.Repo.{get_by_account_id}

abbrev pub vip_of : ℕ → AccountVip → Bool
vip_of a v = v.account_id == a

abbrev pub new_vip : ℕ → AccountVip
new_vip a = record {
  account_id = a;
  level = 0;
  level_name = "";
  yearly_sub_grant = 0;
  spend_grant = 0;
}

unfoldable pub vip_or_new : ℕ → Option AccountVip → Tables → Result AccountVip × Tables
vip_or_new a (some v) t = (ok v, t)
vip_or_new a none t = (ok (new_vip a), record t { vips = insert (new_vip a) t.vips })

unfoldable pub get_or_create : ℕ → M AccountVip
unfolding vip_or_new
get_or_create a = sql (λ t. vip_or_new a (first (vip_of a) t.vips) t)

-- `ON CONFLICT (account_id) DO UPDATE`
unfoldable pub upsert_vip : AccountVip → Option AccountVip → List AccountVip → List AccountVip
upsert_vip v (some _) vs = update (vip_of v.account_id) (λ _. v) vs
upsert_vip v none vs = insert v vs

unfoldable pub save : AccountVip → M ⊤
unfolding upsert_vip
save v = exec (λ t. record t { vips = upsert_vip v (first (vip_of v.account_id) t.vips) t.vips })

-- ordered by level
unfoldable pub list_configs : M (List VipLevelConfig)
list_configs = query (λ t. order_by (λ (c : VipLevelConfig). c.level) t.vip_configs)

-- The loop over the configurations: the last one whose threshold is met.
unfoldable pub spend_level : ℤ → ℕ → List VipLevelConfig → ℕ
spend_level topup grant [] = grant
spend_level topup grant (c ∷ cs) =
    spend_level topup (if leb_ℤ c.min_spend_cny topup then c.level else grant) cs

unfoldable pub max_int16 : ℕ → ℕ → ℕ
max_int16 a b = if ltb b a then a else b

unfoldable pub level_name : List VipLevelConfig → ℕ → String
level_name [] level = "Standard"
level_name (c ∷ cs) level = if c.level == level then c.name else level_name cs level

-- The row with its level and name computed from the two grants.
unfoldable pub regrade : List VipLevelConfig → AccountVip → AccountVip
unfolding max_int16
regrade configs v =
    let level = max_int16 v.yearly_sub_grant v.spend_grant in
    record v { level = level; level_name = level_name configs level }

-- The row after its spending grant was recomputed from `lifetime_topup`.
abbrev pub regraded_by_spend : List VipLevelConfig → Wallet → AccountVip → AccountVip
regraded_by_spend configs w v =
    regrade configs (record v { spend_grant = spend_level w.lifetime_topup 0 configs })

unfoldable pub recalculate : ℕ → Result (Option Wallet) → M ⊤
recalculate a (ok (some w)) = do
  configs ← list_configs
  v ← get_or_create a
  save (regraded_by_spend configs w v)
recalculate a _ = pure tt

unfoldable pub recalculate_from_wallet : ℕ → M ⊤
unfolding recalculate
recalculate_from_wallet a = do w ← try (get_by_account_id a); recalculate a w

unfoldable pub grant_yearly_sub : ℕ → ℕ → M ⊤
grant_yearly_sub a grant_level = do
  configs ← list_configs
  v ← get_or_create a
  save (regrade configs (record v { yearly_sub_grant = grant_level }))

unfoldable pub admin_set : ℕ → ℕ → M ⊤
admin_set a level = do
  configs ← list_configs
  v ← get_or_create a
  save (record v { level = level; level_name = level_name configs level })
