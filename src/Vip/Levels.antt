-- ===== src/Vip/Levels.antt =====
-- The level of an account is the larger of its two grants.
use lurus_identity.Base.{ℕ, ◌≡◌, refl, Option, none, some, List, ltb, if◌then◌else◌}
use lurus_identity.Table.{first}
use lurus_identity.Table.Laws.{All, All-update, All-insert}
use lurus_identity.Entity.Billing.{Wallet}
use lurus_identity.Entity.Identity.{AccountVip, VipLevelConfig}
use lurus_identity.Store.{Tables, Result, ok, err}
use lurus_identity.Store.Keeps.{Keeps, Keeps-sql, keeps_rules}
use lurus_identity.Vip.{
  vip_of, new_vip, vip_or_new, get_or_create, upsert_vip, save, list_configs, max_int16, regrade,
  recalculate, recalculate_from_wallet, grant_yearly_sub,
}
use lurus_identity.Wallet.Repo.{get_by_account_id}

abbrev pub IsGraded : AccountVip → Type 0
IsGraded v =
    v.level ≡ (if ltb v.spend_grant v.yearly_sub_grant then v.yearly_sub_grant else v.spend_grant)

abbrev pub AreGraded : Tables → Type 0
AreGraded t = All IsGraded t.vips

upserted :
    (v : AccountVip) (o : Option AccountVip) (vs : List AccountVip)
    → IsGraded v
    → All IsGraded vs
    → All IsGraded (upsert_vip v o vs)
unfolding upsert_vip
upserted v (some x) vs g h = All-update IsGraded (vip_of v.account_id) (λ _. v) vs (λ x e k. g) h
upserted v none vs g h = All-insert IsGraded v vs g h

regrade-IsGraded : (configs : List VipLevelConfig) (v : AccountVip) → IsGraded (regrade configs v)
unfolding regrade max_int16
regrade-IsGraded configs v = refl

save-AreGraded :
    (configs : List VipLevelConfig) (v : AccountVip) → Keeps AreGraded (save (regrade configs v))
unfolding save
save-AreGraded configs v = Keeps-sql _ (λ t h.
    upserted (regrade configs v) (first (vip_of (regrade configs v).account_id) t.vips) t.vips
      (regrade-IsGraded configs v) h)

vip_or_new-AreGraded :
    (a : ℕ) (o : Option AccountVip) (t : Tables) → AreGraded t → AreGraded (vip_or_new a o t).1
unfolding vip_or_new
vip_or_new-AreGraded a (some v) t h = h
vip_or_new-AreGraded a none t h = All-insert IsGraded (new_vip a) t.vips refl h

get_or_create-AreGraded : (a : ℕ) → Keeps AreGraded (get_or_create a)
unfolding get_or_create
get_or_create-AreGraded a =
    Keeps-sql _ (λ t h. vip_or_new-AreGraded a (first (vip_of a) t.vips) t h)

recalculate-AreGraded : (a : ℕ) (w : Result (Option Wallet)) → Keeps AreGraded (recalculate a w)
unfolding recalculate list_configs
recalculate-AreGraded a (ok (some w)) =
    search (keeps_rules, get_or_create-AreGraded, save-AreGraded)
recalculate-AreGraded a (ok none) = search keeps_rules
recalculate-AreGraded a (err e) = search keeps_rules

-- Where every account's level is the larger of its two grants, recalculating an account's level from
-- its wallet, and granting it a level for a yearly subscription, keep it so, whichever statements fail.
pub level_is_larger_grant :
    (a grant : ℕ)
    → Keeps AreGraded (recalculate_from_wallet a) × Keeps AreGraded (grant_yearly_sub a grant)
unfolding recalculate_from_wallet get_by_account_id grant_yearly_sub list_configs
level_is_larger_grant a grant = (
  search (keeps_rules, recalculate-AreGraded),
  search (keeps_rules, get_or_create-AreGraded, save-AreGraded),
)
