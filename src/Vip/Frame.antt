-- ===== src/Vip/Frame.antt =====
-- The level operations write the table of levels alone: what ignores that table is kept.
use lurus_identity.Base.{ℕ, Option, none, some, List}
use lurus_identity.Table.{first}
use lurus_identity.Entity.Billing.{Wallet}
use lurus_identity.Entity.Identity.{AccountVip}
use lurus_identity.Store.{Tables, Result, ok, err}
use lurus_identity.Store.Keeps.{Keeps, Keeps-sql, keeps_rules}
use lurus_identity.Vip.{
  vip_of, vip_or_new, get_or_create, save, list_configs, recalculate, recalculate_from_wallet,
}
use lurus_identity.Wallet.Repo.{get_by_account_id}

module _ {P : Tables → Type 0}
    (frame : (t : Tables) (vs : List AccountVip) → P t → P (record t { vips = vs })) where
  new_vip-Keeps : (a : ℕ) (o : Option AccountVip) (t : Tables) → P t → P (vip_or_new a o t).1
  unfolding vip_or_new
  new_vip-Keeps a none t r = frame t _ r
  new_vip-Keeps a (some v) t r = r

  pub get_or_create-Keeps : (a : ℕ) → Keeps P (get_or_create a)
  unfolding get_or_create
  get_or_create-Keeps a = Keeps-sql _ (λ t r. new_vip-Keeps a (first (vip_of a) t.vips) t r)

  pub save-Keeps : (v : AccountVip) → Keeps P (save v)
  unfolding save
  save-Keeps v = Keeps-sql _ (λ t r. frame t _ r)

  recalculate-Keeps : (a : ℕ) (w : Result (Option Wallet)) → Keeps P (recalculate a w)
  unfolding recalculate list_configs
  recalculate-Keeps a (ok (some w)) = search (keeps_rules, get_or_create-Keeps, save-Keeps)
  recalculate-Keeps a (ok none) = search keeps_rules
  recalculate-Keeps a (err e) = search keeps_rules

  pub recalculate_from_wallet-Keeps : (a : ℕ) → Keeps P (recalculate_from_wallet a)
  unfolding recalculate_from_wallet get_by_account_id
  recalculate_from_wallet-Keeps a = search (keeps_rules, recalculate-Keeps)
