-- ===== src/Entitlement/Frame.antt =====
-- The entitlement operations write entitlements and the cache alone.
use lurus_identity.Base.{ℕ, String, List, [], ◌∷◌}
use lurus_identity.Entity.Identity.{Entitlement, Subscription}
use lurus_identity.Store.{Tables, CacheEntry}
use lurus_identity.Store.Keeps.{Keeps, Keeps-sql, Keeps-bind, keeps_rules}
use lurus_identity.Entitlement.{
  Entries, Numerals, upsert_entitlement, delete_entitlements, invalidate, get_plan_by_id,
  upsert_all, sync_from_subscription, reset_to_free, entitlement_of,
}

module _ {P : Tables → Type 0}
    (frame : (t : Tables) (es : List Entitlement) → P t → P (record t { entitlements = es }))
    (frame_cached : (t : Tables) (cs : List CacheEntry) → P t → P (record t { cached = cs })) where
  upsert_entitlement-Keeps : (e : Entitlement) → Keeps P (upsert_entitlement e)
  unfolding upsert_entitlement
  upsert_entitlement-Keeps e = Keeps-sql _ (λ t h. frame t _ h)

  delete_entitlements-Keeps : (a : ℕ) (p : String) → Keeps P (delete_entitlements a p)
  unfolding delete_entitlements
  delete_entitlements-Keeps a p = Keeps-sql _ (λ t h. frame t _ h)

  invalidate-Keeps : (a : ℕ) (p : String) → Keeps P (invalidate a p)
  unfolding invalidate
  invalidate-Keeps a p = Keeps-sql _ (λ t h. frame_cached t _ h)

  upsert_all-Keeps :
      (ns : Numerals) (sub : Subscription) (m : Entries) → Keeps P (upsert_all ns sub m)
  unfolding upsert_all
  upsert_all-Keeps ns sub [] = search keeps_rules
  upsert_all-Keeps ns sub ((k, v) ∷ m) =
      Keeps-bind _ _ (upsert_entitlement-Keeps (entitlement_of ns sub k v))
        (λ _. upsert_all-Keeps ns sub m)

  pub sync-Keeps : (ns : Numerals) (sub : Subscription) → Keeps P (sync_from_subscription ns sub)
  unfolding sync_from_subscription get_plan_by_id
  sync-Keeps ns sub = search (keeps_rules, upsert_all-Keeps, invalidate-Keeps)

  pub reset_to_free-Keeps : (a : ℕ) (p : String) → Keeps P (reset_to_free a p)
  unfolding reset_to_free
  reset_to_free-Keeps a p =
      search (keeps_rules, delete_entitlements-Keeps, upsert_entitlement-Keeps, invalidate-Keeps)
