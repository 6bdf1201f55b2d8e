-- ===== src/Subscription/Frame.antt =====
-- An activation writes subscriptions, entitlements and their cache alone.
use lurus_identity.Base.{ℕ, suc, String, Option, none, some, List}
use lurus_identity.Entity.Identity.{Subscription, Entitlement}
use lurus_identity.Store.{Tables, CacheEntry}
use lurus_identity.Store.Keeps.{Keeps, Keeps-sql, keeps_rules}
use lurus_identity.Entitlement.{Numerals, get_plan_by_id, sync_from_subscription}
use lurus_identity.Entitlement.Frame.{sync-Keeps}
use lurus_identity.Subscription.Repo.{
  insert_sub, create, save_sub, save, conflict, numbered, get_active,
}
use lurus_identity.Subscription.Service.{Settings, expire_existing, activate}

module _ {P : Tables → Type 0}
    (frame : (t : Tables) (ss : List Subscription) → P t → P (record t { subscriptions = ss }))
    (frame_new : (t : Tables) (ss : List Subscription)
      → P t
      → P (record t { next_id = suc t.next_id; subscriptions = ss })) where
  insert_sub-Keeps :
      (s : Subscription) (o : Option Subscription) (t : Tables) → P t → P (insert_sub s o t).1
  unfolding insert_sub
  insert_sub-Keeps s none t h = frame_new t _ h
  insert_sub-Keeps s (some x) t h = h

  save_sub-Keeps :
      (s : Subscription) (o : Option Subscription) (t : Tables) → P t → P (save_sub s o t).1
  unfolding save_sub
  save_sub-Keeps s none t h = frame t _ h
  save_sub-Keeps s (some x) t h = h

  pub create-Keeps : (s : Subscription) → Keeps P (create s)
  unfolding create
  create-Keeps s = Keeps-sql _ (λ t h.
      insert_sub-Keeps (numbered t.next_id s) (conflict (numbered t.next_id s) t.subscriptions) t h)

  pub save-Keeps : (s : Subscription) → Keeps P (save s)
  unfolding save
  save-Keeps s = Keeps-sql _ (λ t h. save_sub-Keeps s (conflict s t.subscriptions) t h)

  expire_existing-Keeps : (o : Option Subscription) → Keeps P (expire_existing o)
  unfolding expire_existing
  expire_existing-Keeps none = search keeps_rules
  expire_existing-Keeps (some s) = save-Keeps _

  module _
      (frame_entitlements : (t : Tables) (es : List Entitlement)
        → P t
        → P (record t { entitlements = es }))
      (frame_cached : (t : Tables) (cs : List CacheEntry)
        → P t
        → P (record t { cached = cs })) where
    sync_sub-Keeps : (ns : Numerals) (s : Subscription) → Keeps P (sync_from_subscription ns s)
    sync_sub-Keeps = sync-Keeps frame_entitlements frame_cached

    pub activate-Keeps :
        (c : Settings) (now a : ℕ) (p : String) (plan : ℕ) (method external : String)
        → Keeps P (activate c now a p plan method external)
    unfolding activate get_plan_by_id get_active
    activate-Keeps c now a p plan method external =
        search (keeps_rules, expire_existing-Keeps, create-Keeps, sync_sub-Keeps) depth 14
