-- ===== src/Refund/Frame.antt =====
-- Cancelling a subscription writes the subscriptions alone.
use lurus_identity.Base.{ℕ, String, Option, none, some, List}
use lurus_identity.Entity.Identity.{Subscription}
use lurus_identity.Store.{Tables}
use lurus_identity.Store.Keeps.{Keeps, Keeps-sql, keeps_rules}
use lurus_identity.Subscription.Repo.{save_sub, conflict, save, get_active}
use lurus_identity.Subscription.Service.{cancel}

module _ {P : Tables → Type 0}
    (frame : (t : Tables) (ss : List Subscription)
      → P t
      → P (record t { subscriptions = ss })) where
  save_sub-Keeps :
      (s : Subscription) (o : Option Subscription) (t : Tables) → P t → P (save_sub s o t).1
  unfolding save_sub
  save_sub-Keeps s none t h = frame t _ h
  save_sub-Keeps s (some x) t h = h

  pub save-Keeps : (s : Subscription) → Keeps P (save s)
  unfolding save
  save-Keeps s = Keeps-sql _ (λ t h. save_sub-Keeps s (conflict s t.subscriptions) t h)

  pub cancel-Keeps : (a : ℕ) (p : String) → Keeps P (cancel a p)
  unfolding cancel get_active
  cancel-Keeps a p = search (keeps_rules, save-Keeps)
