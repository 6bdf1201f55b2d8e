-- ===== src/Cron/Unique.antt =====
-- The subscription service and the scheduled jobs keep subscriptions unique, whichever statements
-- fail.
use lurus_identity.Table.{update}
use lurus_identity.Base.{ℕ, refl, String, Bool, Option, none, some, List, [], ◌∷◌, ℤ, arith}
use lurus_identity.Entity.Billing.{Wallet, WalletTransaction}
use lurus_identity.Entity.Identity.{Subscription, ProductPlan}
use lurus_identity.Store.{Event, Result, ok, err, M, ⊤, exec}
use lurus_identity.Store.Keeps.{Keeps, Keeps-sql, Keeps-bind, Keeps-try, keeps_rules}
use lurus_identity.Outbox.{publish_event}
use lurus_identity.Outbox.Frame.{publish_event-Keeps}
use lurus_identity.Entitlement.{Numerals, get_plan_by_id, sync_from_subscription, reset_to_free}
use lurus_identity.Entitlement.Frame.{sync-Keeps, reset_to_free-Keeps}
use lurus_identity.Wallet.Repo.{
  TxInfo, credit, debit, lock_wallet, reread_wallet, create_entry, debit_where,
  expire_stale_pending_orders,
}
use lurus_identity.Subscription.Repo.{
  get_by_id, get_active, list_active_expired, list_grace_expired, list_due_for_renewal,
}
use lurus_identity.Subscription.Service.{
  Settings, expire_existing, activate, expire, end_grace, cancel,
}
use lurus_identity.Subscription.Unique.{
  AreUnique, AreUnique-same, create-AreUnique, save-AreUnique, update_renewal_state-AreUnique,
}
use lurus_identity.Cron.{Counts, each}
use lurus_identity.Cron.Renewal.{activated, charged, process_one, renew_all, run_renewal}
use lurus_identity.Cron.Expiry.{enter_grace, leave_grace, after_first, after_list, run_expiry}

sync-AreUnique : (ns : Numerals) (s : Subscription) → Keeps AreUnique (sync_from_subscription ns s)
sync-AreUnique =
    sync-Keeps (λ t es h. AreUnique-same refl (omega arith) h)
      (λ t cs h. AreUnique-same refl (omega arith) h)

reset_to_free-AreUnique : (a : ℕ) (p : String) → Keeps AreUnique (reset_to_free a p)
reset_to_free-AreUnique =
    reset_to_free-Keeps (λ t es h. AreUnique-same refl (omega arith) h)
      (λ t cs h. AreUnique-same refl (omega arith) h)

publish_event-AreUnique : (ev : Event) → Keeps AreUnique (publish_event ev)
publish_event-AreUnique =
    publish_event-Keeps (λ t es h. AreUnique-same refl (omega arith) h)
      (λ t es h. AreUnique-same refl (omega arith) h)

create_entry-AreUnique :
    (a : ℕ) (x : ℤ) (info : TxInfo) (w : Wallet) → Keeps AreUnique (create_entry a x info w)
unfolding create_entry
create_entry-AreUnique a x info w = Keeps-sql _ (λ t h. AreUnique-same refl (omega arith) h)

wallets-AreUnique :
    (q : Wallet → Bool) (f : Wallet → Wallet)
    → Keeps AreUnique (exec (λ t. record t { wallets = update q f t.wallets }))
wallets-AreUnique q f = Keeps-sql _ (λ t h. AreUnique-same refl (omega arith) h)

credit-AreUnique : (a : ℕ) (x : ℤ) (info : TxInfo) → Keeps AreUnique (credit a x info)
unfolding credit lock_wallet reread_wallet
credit-AreUnique a x info = search (keeps_rules, wallets-AreUnique, create_entry-AreUnique) depth 12

debit_where-AreUnique : (i : ℕ) (x : ℤ) → Keeps AreUnique (debit_where i x)
unfolding debit_where
debit_where-AreUnique i x = Keeps-sql _ (λ t h. AreUnique-same refl (omega arith) h)

debit-AreUnique : (a : ℕ) (x : ℤ) (info : TxInfo) → Keeps AreUnique (debit a x info)
unfolding debit lock_wallet reread_wallet
debit-AreUnique a x info =
    search (keeps_rules, debit_where-AreUnique, create_entry-AreUnique) depth 16

stale-AreUnique : (now age : ℕ) → Keeps AreUnique (expire_stale_pending_orders now age)
unfolding expire_stale_pending_orders
stale-AreUnique now age = Keeps-sql _ (λ t h. AreUnique-same refl (omega arith) h)

pub expire_existing-AreUnique : (o : Option Subscription) → Keeps AreUnique (expire_existing o)
unfolding expire_existing
expire_existing-AreUnique none = search keeps_rules
expire_existing-AreUnique (some s) = save-AreUnique _

pub activate-AreUnique :
    (c : Settings) (now a : ℕ) (p : String) (plan : ℕ) (method external : String)
    → Keeps AreUnique (activate c now a p plan method external)
unfolding activate get_plan_by_id get_active
activate-AreUnique c now a p plan method external =
    search (keeps_rules, expire_existing-AreUnique, create-AreUnique, sync-AreUnique) depth 14

pub expire-AreUnique : (c : Settings) (now i : ℕ) → Keeps AreUnique (expire c now i)
unfolding expire get_by_id
expire-AreUnique c now i = search (keeps_rules, save-AreUnique)

pub end_grace-AreUnique : (i : ℕ) → Keeps AreUnique (end_grace i)
unfolding end_grace get_by_id
end_grace-AreUnique i = search (keeps_rules, save-AreUnique, reset_to_free-AreUnique)

pub cancel-AreUnique : (a : ℕ) (p : String) → Keeps AreUnique (cancel a p)
unfolding cancel get_active
cancel-AreUnique a p = search (keeps_rules, save-AreUnique)

each-AreUnique :
    {A : Type 0} (f : A → M ⊤) (xs : List A)
    → ((x : A) → Keeps AreUnique (f x))
    → Keeps AreUnique (each f xs)
unfolding each
each-AreUnique f [] k = search keeps_rules
each-AreUnique f (x ∷ xs) k =
    Keeps-bind _ _ (Keeps-try _ (k x))
      λ r. Keeps-bind _ _ (each-AreUnique f xs k) λ rest. search keeps_rules

activated-AreUnique :
    (s : Subscription) (plan : ProductPlan) (r : Result Subscription)
    → Keeps AreUnique (activated s plan r)
unfolding activated
activated-AreUnique s plan (ok x) =
    search (keeps_rules, update_renewal_state-AreUnique, publish_event-AreUnique)
activated-AreUnique s plan (err e) = search (keeps_rules, credit-AreUnique)

charged-AreUnique :
    (c : Settings) (now : ℕ) (s : Subscription) (plan : ProductPlan) (r : Result WalletTransaction)
    → Keeps AreUnique (charged c now s plan r)
unfolding charged
charged-AreUnique c now s plan (ok x) =
    search (keeps_rules, activate-AreUnique, activated-AreUnique)
charged-AreUnique c now s plan (err e) =
    search (keeps_rules, update_renewal_state-AreUnique, publish_event-AreUnique)

process_one-AreUnique :
    (c : Settings) (now : ℕ) (s : Subscription) → Keeps AreUnique (process_one c now s)
unfolding process_one get_plan_by_id
process_one-AreUnique c now s = search (keeps_rules, debit-AreUnique, charged-AreUnique)

renew_all-AreUnique :
    (c : Settings) (clock : Subscription → ℕ) (r : Result (List Subscription))
    → Keeps AreUnique (renew_all c clock r)
unfolding renew_all
renew_all-AreUnique c clock (ok ss) = each-AreUnique _ ss (λ s. process_one-AreUnique c (clock s) s)
renew_all-AreUnique c clock (err e) = search keeps_rules

pub run_renewal-AreUnique :
    (c : Settings) (now : ℕ) (clock : Subscription → ℕ) → Keeps AreUnique (run_renewal c now clock)
unfolding run_renewal list_due_for_renewal
run_renewal-AreUnique c now clock = search (keeps_rules, renew_all-AreUnique)

enter_grace-AreUnique :
    (c : Settings) (clock : Subscription → ℕ) (s : Subscription)
    → Keeps AreUnique (enter_grace c clock s)
unfolding enter_grace
enter_grace-AreUnique c clock s = search (keeps_rules, expire-AreUnique, publish_event-AreUnique)

leave_grace-AreUnique : (s : Subscription) → Keeps AreUnique (leave_grace s)
unfolding leave_grace
leave_grace-AreUnique s = search (keeps_rules, end_grace-AreUnique, publish_event-AreUnique)

after_first-AreUnique :
    (now : ℕ) (n : Counts) (r : Result (List Subscription)) → Keeps AreUnique (after_first now n r)
unfolding after_first
after_first-AreUnique now (d, f) (err e) = search keeps_rules
after_first-AreUnique now (d, f) (ok ss) =
    Keeps-bind _ _ (each-AreUnique leave_grace ss leave_grace-AreUnique)
      λ more. search (keeps_rules, stale-AreUnique)

after_list-AreUnique :
    (c : Settings) (now : ℕ) (clock : Subscription → ℕ) (r : Result (List Subscription))
    → Keeps AreUnique (after_list c now clock r)
unfolding after_list list_grace_expired
after_list-AreUnique c now clock (err e) = search keeps_rules
after_list-AreUnique c now clock (ok ss) =
    Keeps-bind _ _ (each-AreUnique _ ss (enter_grace-AreUnique c clock))
      λ n. search (keeps_rules, after_first-AreUnique)

pub run_expiry-AreUnique :
    (c : Settings) (now : ℕ) (clock : Subscription → ℕ) → Keeps AreUnique (run_expiry c now clock)
unfolding run_expiry list_active_expired
run_expiry-AreUnique c now clock = search (keeps_rules, after_list-AreUnique)
