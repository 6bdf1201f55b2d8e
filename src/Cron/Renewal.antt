-- ===== src/Cron/Renewal.antt =====
-- internal/app/cron/renewal.go.
use lurus_identity.Base.{ℕ, zero, suc, ◌+◌, ◌*◌, String, Option, none, some, List}
use lurus_identity.Entity.Billing.{Reference, WalletTransaction}
use lurus_identity.Entity.Identity.{Subscription, ProductPlan}
use lurus_identity.Store.{
  Event, Error, Result, ok, err, M, ⊤, pure, raise, ◌>>=◌, ◌>>◌, must, ignore, try,
}
use lurus_identity.Calendar.{one_hour}
use lurus_identity.Outbox.{publish_event}
use lurus_identity.Entitlement.{get_plan_by_id}
use lurus_identity.Wallet.Repo.{TxInfo, credit, debit}
use lurus_identity.Subscription.Repo.{list_due_for_renewal, update_renewal_state}
use lurus_identity.Subscription.Service.{Settings, activate}
use lurus_identity.Cron.{Counts, each}

-- The wait after an attempt: 1 hour, 4 hours, then 12.
unfoldable pub backoff : ℕ → ℕ
backoff (suc zero) = one_hour
backoff (suc (suc zero)) = 4 * one_hour
backoff _ = 12 * one_hour

unfoldable pub next_renewal_at : ℕ → ℕ → Option ℕ
unfolding backoff
next_renewal_at now attempts = some (now + backoff attempts)

abbrev pub charge : Subscription → TxInfo
charge sub = record {
  tx_type = "subscription_renewal";
  reference_type = "subscription";
  reference_id = Reference.renewal_sub sub.id;
  product_id = sub.product_id;
}

abbrev pub compensation : Subscription → TxInfo
compensation sub = record {
  tx_type = "subscription_renewal_refund";
  reference_type = "subscription";
  reference_id = Reference.refund_renewal_sub sub.id;
  product_id = sub.product_id;
}

abbrev pub renewal_event : String → Subscription → Event
renewal_event subject sub = record {
  subject = subject;
  account_id = sub.account_id;
  product_id = sub.product_id;
}

-- After `Activate`: the counter is reset, or the price is paid back and the error returned.
unfoldable pub activated : Subscription → ProductPlan → Result Subscription → M ⊤
activated sub plan (ok _) = do
  ignore (update_renewal_state sub.id 0 none)
  publish_event (renewal_event "identity.subscription.activated" sub)
activated sub plan (err e) = do
  ignore (credit sub.account_id plan.price_cny (compensation sub))
  raise e

-- After `Debit`: a new cycle, or another attempt later.
unfoldable pub charged : Settings → ℕ → Subscription → ProductPlan → Result WalletTransaction → M ⊤
unfolding activated next_renewal_at
charged c now sub plan (ok _) = do
  r ← try (
      activate c now sub.account_id sub.product_id sub.plan_id sub.payment_method
        sub.external_sub_id)
  activated sub plan r
charged c now sub plan (err e) = do
  ignore (
      update_renewal_state sub.id (sub.renewal_attempts + 1)
        (next_renewal_at now (sub.renewal_attempts + 1)))
  publish_event (renewal_event "identity.subscription.expired" sub)
  raise e

unfoldable pub process_one : Settings → ℕ → Subscription → M ⊤
unfolding charged
process_one c now sub = do
  plan ← must (get_plan_by_id sub.plan_id) Error.plan_not_found
  r ← try (debit sub.account_id plan.price_cny (charge sub))
  charged c now sub plan r

-- `runRenewal` over what the query returned; `clock` is the time at which a row is processed.
unfoldable pub renew_all : Settings → (Subscription → ℕ) → Result (List Subscription) → M Counts
unfolding process_one
renew_all c clock (ok subs) = each (λ sub. process_one c (clock sub) sub) subs
renew_all c clock (err _) = pure (0, 0)

unfoldable pub run_renewal : Settings → ℕ → (Subscription → ℕ) → M Counts
unfolding renew_all
run_renewal c now clock = do subs ← try (list_due_for_renewal now); renew_all c clock subs
