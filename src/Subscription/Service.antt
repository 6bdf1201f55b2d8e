-- ===== src/Subscription/Service.antt =====
-- internal/app/subscription_service.go. Each reading of the clock is an argument.
use lurus_identity.Base.{ℕ, ◌+◌, ◌*◌, String, false, Option, none, some, ◌==◌, if◌then◌else◌}
use lurus_identity.Entity.Identity.{Subscription, SubStatus, ProductPlan}
use lurus_identity.Store.{Error, M, ⊤, pure, ◌>>=◌, ◌>>◌, ignore, must}
use lurus_identity.Calendar.{Zone, one_day, calculate_expiry}
use lurus_identity.Entitlement.{Numerals, get_plan_by_id, sync_from_subscription, reset_to_free}
use lurus_identity.Subscription.Repo

-- What the service takes from the Go library, and its configuration.
pub record Settings : Type 0 where
  pub zone : Zone
  pub numerals : Numerals
  pub grace_period_days : ℕ

-- `NewSubscriptionService`: no grace period means three days.
unfoldable pub new_settings : Zone → Numerals → ℕ → Settings
new_settings z ns days = record {
  zone = z;
  numerals = ns;
  grace_period_days = if days == 0 then 3 else days;
}

abbrev pub expired_row : Subscription → Subscription
expired_row s = record s { status = SubStatus.expired }

unfoldable pub expire_existing : Option Subscription → M ⊤
expire_existing none = pure tt
expire_existing (some s) = Repo.save (expired_row s)

abbrev pub new_sub : Settings → ℕ → ℕ → String → ProductPlan → String → String → Subscription
new_sub c now a p plan method external = record {
  id = 0;
  account_id = a;
  product_id = p;
  plan_id = plan.id;
  status = SubStatus.active;
  started_at = some now;
  expires_at = calculate_expiry c.zone now plan.billing_cycle;
  grace_until = none;
  auto_renew = false;
  payment_method = method;
  external_sub_id = external;
  renewal_attempts = 0;
  next_renewal_at = none;
}

unfoldable pub activate : Settings → ℕ → ℕ → String → ℕ → String → String → M Subscription
unfolding expire_existing
activate c now a p plan_id method external = do
  plan ← must (get_plan_by_id plan_id) Error.plan_not_found
  existing ← Repo.get_active a p
  expire_existing existing
  sub ← Repo.create (record (new_sub c now a p plan method external) { plan_id = plan_id })
  ignore (sync_from_subscription c.numerals sub)
  pure sub

abbrev pub grace_row : Settings → ℕ → Subscription → Subscription
grace_row c now s = record s {
  status = SubStatus.grace;
  grace_until = some (now + c.grace_period_days * one_day);
}

unfoldable pub expire : Settings → ℕ → ℕ → M ⊤
expire c now i = do
  s ← must (Repo.get_by_id i) Error.subscription_not_found
  Repo.save (grace_row c now s)

unfoldable pub end_grace : ℕ → M ⊤
end_grace i = do
  s ← must (Repo.get_by_id i) Error.subscription_not_found
  Repo.save (expired_row s)
  reset_to_free s.account_id s.product_id

abbrev pub cancelled_row : Subscription → Subscription
cancelled_row s = record s { status = SubStatus.cancelled; auto_renew = false }

unfoldable pub cancel : ℕ → String → M ⊤
cancel a p = do
  s ← must (Repo.get_active a p) Error.no_active_subscription
  Repo.save (cancelled_row s)
