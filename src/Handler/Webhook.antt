-- ===== src/Handler/Webhook.antt =====
-- internal/adapter/handler/webhook.go: the payment providers' notifications. An answer is its HTTP
-- status; `now` is the reading of the clock for Redis, `at` and `then_at` are those of the services.
use lurus_identity.Base.{
  ℕ, String, Bool, true, false, ◌&&◌, not, Option, none, some, str_eq, if◌then◌else◌,
}
use lurus_identity.Entity.Billing.{PaymentOrder}
use lurus_identity.Store.{Error, Result, ok, err, M, ⊤, pure, ◌>>=◌, ◌>>◌, try}
use lurus_identity.Wallet.Service.{mark_order_paid}
use lurus_identity.Subscription.Service.{Settings, activate}
use lurus_identity.Payment.{
  Values, EpayClient, StripeProvider, CreemProvider, Verified, get_value, verify_callback,
  stripe_verify, creem_verify,
}
use lurus_identity.Idempotency.{WebhookDeduper, try_process}

pub record WebhookHandler : Type 0 where
  pub settings : Settings
  pub epay : Option EpayClient
  pub stripe : Option StripeProvider
  pub creem : Option CreemProvider
  pub deduper : WebhookDeduper

-- The readings of the clock while a notification is handled.
pub record Clock : Type 0 where
  pub marked_at : ℕ
  pub paid_at : ℕ
  pub activated_at : ℕ

unfoldable pub activate_paid : WebhookHandler → ℕ → PaymentOrder → Option ℕ → M ⊤
activate_paid h now o none = pure tt
activate_paid h now o (some plan) =
    if str_eq o.order_type "subscription" && not (str_eq o.product_id "")
    then activate h.settings now o.account_id o.product_id plan o.payment_method o.external_id
      >> pure tt
    else pure tt

unfoldable pub process_order_paid : WebhookHandler → Clock → String → M ⊤
unfolding activate_paid
process_order_paid h clock order_no = do
  o ← mark_order_paid clock.paid_at order_no
  activate_paid h clock.activated_at o o.plan_id

abbrev pub status_of : Result ⊤ → ℕ
status_of (ok _) = 200
status_of (err _) = 500

-- A duplicate is answered as a success; any other error of the deduplicator is passed over.
abbrev pub is_duplicate : Result ⊤ → Bool
is_duplicate (err Error.already_processed) = true
is_duplicate _ = false

unfoldable pub unless_seen : M ℕ → Result ⊤ → M ℕ
unless_seen k r = if is_duplicate r then pure 200 else k

unfoldable pub pay : WebhookHandler → Clock → String → M ℕ
pay h clock order_no = do done ← try (process_order_paid h clock order_no); pure (status_of done)

-- Stripe and Creem report events of other kinds with an empty order number.
unfoldable pub pay_if_any : WebhookHandler → Clock → String → M ℕ
pay_if_any h clock order_no = if str_eq order_no "" then pure 200 else pay h clock order_no

unfoldable pub epay_verified : WebhookHandler → Clock → Option String → M ℕ
epay_verified h clock none = pure 400
epay_verified h clock (some order_no) = pay h clock order_no

unfoldable pub epay_accept : WebhookHandler → Clock → Values → Option EpayClient → M ℕ
unfolding epay_verified
epay_accept h clock params none = pure 503
epay_accept h clock params (some c) = epay_verified h clock (verify_callback c params)

unfoldable pub epay_notify : WebhookHandler → Clock → Values → M ℕ
unfolding unless_seen epay_accept
epay_notify h clock params = do
  seen ← try (try_process h.deduper clock.marked_at (get_value params "trade_no"))
  unless_seen (epay_accept h clock params h.epay) seen

unfoldable pub stripe_accept : WebhookHandler → Clock → Verified → M ℕ
stripe_accept h clock (order_no, event_id, valid) = if not valid then pure 400 else (do
  seen ← try (try_process h.deduper clock.marked_at event_id)
  unless_seen (pay_if_any h clock order_no) seen)

unfoldable pub stripe_configured :
    WebhookHandler → Clock → String → String → Option StripeProvider → M ℕ
unfolding stripe_accept
stripe_configured h clock body sig none = pure 503
stripe_configured h clock body sig (some p) = stripe_accept h clock (stripe_verify p body sig)

-- `none` for a body that could not be read.
unfoldable pub stripe_webhook : WebhookHandler → Clock → Option String → String → M ℕ
unfolding stripe_configured
stripe_webhook h clock none sig = pure 400
stripe_webhook h clock (some body) sig = stripe_configured h clock body sig h.stripe

abbrev pub creem_event_id : CreemProvider → String → String
creem_event_id p body = elim (p.decode body) [ none ↦ "" | some ev ↦ ev.event_id ]

unfoldable pub creem_accept : WebhookHandler → Clock → String → Option String → M ℕ
creem_accept h clock event_id none = pure 401
creem_accept h clock event_id (some order_no) = do
  seen ← try (try_process h.deduper clock.marked_at event_id)
  unless_seen (pay_if_any h clock order_no) seen

unfoldable pub creem_configured :
    WebhookHandler → Clock → String → String → Option CreemProvider → M ℕ
unfolding creem_accept
creem_configured h clock body sig none = pure 503
creem_configured h clock body sig (some p) =
    creem_accept h clock (creem_event_id p body) (creem_verify p body sig)

unfoldable pub creem_webhook : WebhookHandler → Clock → Option String → String → M ℕ
unfolding creem_configured
creem_webhook h clock none sig = pure 400
creem_webhook h clock (some body) sig = creem_configured h clock body sig h.creem
