-- ===== src/Store.antt =====
-- The state that every operation works on, and the monad of a call.
-- `Tables` is the database. A statement is sent by `sql`: it may fail for reasons of the database's
-- own, as the next entry of `faults` says, and then it changes nothing and the call gets `db_fault`.
-- Every property that ranges over the state ranges over all such failures.
pub mod Keeps
pub mod Run
pub mod Leads
use lurus_identity.Base.{
  ℕ, suc, ◌+◌, String, Bool, true, false, Option, none, some, List, [], ◌∷◌, if◌then◌else◌,
}
use lurus_identity.Entity.Billing.{
  Wallet, WalletTransaction, PaymentOrder, RedemptionCode, Refund, RewardEvent, Invoice,
}
use lurus_identity.Entity.Overview.{AccountOverview}
use lurus_identity.Entity.Catalog.{Product, AdminSetting}
use lurus_identity.Entity.Organization.{Organization, OrgMember, OrgApiKey, OrgWallet}
use lurus_identity.Entity.Identity.{
  Account, OAuthBinding, Subscription, Entitlement, ProductPlan, AccountVip, VipLevelConfig,
  Checkin,
}

-- Domain events, by subject, account and product (internal/pkg/event/types.go).
pub record Event : Type 0 where
  pub subject : String
  pub account_id : ℕ
  pub product_id : String

-- internal/domain/entity/outbox.go. The payload is the event whose JSON is stored; the error of the
-- last attempt is only logged and is left out.
pub record OutboxEvent : Type 0 where
  pub id : ℕ
  pub payload : Event
  pub published_at : Option ℕ
  pub attempts : ℕ

-- An entry of internal/pkg/cache/entitlement.go: the map of an account and a product.
pub record CacheEntry : Type 0 where
  pub account_id : ℕ
  pub product_id : String
  pub entries : List (String × String)

-- A key of internal/pkg/idempotency/webhook.go and the instant at which it expires.
pub record SeenEvent : Type 0 where
  pub event_id : String
  pub expires_at : ℕ

-- "pwd_reset:…" and "phone_verify:<account>:…"
pub data CodeKey : Type 0 where
  password_reset : String → CodeKey
  phone_verify : ℕ → String → CodeKey

-- A key of internal/app/registration_service.go, with its value and the instant at which it expires.
-- The value of a reset is the code with the Zitadel user; for a phone the second part is "".
pub record PendingCode : Type 0 where
  pub key : CodeKey
  pub code : String
  pub zitadel_sub : String
  pub expires_at : ℕ

-- A Redis key "sub:id:<sub>" of cmd/server/main.go: the account of a Zitadel user.
pub record SubEntry : Type 0 where
  pub zitadel_sub : String
  pub account_id : ℕ
  pub expires_at : ℕ

-- A Redis key of internal/pkg/cache/overview.go.
pub record OverviewEntry : Type 0 where
  pub account_id : ℕ
  pub product_id : String
  pub overview : AccountOverview
  pub expires_at : ℕ

-- A Redis key "email:remind:<subscription>:<days>" of internal/app/cron/notification.go.
pub record ReminderKey : Type 0 where
  pub sub_id : ℕ
  pub days : ℕ
  pub expires_at : ℕ

-- A reminder that was handed to the mail server.
pub record Mail : Type 0 where
  pub to : String
  pub sub_id : ℕ
  pub days : ℕ

pub record Tables : Type 0 where
  -- the sequences that give new rows their ids
  pub next_id : ℕ
  pub wallets : List Wallet
  pub transactions : List WalletTransaction
  pub orders : List PaymentOrder
  pub codes : List RedemptionCode
  pub refunds : List Refund
  pub reward_events : List RewardEvent
  pub accounts : List Account
  pub bindings : List OAuthBinding
  pub plans : List ProductPlan
  pub subscriptions : List Subscription
  pub entitlements : List Entitlement
  pub vips : List AccountVip
  pub vip_configs : List VipLevelConfig
  pub checkins : List Checkin
  pub organizations : List Organization
  pub members : List OrgMember
  pub api_keys : List OrgApiKey
  pub org_wallets : List OrgWallet
  -- the Redis cache of entitlements
  pub cached : List CacheEntry
  -- events in the outbox, and events sent straight to NATS
  pub outbox : List OutboxEvent
  pub sent : List Event
  pub invoices : List Invoice
  -- the Redis keys of the handled webhook events
  pub seen : List SeenEvent
  -- the Redis keys of verification codes
  pub pending_codes : List PendingCode
  -- the Redis keys of the users' accounts and of the cached overviews
  pub sub_ids : List SubEntry
  pub overviews : List OverviewEntry
  pub products : List Product
  pub settings : List AdminSetting
  -- the Redis keys of the reminders, and the mails that were sent
  pub reminders : List ReminderKey
  pub mails : List Mail

abbrev pub empty : Tables
empty = record {
  next_id = 1;
  wallets = [];
  transactions = [];
  orders = [];
  codes = [];
  refunds = [];
  reward_events = [];
  accounts = [];
  bindings = [];
  plans = [];
  subscriptions = [];
  entitlements = [];
  vips = [];
  vip_configs = [];
  checkins = [];
  organizations = [];
  members = [];
  api_keys = [];
  org_wallets = [];
  cached = [];
  outbox = [];
  sent = [];
  invoices = [];
  seen = [];
  pending_codes = [];
  sub_ids = [];
  overviews = [];
  products = [];
  settings = [];
  reminders = [];
  mails = [];
}

pub record Db : Type 0 where
  pub tables : Tables
  pub faults : List Bool

pub data Error : Type 0 where
  db_fault record_not_found unique_violation : Error
  -- internal/adapter/repo/wallet.go
  insufficient_balance invalid_code code_expired code_used_up unsupported_reward : Error
  -- internal/app
  amount_not_positive order_not_found : Error
  not_paid window_expired refund_in_progress refund_not_found refund_not_pending : Error
  transition_failed : Error
  invoice_not_found order_not_paid : Error
  already_processed : Error
  empty_wechat_id invalid_username short_password username_taken invalid_email : Error
  email_taken invalid_phone phone_taken zitadel_failed token_failed : Error
  identifier_required send_failed no_pending_code wrong_code account_not_found : Error
  plan_not_found subscription_not_found no_active_subscription bad_features : Error
  referrer_not_found already_checked_in : Error
  invalid_slug not_a_member permission_denied member_not_found last_owner invalid_api_key : Error
  bad_count no_code foreign_key_violation : Error

pub data Result (A : Type 0) : Type 0 where
  ok : A → Result A
  err : Error → Result A

abbrev pub M : Type 0 → Type 0
M A = Db → Result A × Db

abbrev pub ⊤ : Type 0
⊤ = Unit

unfoldable pub pure : {A : Type 0} → A → M A
pure a s = (ok a, s)

unfoldable pub raise : {A : Type 0} → Error → M A
raise e s = (err e, s)

unfoldable pub lift : {A : Type 0} → Result A → M A
lift r s = (r, s)

-- What follows a call.
unfoldable pub follow : {A B : Type 0} → (A → M B) → Result A × Db → Result B × Db
follow f (ok a, s) = f a s
follow f (err e, s) = (err e, s)

infixl 5 ◌>>=◌ ◌>>◌
unfoldable pub ◌>>=◌ : {A B : Type 0} → M A → (A → M B) → M B
unfolding follow
◌>>=◌ m f s = follow f (m s)

abbrev pub ◌>>◌ : {A B : Type 0} → M A → M B → M B
m >> k = m >>= λ _. k

unfoldable pub raise_if : Bool → Error → M ⊤
raise_if b e s = (if b then err e else ok tt, s)

-- `nil` with no error is the repositories' answer for a missing row.
unfoldable pub require : {A : Type 0} → Option A → Error → M A
require none e s = (err e, s)
require (some a) e s = (ok a, s)

-- The next entry of the schedule of failures; past its end nothing fails.
unfoldable pub draw : List Bool → Bool × List Bool
draw [] = (false, [])
draw (b ∷ bs) = (b, bs)

-- The answer to a statement that failed, or did not.
unfoldable pub answer : {A : Type 0} → Bool → List Bool → Result A × Tables → Db → Result A × Db
answer true rest out s = (err db_fault, record s { faults = rest })
answer false rest out s = (out.0, record { tables = out.1; faults = rest })

-- One statement.
unfoldable pub sql : {A : Type 0} → (Tables → Result A × Tables) → M A
unfolding draw answer
sql q s = let (failed, rest) = draw s.faults in answer failed rest (q s.tables) s

-- A statement that only reads.
abbrev pub query : {A : Type 0} → (Tables → A) → M A
query f = sql (λ t. (ok (f t), t))

-- A statement that only writes.
abbrev pub exec : (Tables → Tables) → M ⊤
exec f = sql (λ t. (ok tt, f t))

-- The end of a transaction that began at `s`: commit, or roll the tables back.
unfoldable pub finish : {A : Type 0} → Db → Result A × Db → Result A × Db
finish s (ok a, s') = (ok a, s')
finish s (err e, s') = (err e, record s' { tables = s.tables })

-- `db.Transaction(f)`
unfoldable pub transaction : {A : Type 0} → M A → M A
unfolding finish
transaction m s = finish s (m s)

-- `_ = f()`, and errors that are logged only.
unfoldable pub ignore : {A : Type 0} → M A → M ⊤
ignore m s = (ok tt, (m s).1)

-- `x, err := f(); if err != nil || x == nil { return e }`
unfoldable pub must : {A : Type 0} → M (Option A) → Error → M A
must m e s = let (r, s') = m s in elim r [ ok o ↦ require o e s' | err _ ↦ (err e, s') ]

-- A statement whose error the caller inspects.
unfoldable pub try : {A : Type 0} → M A → M (Result A)
try m s = let (r, s') = m s in (ok r, s')
