-- ===== src/Entity/Identity.antt =====
-- internal/domain/entity/account.go, subscription.go, product.go, vip.go and checkin.go.
use lurus_identity.Base.{ℕ, String, Bool, true, false, Option, List, ℤ, ◌==◌}
use lurus_identity.Text.{Text}

-- Names and pictures for display, the locale and `email_verified` are left out.
pub record Account : Type 0 where
  pub id : ℕ
  pub lurus_id : Text
  pub zitadel_sub : String
  pub email : String
  pub phone : String
  pub phone_verified : Bool
  pub status : ℕ
  pub username : String
  pub referrer_id : Option ℕ
  pub aff_code : String

abbrev pub status_active : ℕ
status_active = 1

unfoldable pub is_active_account : Account → Bool
is_active_account a = a.status == status_active

pub record OAuthBinding : Type 0 where
  pub id : ℕ
  pub account_id : ℕ
  pub provider : String
  pub provider_id : String
  pub provider_email : String

pub data SubStatus : Type 0 where
  pending trial active grace expired cancelled suspended : SubStatus

pub record Subscription : Type 0 where
  pub id : ℕ
  pub account_id : ℕ
  pub product_id : String
  pub plan_id : ℕ
  pub status : SubStatus
  pub started_at : Option ℕ
  pub expires_at : Option ℕ
  pub grace_until : Option ℕ
  pub auto_renew : Bool
  pub payment_method : String
  pub external_sub_id : String
  pub renewal_attempts : ℕ
  pub next_renewal_at : Option ℕ

-- `IsLive`, and `status IN ('active','grace','trial')` of the queries and of the unique index
abbrev pub is_live : SubStatus → Bool
is_live SubStatus.active = true
is_live SubStatus.grace = true
is_live SubStatus.trial = true
is_live _ = false

abbrev pub is_active : SubStatus → Bool
is_active SubStatus.active = true
is_active _ = false

abbrev pub is_grace : SubStatus → Bool
is_grace SubStatus.grace = true
is_grace _ = false

pub record Entitlement : Type 0 where
  pub account_id : ℕ
  pub product_id : String
  pub key : String
  pub value : String
  pub value_type : String
  pub source : String
  pub source_ref : Option ℕ
  pub expires_at : Option ℕ

pub data BillingCycle : Type 0 where
  forever weekly monthly quarterly yearly one_time : BillingCycle
  other : String → BillingCycle

-- A value of the JSON object `features`, as encoding/json decodes it.
pub data Feature : Type 0 where
  text : String → Feature
  bool : Bool → Feature
  number : String → Feature
  nested : String → Feature

pub record ProductPlan : Type 0 where
  pub id : ℕ
  pub product_id : String
  pub code : String
  pub billing_cycle : BillingCycle
  pub price_cny : ℤ
  pub status : ℕ
  pub sort_order : ℕ
  pub features : Option (List (String × Feature))

pub record AccountVip : Type 0 where
  pub account_id : ℕ
  pub level : ℕ
  pub level_name : String
  pub yearly_sub_grant : ℕ
  pub spend_grant : ℕ

pub record VipLevelConfig : Type 0 where
  pub level : ℕ
  pub name : String
  pub min_spend_cny : ℤ

-- `checkin_date` is a day number in place of the text yyyy-MM-dd.
pub record Checkin : Type 0 where
  pub id : ℕ
  pub account_id : ℕ
  pub checkin_date : ℕ
  pub reward_value : ℤ
