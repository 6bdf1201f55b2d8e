-- ===== src/Entity/Overview.antt =====
-- The read model of internal/app/overview_service.go. Names and pictures for display are left out, as
-- are the points and the expiry of a VIP level, which nothing computes with. A rate is in hundredths.
use lurus_identity.Base.{ℕ, String, Bool, Option, ℤ}
use lurus_identity.Text.{Text}
use lurus_identity.Entity.Identity.{SubStatus}

pub record AccountSummary : Type 0 where
  pub id : ℕ
  pub lurus_id : Text

pub record VipSummary : Type 0 where
  pub level : ℕ
  pub level_name : String
  pub level_en : String

pub record WalletSummary : Type 0 where
  pub balance : ℤ
  pub frozen : ℤ
  pub discount_rate : ℕ
  pub discount_tier : String

pub record SubscriptionSummary : Type 0 where
  pub product_id : String
  pub plan_code : String
  pub status : SubStatus
  pub expires_at : Option ℕ
  pub auto_renew : Bool

pub record AccountOverview : Type 0 where
  pub account : AccountSummary
  pub vip : VipSummary
  pub wallet : WalletSummary
  pub subscription : Option SubscriptionSummary
  pub topup_url : String
