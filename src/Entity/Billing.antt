-- ===== src/Entity/Billing.antt =====
-- internal/domain/entity/wallet.go, refund.go, invoice.go and referral.go. Amounts are in units of
-- 0.0001 CNY, instants in nanoseconds. Texts that are only shown to people (descriptions, metadata,
-- callback data) and the automatic `updated_at` columns are left out.
use lurus_identity.Base.{ℕ, String, Bool, true, false, Option, List, ℤ}

pub record Wallet : Type 0 where
  pub id : ℕ
  pub account_id : ℕ
  pub balance : ℤ
  pub frozen : ℤ
  pub lifetime_topup : ℤ
  pub lifetime_spend : ℤ

-- The formatted texts that the code writes into `reference_id`, one constructor for each format.
pub data Reference : Type 0 where
  plain : String → Reference
  referee checkin renewal_sub refund_renewal_sub : ℕ → Reference

pub record WalletTransaction : Type 0 where
  pub id : ℕ
  pub wallet_id : ℕ
  pub account_id : ℕ
  pub tx_type : String
  pub amount : ℤ
  pub balance_after : ℤ
  pub product_id : String
  pub reference_type : String
  pub reference_id : Reference

-- "expired" is written by `ExpireStalePendingOrders` alone.
pub data OrderStatus : Type 0 where
  pending paid failed cancelled refunded expired : OrderStatus

pub record PaymentOrder : Type 0 where
  pub id : ℕ
  pub account_id : ℕ
  pub order_no : String
  pub order_type : String
  pub product_id : String
  pub plan_id : Option ℕ
  pub amount_cny : ℤ
  pub payment_method : String
  pub status : OrderStatus
  pub external_id : String
  pub paid_at : Option ℕ
  pub created_at : ℕ

abbrev pub is_pending_order : OrderStatus → Bool
is_pending_order OrderStatus.pending = true
is_pending_order _ = false

abbrev pub is_paid : OrderStatus → Bool
is_paid OrderStatus.paid = true
is_paid _ = false

pub record RedemptionCode : Type 0 where
  pub id : ℕ
  pub code : String
  pub product_id : String
  pub reward_type : String
  pub reward_value : ℤ
  pub max_uses : ℕ
  pub used_count : ℕ
  pub expires_at : Option ℕ

pub data RefundStatus : Type 0 where
  pending approved rejected completed : RefundStatus

pub record Refund : Type 0 where
  pub id : ℕ
  pub refund_no : String
  pub account_id : ℕ
  pub order_no : String
  pub amount_cny : ℤ
  pub reason : String
  pub status : RefundStatus
  pub review_note : String
  pub reviewed_by : String
  pub reviewed_at : Option ℕ
  pub completed_at : Option ℕ
  pub created_at : ℕ

abbrev pub is_pending_refund : RefundStatus → Bool
is_pending_refund RefundStatus.pending = true
is_pending_refund _ = false

-- `status IN ('pending','approved')`
abbrev pub in_progress : RefundStatus → Bool
in_progress RefundStatus.pending = true
in_progress RefundStatus.approved = true
in_progress _ = false

pub data ReferralEvent : Type 0 where
  signup first_topup first_subscription : ReferralEvent
  renewal_royalty : ℕ → ReferralEvent

pub record RewardEvent : Type 0 where
  pub referrer_id : ℕ
  pub referee_id : ℕ
  pub event_type : ReferralEvent
  pub reward_credits : ℤ

pub data InvoiceStatus : Type 0 where
  draft issued : InvoiceStatus

pub record InvoiceLineItem : Type 0 where
  pub description : String
  pub quantity : ℕ
  pub unit_price : ℤ
  pub amount : ℤ

pub record Invoice : Type 0 where
  pub id : ℕ
  pub invoice_no : String
  pub account_id : ℕ
  pub order_no : String
  pub issue_date : ℕ
  pub line_items : List InvoiceLineItem
  pub subtotal_cny : ℤ
  pub total_cny : ℤ
  pub currency : String
  pub status : InvoiceStatus
  pub created_at : ℕ
