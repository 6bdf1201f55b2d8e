-- ===== src/Entity/Organization.antt =====
-- internal/domain/entity/organization.go. The prefix of a key that is shown, and the times of
-- creation and last use, are left out.
use lurus_identity.Base.{ℕ, String, ℤ}

pub record Organization : Type 0 where
  pub id : ℕ
  pub name : String
  pub slug : String
  pub owner_account_id : ℕ
  pub status : String
  pub plan : String

pub record OrgMember : Type 0 where
  pub org_id : ℕ
  pub account_id : ℕ
  pub role : String

pub record OrgApiKey : Type 0 where
  pub id : ℕ
  pub org_id : ℕ
  pub key_hash : String
  pub name : String
  pub created_by : ℕ
  pub status : String

pub record OrgWallet : Type 0 where
  pub org_id : ℕ
  pub balance : ℤ
  pub frozen : ℤ
  pub lifetime_topup : ℤ
  pub lifetime_spend : ℤ
