-- ===== src/Entity/Catalog.antt =====
-- internal/domain/entity/product.go and admin.go. Descriptions and the free-form configuration of a
-- product are left out, and so is the time of a setting's last change.
use lurus_identity.Base.{ℕ, String, Bool}

pub record Product : Type 0 where
  pub id : String
  pub name : String
  pub category : String
  pub billing_model : String
  pub status : ℕ
  pub sort_order : ℕ

pub record AdminSetting : Type 0 where
  pub key : String
  pub value : String
  pub is_secret : Bool
  pub updated_by : String
