-- ===== src/Entity.antt =====
-- The rows of the database, the structs of internal/domain/entity.
pub mod Billing
pub mod Identity
pub mod Organization
pub mod Overview
pub mod Catalog
