-- ===== src/Organization.antt =====
-- internal/app/organization_service.go, and the statements of
-- internal/adapter/repo/organization.go that it sends. Slug validation by a regular expression and
-- the hash of a key are parameters; a random key is an argument.
pub mod Repo
pub mod Service
pub mod Owners
pub mod Demotion
pub mod Keys
pub mod Tests
