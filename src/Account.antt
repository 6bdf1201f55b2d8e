-- ===== src/Account.antt =====
-- Accounts: the repository, the account service and the registration.
pub mod Repo
pub mod Service
pub mod Registration
pub mod Frame
pub mod Codes
pub mod Once
pub mod CodeTests
pub mod Blocked
pub mod Login
pub mod Tests
