-- ===== src/Subscription.antt =====
-- Subscriptions: the repository, the service, and what holds of live subscriptions.
pub mod Frame
pub mod Repo
pub mod Service
pub mod Renewable
pub mod Unique
pub mod Tests
