-- ===== src/Wallet.antt =====
-- Wallets: the repository, the service, and what holds of balances, the ledger, orders and codes.
pub mod Frame
pub mod Repo
pub mod Ledger
pub mod Postings
pub mod Invariant
pub mod Service
pub mod History
pub mod Balances
pub mod Orders
pub mod LostCredit
pub mod Codes
pub mod Tests
