-- ===== src/Checkin/Bounds.antt =====
-- How long a streak counts, and what a check-in pays.
use lurus_identity.Base.{ℕ, ◌*◌, ◌≤◌, ◌≡◌, ltb, ℤ, pos, ◌+ℤ◌, ◌≤ℤ◌, if◌then◌else◌}
use lurus_identity.Entity.Billing.{Wallet, WalletTransaction}
use lurus_identity.Entity.Identity.{Checkin}
use lurus_identity.Store.{Tables, Result, ok, err}
use lurus_identity.Store.Keeps.{Keeps}
use lurus_identity.Store.Leads.{Leads}
use lurus_identity.Wallet.Ledger.{IsReconciled, balance_of}
use lurus_identity.Checkin.{CheckinResult, multiplier, rounded}

abbrev reward_of : ℕ → ℕ
reward_of tiers =
    let (n, d) = multiplier tiers in
    if ltb (10000 * d) (1000 * n) then 10000 else rounded (1000 * n) d

abbrev pub Any : Tables → Type 0
Any t = Unit

-- The balance of the account is `b`, and the ledger accounts for every balance.
abbrev pub Holds : ℕ → ℤ → Tables → Type 0
Holds a b t = IsReconciled t × (balance_of a t.wallets ≡ b)

-- What a check-in that succeeds reports, and what it did to the balance `b`.
pub record IsModest (a : ℕ) (b : ℤ) (r : CheckinResult) (t : Tables) : Type 0 where
  pub days_pos : 1 ≤ r.consecutive_days
  pub days_le : r.consecutive_days ≤ 31
  pub reward_ge : pos 1000 ≤ℤ r.reward_value
  pub reward_le : r.reward_value ≤ℤ pos 5063
  pub paid : balance_of a t.wallets ≡ b +ℤ r.reward_value
  pub shown : r.wallet_balance ≡ b +ℤ r.reward_value

-- A credit and the balance that its entry records.
abbrev IsCredited : ℕ → ℤ → WalletTransaction → Tables → Type 0
IsCredited a after tx t = (balance_of a t.wallets ≡ after) × (tx.balance_after ≡ after)

module _ (a : ℕ) (b : ℤ) where
  abbrev Credited : ℤ → Result WalletTransaction × Tables → Type 0
  Credited after (ok tx, t) = IsCredited a after tx t
  Credited after (err e, t) = Unit
