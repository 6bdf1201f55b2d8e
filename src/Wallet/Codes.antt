-- ===== src/Wallet/Codes.antt =====
-- Redemption codes: no code is used more often than it allows, and a redemption uses it once.
use lurus_identity.Base.{ℕ, ◌+◌, ◌≤◌, inl, inr, String, arith, ◌==◌}
use lurus_identity.Table.Laws.{All, All-update}
use lurus_identity.Entity.Billing.{RedemptionCode, Wallet}
use lurus_identity.Store.{Tables}
use lurus_identity.Store.Keeps.{Keeps}
use lurus_identity.Store.Run.{Keeps-of_run}
use lurus_identity.Wallet.Repo.{redeem_code}
use lurus_identity.Wallet.Ledger.{IsReconciled}
use lurus_identity.Wallet.Postings.{IsRedeemable, redeemed, run-redeem, redeem_error}
use lurus_identity.Wallet.Invariant.{redeem_kept, redeem_code-IsSound, redeem_code-IsAtomic}

abbrev pub WithinLimit : RedemptionCode → Type 0
WithinLimit c = c.used_count ≤ c.max_uses

-- The ledger is reconciled and no code was used more often than it allows.
pub record AreWithinLimits (t : Tables) : Type 0 where
  pub ledger : IsReconciled t
  pub limits : All WithinLimit t.codes

redeemed-limits :
    (now a : ℕ) (rc : RedemptionCode) (w : Wallet) (t : Tables)
    → IsRedeemable now rc
    → All WithinLimit t.codes
    → All WithinLimit (redeemed a rc w t).codes
redeemed-limits now a rc w t v h =
    All-update WithinLimit (λ c. c.id == rc.id) (λ _. record rc { used_count = rc.used_count + 1 })
      t.codes (λ c e k. ground (arith, v.unused)) h

-- A redemption of any code by any account, whichever statements fail, uses no code more often than
-- it allows and keeps the ledger reconciled.
pub redeem_code-AreWithinLimits :
    (now a : ℕ) (code : String) → Keeps AreWithinLimits (redeem_code now a code)
redeem_code-AreWithinLimits now a code =
    Keeps-of_run AreWithinLimits _ (redeem_code-IsSound now a code)
      (redeem_code-IsAtomic now a code)
      λ t r. elim (redeem_error now a code t) [
        | inl (x, e) ↦ rw e r
        | inr (rc, w, found, v, h) ↦ record {
          ledger = redeem_kept now a code t r.ledger;
          limits =
              rw (run-redeem now a code t r.ledger found v h)
                (redeemed-limits now a rc w t v r.limits);
        }
      ]
