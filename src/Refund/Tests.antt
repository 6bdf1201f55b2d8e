-- ===== src/Refund/Tests.antt =====
-- A refund that two administrators approve, one of them during failures.
use lurus_identity.Base.{
  ℕ, ◌≡◌, refl, inl, inr, true, false, none, [], ◌∷◌, List, pos, ◌+ℤ◌, arith, Bool-cases, ◌==◌,
}
use lurus_identity.Table.{first, count}
use lurus_identity.Entity.Billing.{Refund, RefundStatus, Wallet}
use lurus_identity.Store.{Tables, Db, ok, empty}
use lurus_identity.Store.Run.{run}
use lurus_identity.Wallet.Ledger.{IsReconciled, balance_of, ledger_sum}
use lurus_identity.Refund.{approve, is_pending}
use lurus_identity.Refund.Approval.{approve_pays}
use lurus_identity.Refund.Once.{ArePaidOnce}
use lurus_identity.Refund.History.{Call, after, after-ArePaidOnce}

abbrev refund_1 : Refund
refund_1 = record {
  id = 3;
  refund_no = "LR1";
  account_id = 7;
  order_no = "LO1";
  amount_cny = pos 100;
  reason = "";
  status = RefundStatus.pending;
  review_note = "";
  reviewed_by = "";
  reviewed_at = none;
  completed_at = none;
  created_at = 10;
}

abbrev wallet_of_7 : Wallet
wallet_of_7 = record {
  id = 1;
  account_id = 7;
  balance = pos 0;
  frozen = pos 0;
  lifetime_topup = pos 0;
  lifetime_spend = pos 0;
}

abbrev requested : Tables
requested = record empty { next_id = 4; wallets = wallet_of_7 ∷ []; refunds = refund_1 ∷ [] }

requested-ArePaidOnce : ArePaidOnce requested
unfolding count
requested-ArePaidOnce = record { paid = λ n. ground arith; unique = λ n. ground arith }

abbrev calls : List Call
calls =
    Call.approve 20 21 "LR1" "alice" ""
    ∷ Call.approve 22 23 "LR1" "bob" ""
    ∷ Call.reject 24 "LR1" "bob" ""
    ∷ Call.request 25 "LR2" 7 "LO1" ""
    ∷ []

-- The third statement fails.
abbrev troubled : Db
troubled = record { tables = requested; faults = false ∷ false ∷ true ∷ [] }

after-ArePaidOnce_example : ArePaidOnce (after calls troubled).tables
after-ArePaidOnce_example = after-ArePaidOnce calls troubled requested-ArePaidOnce

by_account : (a : ℕ) → balance_of a requested.wallets ≡ ledger_sum a requested.transactions
unfolding first ledger_sum
by_account a = elim (Bool-cases (7 == a)) [ inl e ↦ rw e refl | inr e ↦ rw e refl ]

requested-IsReconciled : IsReconciled requested
unfolding first
requested-IsReconciled = record { keyed = (omega arith, refl, tt); balances = by_account }

approve_pays_example :
    let (out, u) = run (approve 20 21 "LR1" "alice" "") requested in
    (out ≡ ok tt)
    × (balance_of 7 u.wallets ≡ pos 0 +ℤ pos 100)
    × (count (is_pending "LR1") u.refunds ≡ 0)
unfolding first
approve_pays_example =
    approve_pays 20 21 "LR1" "alice" "" 7 requested requested-IsReconciled refl refl refl
