-- ===== src/Wallet/Tests.antt =====
-- Concrete wallets, orders and codes, and the wallet theorems at them.
use lurus_identity.Base.{
  inr, inl, ◌==◌, Bool-cases, ℕ, ◌+ℤ◌, ◌-ℤ◌, int_laws, ◌≡◌, refl, none, some, List, [], ◌∷◌, pos,
  arith,
}
use lurus_identity.Table.{first}
use lurus_identity.Entity.Billing.{
  Wallet, WalletTransaction, PaymentOrder, RedemptionCode, Reference, OrderStatus,
}
use lurus_identity.Store.{Tables, Error, err, ok, empty}
use lurus_identity.Store.Run.{run, calm}
use lurus_identity.Wallet.Repo.{TxInfo, debit, redeem_code, set_paid, has_order_no}
use lurus_identity.Wallet.Service.{mark_order_paid}
use lurus_identity.Wallet.Ledger.{IsReconciled, balance_of, ledger_sum}
use lurus_identity.Wallet.History.{Call, after, after-IsReconciled}
use lurus_identity.Wallet.Balances.{AreSolvent, debit_balances, debit-AreSolvent}
use lurus_identity.Wallet.Orders.{IsSettled, mark_order_paid_balances, mark_settled}
use lurus_identity.Wallet.LostCredit.{lost_credit, third_fails}
use lurus_identity.Wallet.Codes.{AreWithinLimits, redeem_code-AreWithinLimits}

abbrev purchase : TxInfo
purchase = record {
  tx_type = "product_purchase";
  reference_type = "payment_order";
  reference_id = Reference.plain "LO1";
  product_id = "vpn";
}

abbrev pub wallet_of_7 : Wallet
wallet_of_7 = record {
  id = 1;
  account_id = 7;
  balance = pos 500;
  frozen = pos 0;
  lifetime_topup = pos 500;
  lifetime_spend = pos 0;
}

abbrev pub topup_of_7 : WalletTransaction
topup_of_7 = record {
  id = 2;
  wallet_id = 1;
  account_id = 7;
  tx_type = "topup";
  amount = pos 500;
  balance_after = pos 500;
  product_id = "";
  reference_type = "payment_order";
  reference_id = Reference.plain "LO0";
}

abbrev pub order_1 : PaymentOrder
order_1 = record {
  id = 3;
  account_id = 7;
  order_no = "LO1";
  order_type = "topup";
  product_id = "";
  plan_id = none;
  amount_cny = pos 100;
  payment_method = "stripe";
  status = OrderStatus.pending;
  external_id = "";
  paid_at = none;
  created_at = 10;
}

abbrev pub order_2 : PaymentOrder
order_2 = record order_1 { id = 4; order_no = "LO2"; status = OrderStatus.paid; paid_at = some 12 }

abbrev pub gift : RedemptionCode
gift = record {
  id = 5;
  code = "GIFT";
  product_id = "";
  reward_type = "credits";
  reward_value = pos 30;
  max_uses = 1;
  used_count = 0;
  expires_at = none;
}

abbrev pub shop : Tables
shop = record empty {
  next_id = 6;
  wallets = wallet_of_7 ∷ [];
  transactions = topup_of_7 ∷ [];
  orders = order_1 ∷ order_2 ∷ [];
  codes = gift ∷ [];
}

by_account : (a : ℕ) → balance_of a shop.wallets ≡ ledger_sum a shop.transactions
unfolding ledger_sum first ◌+ℤ◌
by_account a = elim (Bool-cases (7 == a)) [ inl e ↦ rw e refl | inr e ↦ rw e refl ]

pub shop-IsReconciled : IsReconciled shop
unfolding ledger_sum first ◌+ℤ◌
shop-IsReconciled = record { keyed = (omega arith, refl, tt); balances = λ a. by_account a }

-- A month of calls: a debit that fails, a notification, one that is repeated, and a code.
abbrev calls : List Call
calls =
    Call.debit 7 (pos 900) purchase
    ∷ Call.debit 7 (pos 200) purchase
    ∷ Call.mark_order_paid 20 "LO1"
    ∷ Call.mark_order_paid 21 "LO1"
    ∷ Call.redeem 22 7 "GIFT"
    ∷ Call.redeem 23 7 "GIFT"
    ∷ []

after-IsReconciled_example : IsReconciled (after calls (calm shop)).tables
after-IsReconciled_example = after-IsReconciled calls (calm shop) shop-IsReconciled

debit_balances_example : balance_of 7 (run (debit 7 (pos 200) purchase) shop).1.wallets ≡ pos 300
unfolding first ◌-ℤ◌
debit_balances_example = debit_balances 7 7 (pos 200) purchase shop shop-IsReconciled refl

debit-AreSolvent_example : AreSolvent (debit 7 (pos 900) purchase (calm shop)).1.tables
debit-AreSolvent_example =
    (debit-AreSolvent 7 (pos 900) purchase).at (calm shop) (omega int_laws, tt)

mark_order_paid_balances_example :
    ((run (mark_order_paid 20 "LO1") shop).0 ≡ ok (set_paid 20 order_1))
    × (balance_of 7 (run (mark_order_paid 20 "LO1") shop).1.wallets ≡ pos 600)
    × IsSettled "LO1" (run (mark_order_paid 20 "LO1") shop).1
unfolding first ◌+ℤ◌
mark_order_paid_balances_example =
    mark_order_paid_balances 20 "LO1" 7 shop shop-IsReconciled refl refl refl refl

mark_settled_example : run (mark_order_paid 20 "LO2") shop ≡ (ok order_2, shop)
unfolding first
mark_settled_example = mark_settled 20 "LO2" shop refl refl

lost_credit_example :
    let (r, s) = mark_order_paid 20 "LO1" (third_fails shop) in
    (r ≡ err Error.db_fault)
    × (first (has_order_no "LO1") s.tables.orders ≡ some (set_paid 20 order_1))
    × (s.tables.wallets ≡ shop.wallets)
    × (run (mark_order_paid 30 "LO1") s.tables ≡ (ok (set_paid 20 order_1), s.tables))
unfolding first
lost_credit_example = lost_credit 20 30 "LO1" shop refl refl refl

redeem_code-AreWithinLimits_example : AreWithinLimits (redeem_code 22 7 "GIFT" (calm shop)).1.tables
redeem_code-AreWithinLimits_example =
    (redeem_code-AreWithinLimits 22 7 "GIFT").at (calm shop)
      (record { ledger = shop-IsReconciled; limits = (omega arith, tt) })
