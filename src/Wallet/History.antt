-- ===== src/Wallet/History.antt =====
-- Any sequence of calls of the wallet service, with any failing statements among them.
use lurus_identity.Base.{ℕ, refl, String, Bool, Option, none, some, List, [], ◌∷◌, ℤ, arith}
use lurus_identity.Table.{first}
use lurus_identity.Entity.Billing.{PaymentOrder}
use lurus_identity.Store.{Tables, Db, M, ⊤, pure, ◌>>◌}
use lurus_identity.Store.Keeps.{Keeps, Keeps-sql, Keeps-bind, keeps_rules}
use lurus_identity.Vip.{recalculate_from_wallet}
use lurus_identity.Vip.Frame.{recalculate_from_wallet-Keeps}
use lurus_identity.Wallet.Repo
use lurus_identity.Wallet.Repo.{TxInfo, has_order_no, insert_order}
use lurus_identity.Wallet.Service
use lurus_identity.Wallet.Service.{credit_topup}
use lurus_identity.Wallet.Ledger.{IsReconciled, IsReconciled-same}
use lurus_identity.Wallet.Invariant.{
  credit-IsReconciled, debit-IsReconciled, redeem_code-IsReconciled, get_or_create-IsReconciled,
}

-- The calls, with the readings of the clock and the generated order numbers as arguments.
pub data Call : Type 0 where
  open_wallet : ℕ → Call
  credit debit : ℕ → ℤ → TxInfo → Call
  topup : ℕ → ℤ → String → Call
  redeem : ℕ → ℕ → String → Call
  create_topup : ℕ → ℕ → ℤ → String → String → Call
  mark_order_paid : ℕ → String → Call
  expire_stale : ℕ → ℕ → Call

unfoldable pub perform : Call → M ⊤
perform (Call.open_wallet a) = Repo.get_or_create a >> pure tt
perform (Call.credit a amount info) = Repo.credit a amount info >> pure tt
perform (Call.debit a amount info) = Repo.debit a amount info >> pure tt
perform (Call.topup a amount n) = Service.topup a amount n >> pure tt
perform (Call.redeem now a code) = Repo.redeem_code now a code >> pure tt
perform (Call.create_topup now a amount m n) = Service.create_topup now a amount m n >> pure tt
perform (Call.mark_order_paid now n) = Service.mark_order_paid now n >> pure tt
perform (Call.expire_stale now age) = Repo.expire_stale_pending_orders now age >> pure tt

-- The state after the calls, in turn; a call that fails is followed by the next one.
unfoldable pub after : List Call → Db → Db
after [] s = s
after (c ∷ cs) s = after cs (perform c s).1

recalculate-IsReconciled : (a : ℕ) → Keeps IsReconciled (recalculate_from_wallet a)
recalculate-IsReconciled =
    recalculate_from_wallet-Keeps (λ t vs r. IsReconciled-same refl refl (omega arith) r)

topup-IsReconciled :
    (a : ℕ) (amount : ℤ) (n : String) → Keeps IsReconciled (Service.topup a amount n)
unfolding Service.topup
topup-IsReconciled a amount n =
    search (keeps_rules, recalculate-IsReconciled, credit-IsReconciled) depth 9

insert_order-IsReconciled :
    (o : PaymentOrder) (found : Option PaymentOrder) (t : Tables)
    → IsReconciled t
    → IsReconciled (insert_order o found t).1
unfolding insert_order
insert_order-IsReconciled o none t r = IsReconciled-same refl refl (omega arith) r
insert_order-IsReconciled o (some x) t r = r

create_payment_order-IsReconciled :
    (o : PaymentOrder) → Keeps IsReconciled (Repo.create_payment_order o)
unfolding Repo.create_payment_order
create_payment_order-IsReconciled o =
    Keeps-sql _ (λ t r. insert_order-IsReconciled o (first (has_order_no o.order_no) t.orders) t r)

mark-IsReconciled : (now : ℕ) (n : String) → Keeps IsReconciled (Repo.mark_payment_order_paid now n)
unfolding Repo.mark_payment_order_paid Repo.get_payment_order_by_no
mark-IsReconciled now n =
    Keeps-bind _ _ (Keeps-sql _ (λ t r. IsReconciled-same refl refl (omega arith) r))
      (λ rows. search keeps_rules)

credit_topup-IsReconciled :
    (did : Bool) (o : PaymentOrder) → Keeps IsReconciled (credit_topup did o)
unfolding credit_topup
credit_topup-IsReconciled did o = search (keeps_rules, topup-IsReconciled) depth 8

mark_order_paid-IsReconciled :
    (now : ℕ) (n : String) → Keeps IsReconciled (Service.mark_order_paid now n)
unfolding Service.mark_order_paid
mark_order_paid-IsReconciled now n =
    search (keeps_rules, mark-IsReconciled, credit_topup-IsReconciled)

expire-IsReconciled : (now age : ℕ) → Keeps IsReconciled (Repo.expire_stale_pending_orders now age)
unfolding Repo.expire_stale_pending_orders
expire-IsReconciled now age = Keeps-sql _ (λ t r. IsReconciled-same refl refl (omega arith) r)

create_topup-IsReconciled :
    (now a : ℕ) (amount : ℤ) (m n : String)
    → Keeps IsReconciled (Service.create_topup now a amount m n)
unfolding Service.create_topup
create_topup-IsReconciled now a amount m n = search (keeps_rules, create_payment_order-IsReconciled)

perform-IsReconciled : (c : Call) → Keeps IsReconciled (perform c)
unfolding perform
perform-IsReconciled (Call.open_wallet a) = search (keeps_rules, get_or_create-IsReconciled)
perform-IsReconciled (Call.credit a amount info) = search (keeps_rules, credit-IsReconciled)
perform-IsReconciled (Call.debit a amount info) = search (keeps_rules, debit-IsReconciled)
perform-IsReconciled (Call.topup a amount n) = search (keeps_rules, topup-IsReconciled)
perform-IsReconciled (Call.redeem now a code) = search (keeps_rules, redeem_code-IsReconciled)
perform-IsReconciled (Call.create_topup now a amount m n) =
    search (keeps_rules, create_topup-IsReconciled)
perform-IsReconciled (Call.mark_order_paid now n) =
    search (keeps_rules, mark_order_paid-IsReconciled)
perform-IsReconciled (Call.expire_stale now age) = search (keeps_rules, expire-IsReconciled)

-- Whatever calls are made from a reconciled state, and whichever of their statements fail, every
-- balance is the sum of the account's ledger entries and the wallets' ids stay distinct.
pub after-IsReconciled :
    (cs : List Call) (s : Db) → IsReconciled s.tables → IsReconciled (after cs s).tables
unfolding after
after-IsReconciled [] s r = r
after-IsReconciled (c ∷ cs) s r =
    after-IsReconciled cs (perform c s).1 ((perform-IsReconciled c).at s r)
