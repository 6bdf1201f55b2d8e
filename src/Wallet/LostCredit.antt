-- ===== src/Wallet/LostCredit.antt =====
-- `MarkOrderPaid` is two transactions: what happens when the second one fails.
use lurus_identity.Base.{ℕ, ◌≡◌, refl, true, false, some, String, [], ◌∷◌, str_eq}
use lurus_identity.Table.{first, count}
use lurus_identity.Entity.Billing.{PaymentOrder, is_pending_order}
use lurus_identity.Store.{
  Tables, Db, Error, ok, err, pure, require, ◌>>=◌, follow, sql, transaction,
}
use lurus_identity.Store.Run.{run}
use lurus_identity.Wallet.Repo.{
  has_order_no, is_pending, set_paid, marked, mark_payment_order_paid, get_payment_order_by_no,
  credit, lock_wallet,
}
use lurus_identity.Wallet.Service.{topup, credit_topup, mark_order_paid}
use lurus_identity.Wallet.Orders.{
  paid_up, mark_settled, paid_up-IsSettled, first-paid_up, marked_pending,
}

-- The third statement fails.
abbrev pub third_fails : Tables → Db
third_fails t = record { tables = t; faults = false ∷ false ∷ true ∷ [] }

abbrev now_fails : Tables → Db
now_fails t = record { tables = t; faults = true ∷ [] }

mark_payment_before :
    (now : ℕ) (n : String) (t : Tables)
    → mark_payment_order_paid now n (third_fails t) ≡ (
      ok (marked (count (is_pending n) t.orders) (first (has_order_no n) (paid_up now n t).orders)),
      now_fails (paid_up now n t),
    )
unfolding mark_payment_order_paid get_payment_order_by_no sql pure ◌>>=◌
mark_payment_before now n t = refl

topup_fails :
    (a : ℕ) (amount : _) (n : String) (t : Tables)
    → topup a amount n (now_fails t) ≡ (err Error.db_fault, record { tables = t; faults = [] })
unfolding topup credit lock_wallet sql transaction ◌>>=◌
topup_fails a amount n t = refl

mark_order_paid_fails :
    (now : ℕ) (n : String) {o : PaymentOrder} (t : Tables)
    → first (has_order_no n) t.orders ≡ some o
    → is_pending_order o.status ≡ true
    → str_eq o.order_type "topup" ≡ true
    → mark_order_paid now n (third_fails t)
      ≡ (err Error.db_fault, record { tables = paid_up now n t; faults = [] })
unfolding mark_order_paid credit_topup require ◌>>=◌
mark_order_paid_fails now n {o} t found p is_topup =
    rw (mark_payment_before now n t, follow)
      (rw (marked_pending now n t found p) (
        rw is_topup
          (rw (topup_fails o.account_id o.amount_cny o.order_no (paid_up now n t), follow))))

-- When the notification of a pending topup order meets a failure at the statement that locks the
-- wallet, the call returns an error, the order is already paid and no wallet has changed; and every
-- later notification, without any failure, succeeds and changes nothing: the money is never credited.
pub lost_credit :
    (now later : ℕ) (n : String) {o : PaymentOrder} (t : Tables)
    → first (has_order_no n) t.orders ≡ some o
    → is_pending_order o.status ≡ true
    → str_eq o.order_type "topup" ≡ true
    → let (r, s) = mark_order_paid now n (third_fails t) in
      (r ≡ err Error.db_fault)
      × (first (has_order_no n) s.tables.orders ≡ some (set_paid now o))
      × (s.tables.wallets ≡ t.wallets)
      × (run (mark_order_paid later n) s.tables ≡ (ok (set_paid now o), s.tables))
lost_credit now later n {o} t found p is_topup =
    rw (mark_order_paid_fails now n t found p is_topup) (
      refl,
      first-paid_up now n t found p,
      refl,
      mark_settled later n (paid_up now n t) (paid_up-IsSettled now n t)
          (first-paid_up now n t found p),
    )
