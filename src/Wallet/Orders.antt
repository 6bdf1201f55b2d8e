-- ===== src/Wallet/Orders.antt =====
-- Payment orders: a paid order is credited once, repeated notifications change nothing, and what a
-- failing statement in the middle does.
use mathlib.Core.Option
use lurus_identity.Base.{
  ℕ, ◌≡◌, ap, ◌∙◌, refl, true, false, none, some, String, List, arith, ◌==◌, str_eq, ℤ, ◌+ℤ◌,
  if◌then◌else◌,
}
use lurus_identity.Table.{first, update, count}
use lurus_identity.Table.Laws.{
  first-update, first-holds, count-zero, first-update_self, first_narrow, update-none, updated,
}
use lurus_identity.Entity.Billing.{Wallet, PaymentOrder, is_pending_order}
use lurus_identity.Store.{Tables, ok, pure, require, ◌>>=◌, ◌>>◌, follow, ignore, sql}
use lurus_identity.Store.Run.{run_of_calm, then_pure, run, calm, calm_of_run}
use lurus_identity.Wallet.Repo.{
  credit, entry, credit_row, has_id, of_account, has_order_no, is_pending, set_paid, marked,
  mark_payment_order_paid, get_payment_order_by_no,
}
use lurus_identity.Entity.Identity.{AccountVip}
use lurus_identity.Vip.Frame.{recalculate_from_wallet-Keeps}
use lurus_identity.Wallet.Invariant.{credit-IsSound}
use lurus_identity.Wallet.Postings.{credit-IsPosting, run-credit}
use lurus_identity.Wallet.Ledger.{
  posted, IsReconciled-same, balance_of, IsReconciled, balance_of-posted,
}
use lurus_identity.Wallet.Service.{topup_info, topup, credit_topup, mark_order_paid}

-- No order of that number is pending.
abbrev pub IsSettled : String → Tables → Type 0
IsSettled n t = first (is_pending n) t.orders ≡ none

-- The tables after the conditional UPDATE.
abbrev pub paid_up : ℕ → String → Tables → Tables
paid_up now n t = record t { orders = update (is_pending n) (set_paid now) t.orders }

-- The conditional UPDATE and the SELECT after it.
mark_payment_calm :
    (now : ℕ) (n : String) (t : Tables)
    → mark_payment_order_paid now n (calm t) ≡ (
      ok (marked (count (is_pending n) t.orders) (first (has_order_no n) (paid_up now n t).orders)),
      calm (paid_up now n t),
    )
unfolding mark_payment_order_paid get_payment_order_by_no sql pure ◌>>=◌
mark_payment_calm now n t = refl

pub mark_settled-calm :
    (now : ℕ) (n : String) {o : PaymentOrder} (t : Tables)
    → IsSettled n t
    → first (has_order_no n) t.orders ≡ some o
    → mark_order_paid now n (calm t) ≡ (ok o, calm t)
unfolding mark_order_paid credit_topup require pure ◌>>=◌
mark_settled-calm now n {o} t settled found =
    let out : marked (count (is_pending n) t.orders)
          (first (has_order_no n) (update (is_pending n) (set_paid now) t.orders))
        ≡ (some o, false) =
      rw (update-none (is_pending n) (set_paid now) t.orders settled)
        (rw found (ground (arith, count-zero (is_pending n) t.orders))) in
    rw (mark_payment_calm now n t, follow)
      (rw out (rw (update-none (is_pending n) (set_paid now) t.orders settled)))

-- Without failures, a notification for an order that exists and is not pending changes nothing, and
-- returns the order.
pub mark_settled :
    (now : ℕ) (n : String) {o : PaymentOrder} (t : Tables)
    → IsSettled n t
    → first (has_order_no n) t.orders ≡ some o
    → run (mark_order_paid now n) t ≡ (ok o, t)
mark_settled now n t settled found =
    run_of_calm (mark_order_paid now n) t (mark_settled-calm now n t settled found)

-- The UPDATE leaves no pending order of that number.
pub paid_up-IsSettled : (now : ℕ) (n : String) (t : Tables) → IsSettled n (paid_up now n t)
paid_up-IsSettled now n t =
    first-update_self (is_pending n) (set_paid now) t.orders (λ o. ground arith)

-- A pending order becomes paid.
pub first-paid_up :
    (now : ℕ) (n : String) {o : PaymentOrder} (t : Tables)
    → first (has_order_no n) t.orders ≡ some o
    → is_pending_order o.status ≡ true
    → first (has_order_no n) (paid_up now n t).orders ≡ some (set_paid now o)
first-paid_up now n {o} t found p =
    first-update (has_order_no n) (is_pending n) (set_paid now) t.orders (λ x. refl)
    ∙ ap (Option.map (updated (is_pending n) (set_paid now))) found
    ∙ ground (arith, first-holds (has_order_no n) t.orders found)

-- The answer about a pending order.
pub marked_pending :
    (now : ℕ) (n : String) {o : PaymentOrder} (t : Tables)
    → first (has_order_no n) t.orders ≡ some o
    → is_pending_order o.status ≡ true
    → marked (count (is_pending n) t.orders) (first (has_order_no n) (paid_up now n t).orders)
      ≡ (some (set_paid now o), true)
marked_pending now n {o} t found p =
    let pending : first (is_pending n) t.orders ≡ some o =
      first_narrow (has_order_no n) (is_pending n) t.orders (λ y e. rw e) found
        (ground (arith, first-holds (has_order_no n) t.orders found)) in
    rw (first-paid_up now n t found p) (rw (count-zero (is_pending n) t.orders) (rw pending))

mark_topup-calm :
    (now : ℕ) (n : String) {o : PaymentOrder} (t : Tables)
    → first (has_order_no n) t.orders ≡ some o
    → is_pending_order o.status ≡ true
    → str_eq o.order_type "topup" ≡ true
    → mark_order_paid now n (calm t)
      ≡ (topup o.account_id o.amount_cny o.order_no >> pure (set_paid now o))
          (calm (paid_up now n t))
unfolding mark_order_paid credit_topup follow require ◌>>=◌
mark_topup-calm now n t found p is_topup =
    rw (mark_payment_calm now n t, follow) (rw (marked_pending now n t found p) (rw is_topup))

-- A topup: the posting, then a recalculation that `P` does not see.
topup_lem :
    (P : Tables → Type 0)
    → ((t : Tables) (vs : List AccountVip) → P t → P (record t { vips = vs }))
    → (a : ℕ) (amount : ℤ) (n : String) {w : Wallet} (t : Tables) → IsReconciled t
    → first (of_account a) t.wallets ≡ some w
    → P (posted a amount (topup_info n) (has_id w.id) (credit_row amount "topup") w t)
    → ((topup a amount n (calm t)).0
        ≡ ok (entry t.next_id a amount (topup_info n) (credit_row amount "topup" w)))
      × P (topup a amount n (calm t)).1.tables
unfolding topup ignore pure ◌>>=◌
topup_lem P frame a amount n t r h k =
    rw
      (
        calm_of_run (credit a amount (topup_info n)) (credit-IsSound a amount (topup_info n))
            (run-credit a amount (topup_info n) t r h),
        follow,
      )
      (refl, (recalculate_from_wallet-Keeps frame a).at _ k)

-- Without failures, from a reconciled state, the notification for a pending topup order of an account
-- with a wallet returns the order as paid, adds its amount to that account's balance and to no other,
-- and leaves no pending order of that number.
pub mark_order_paid_balances :
    (now : ℕ) (n : String) (b : ℕ) {o : PaymentOrder} {w : Wallet} (t : Tables)
    → IsReconciled t
    → first (has_order_no n) t.orders ≡ some o
    → is_pending_order o.status ≡ true
    → str_eq o.order_type "topup" ≡ true
    → first (of_account o.account_id) t.wallets ≡ some w
    → (run (mark_order_paid now n) t).0 ≡ ok (set_paid now o)
      × (balance_of b (run (mark_order_paid now n) t).1.wallets ≡ (
          if o.account_id == b
          then balance_of b t.wallets +ℤ o.amount_cny
          else balance_of b t.wallets))
      × IsSettled n (run (mark_order_paid now n) t).1
mark_order_paid_balances now n b {o} {w} t r found p is_topup h =
    let u = paid_up now n t in
    let ru : IsReconciled u = IsReconciled-same refl refl (omega arith) r in
    let (done, kept) =
      topup_lem
        (λ (v : Tables).
          (balance_of b v.wallets ≡ (
            if o.account_id == b
            then balance_of b t.wallets +ℤ o.amount_cny
            else balance_of b t.wallets))
          × IsSettled n v)
        (λ v vs x. x) o.account_id o.amount_cny o.order_no u ru h
        (
          balance_of-posted ru (credit-IsPosting o.account_id o.amount_cny "topup" u h) b,
          paid_up-IsSettled now n t,
        ) in
    let whole =
      mark_topup-calm now n t found p is_topup
      ∙ then_pure (topup o.account_id o.amount_cny o.order_no) (set_paid now o) (calm u) done in
    rw (run_of_calm (mark_order_paid now n) t whole) (refl, kept.0, kept.1)
