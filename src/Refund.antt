-- ===== src/Refund.antt =====
-- internal/app/refund_service.go and internal/adapter/repo/refund.go. The generated refund number and
-- each reading of the clock are arguments; the publisher, the outbox and the canceller are wired.
pub mod Frame
pub mod Once
pub mod Reviews
pub mod Approval
pub mod History
pub mod Tests
use lurus_identity.Base.{
  ℕ, suc, ◌+◌, ◌*◌, String, Bool, true, false, ◌&&◌, not, Option, none, some, ◌==◌, ltb, str_eq,
  if◌then◌else◌,
}
use lurus_identity.Table.{first, update, count, insert}
use lurus_identity.Entity.Billing.{
  PaymentOrder, Reference, Refund, RefundStatus, is_paid, is_pending_refund, in_progress,
}
use lurus_identity.Store.{
  Tables, Event, Error, Result, ok, err, M, ⊤, pure, ◌>>=◌, ◌>>◌, raise_if, require, must, sql,
  query, exec, ignore, try,
}
use lurus_identity.Calendar.{one_day}
use lurus_identity.Outbox.{publish_event}
use lurus_identity.Wallet.Repo.{TxInfo, credit, get_payment_order_by_no}
use lurus_identity.Subscription.Service.{cancel}

abbrev pub has_no : String → Refund → Bool
has_no n r = str_eq r.refund_no n

-- `refund_no` is unique.
unfoldable pub insert_refund : Refund → Option Refund → Tables → Result Refund × Tables
insert_refund r (some _) t = (err Error.unique_violation, t)
insert_refund r none t =
    let r' = record r { id = t.next_id } in
    (ok r', record t { next_id = suc t.next_id; refunds = insert r' t.refunds })

unfoldable pub create : Refund → M Refund
unfolding insert_refund
create r = sql (λ t. insert_refund r (first (has_no r.refund_no) t.refunds) t)

unfoldable pub get_by_refund_no : String → M (Option Refund)
get_by_refund_no n = query (λ t. first (has_no n) t.refunds)

unfoldable pub get_pending_by_order_no : String → M (Option Refund)
get_pending_by_order_no n =
    query (λ t. first (λ (r : Refund). str_eq r.order_no n && in_progress r.status) t.refunds)

-- `refund_no = ? AND status = 'pending'`
abbrev pub is_pending : String → Refund → Bool
is_pending n r = str_eq r.refund_no n && is_pending_refund r.status

-- The columns that a review writes.
pub record Review : Type 0 where
  pub status : RefundStatus
  pub note : String
  pub reviewer : String
  pub at : ℕ

abbrev pub reviewed : Review → Refund → Refund
reviewed v r = record r {
  status = v.status;
  review_note = v.note;
  reviewed_by = v.reviewer;
  reviewed_at = some v.at;
}

unfoldable pub update_where : String → Review → M ℕ
update_where n v = sql λ t. (
  ok (count (is_pending n) t.refunds),
  record t { refunds = update (is_pending n) (reviewed v) t.refunds },
)

-- `UpdateStatus`, whose callers all move from `pending`.
unfoldable pub update_status : String → Review → M ⊤
unfolding update_where
update_status n v = do rows ← update_where n v; raise_if (rows == 0) Error.transition_failed

abbrev pub completed : ℕ → Refund → Refund
completed at r = record r { status = RefundStatus.completed; completed_at = some at }

unfoldable pub mark_completed : String → ℕ → M ⊤
mark_completed n at = exec (λ t. record t { refunds = update (has_no n) (completed at) t.refunds })

-- `order == nil || order.AccountID != accountID`
abbrev pub owned_by : ℕ → Option PaymentOrder → Option PaymentOrder
owned_by a none = none
owned_by a (some o) = if o.account_id == a then some o else none

abbrev pub new_refund : ℕ → ℕ → String → String → PaymentOrder → Refund
new_refund now a refund_no reason o = record {
  id = 0;
  refund_no = refund_no;
  account_id = a;
  order_no = o.order_no;
  amount_cny = o.amount_cny;
  reason = reason;
  status = RefundStatus.pending;
  review_note = "";
  reviewed_by = "";
  reviewed_at = none;
  completed_at = none;
  created_at = now;
}

abbrev pub is_some : {A : Type 0} → Option A → Bool
is_some none = false
is_some (some _) = true

unfoldable pub request_refund : ℕ → String → ℕ → String → String → M Refund
request_refund now refund_no a order_no reason = do
  found ← get_payment_order_by_no order_no
  o ← require (owned_by a found) Error.order_not_found
  raise_if (not (is_paid o.status)) Error.not_paid
  raise_if (ltb (o.created_at + 7 * one_day) now) Error.window_expired
  pending ← get_pending_by_order_no order_no
  raise_if (is_some pending) Error.refund_in_progress
  create (record (new_refund now a refund_no reason o) { order_no = order_no })

-- A refund of another account is reported as missing.
unfoldable pub get_by_no : ℕ → String → M Refund
get_by_no a n = do
  r ← must (get_by_refund_no n) Error.refund_not_found
  raise_if (not (r.account_id == a)) Error.refund_not_found
  pure r

abbrev pub refund_info : String → TxInfo
refund_info n = record {
  tx_type = "refund";
  reference_type = "refund";
  reference_id = Reference.plain n;
  product_id = "";
}

-- `order != nil && order.OrderType == "subscription" && order.ProductID != ""`
unfoldable pub cancel_refunded : ℕ → Result (Option PaymentOrder) → M ⊤
cancel_refunded a (ok (some o)) =
    if str_eq o.order_type "subscription" && not (str_eq o.product_id "")
    then ignore (cancel a o.product_id)
    else pure tt
cancel_refunded a _ = pure tt

abbrev pub refund_event : Refund → Event
refund_event r = record {
  subject = "identity.refund.completed";
  account_id = r.account_id;
  product_id = "";
}

-- What follows the credit.
unfoldable pub complete : ℕ → String → Refund → M ⊤
unfolding cancel_refunded
complete at n r = do
  mark_completed n at
  o ← try (get_payment_order_by_no r.order_no)
  cancel_refunded r.account_id o
  publish_event (refund_event r)

-- `Approve` from the row that was read.
unfoldable pub pay_back : ℕ → ℕ → String → String → String → Refund → M ⊤
unfolding complete
pay_back now at n reviewer note r = do
  update_status n
      (record { status = RefundStatus.approved; note = note; reviewer = reviewer; at = now })
  credit r.account_id r.amount_cny (refund_info r.refund_no)
  complete at n r

unfoldable pub approve : ℕ → ℕ → String → String → String → M ⊤
unfolding pay_back
approve now at n reviewer note = do
  r ← must (get_by_refund_no n) Error.refund_not_found
  raise_if (not (is_pending_refund r.status)) Error.refund_not_pending
  pay_back now at n reviewer note r

unfoldable pub reject : ℕ → String → String → String → M ⊤
reject now n reviewer note = do
  r ← must (get_by_refund_no n) Error.refund_not_found
  raise_if (not (is_pending_refund r.status)) Error.refund_not_pending
  update_status n
      (record { status = RefundStatus.rejected; note = note; reviewer = reviewer; at = now })
