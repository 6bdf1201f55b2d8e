-- ===== src/Refund/Reviews.antt =====
-- Requests, approvals and rejections keep the count of a refund's payments, whichever of their
-- statements fail.
use lurus_identity.Base.{
  ℕ, ◌≡◌, refl, subst, String, true, false, Option, none, some, inl, inr, Option-cases, arith,
  str_eq, eq_iff,
}
use lurus_identity.Table.{first, count, insert}
use lurus_identity.Table.Laws.{first-holds}
use lurus_identity.Table.Count.{count-insert, count-none}
use lurus_identity.Entity.Billing.{Refund, is_pending_refund, PaymentOrder}
use lurus_identity.Store.{Tables, Result, ok, err}
use lurus_identity.Store.Keeps.{Keeps, Keeps-sql, Keeps-bind, keeps_rules}
use lurus_identity.Store.Leads.{
  Leads, Leads-Keeps, Keeps-Leads, Leads-sql, Leads-raise_if, Leads-bind, Leads-must, Found,
  Leads-weaken,
}
use lurus_identity.Wallet.Repo.{get_payment_order_by_no}
use lurus_identity.Outbox.{publish_event}
use lurus_identity.Refund.{
  Review, approve, reject, request_refund, pay_back, complete, cancel_refunded, update_status,
  has_no, is_pending, refund_event, get_by_refund_no, get_pending_by_order_no, create,
  insert_refund,
}
use lurus_identity.Outbox.Frame.{publish_event-Keeps}
use lurus_identity.Refund.Frame.{cancel-Keeps}
use lurus_identity.Refund.Once.{
  ArePaidOnce, IsCleared, update_status-leads, credit-leads, mark_completed-Keeps,
}

cancel_refunded-Keeps :
    (a : ℕ) (r : Result (Option PaymentOrder)) → Keeps ArePaidOnce (cancel_refunded a r)
unfolding cancel_refunded
cancel_refunded-Keeps a (ok none) = search keeps_rules
cancel_refunded-Keeps a (err e) = search keeps_rules
cancel_refunded-Keeps a (ok (some o)) = search (
  keeps_rules,
  cancel-Keeps {P = ArePaidOnce} (λ t ss h. record { paid = h.paid; unique = h.unique }),
)

event-Keeps : (r : Refund) → Keeps ArePaidOnce (publish_event (refund_event r))
event-Keeps r =
    publish_event-Keeps (λ t es h. record { paid = h.paid; unique = h.unique })
      (λ t es h. record { paid = h.paid; unique = h.unique }) (refund_event r)

complete-Keeps : (at : ℕ) (n : String) (r : Refund) → Keeps ArePaidOnce (complete at n r)
unfolding complete get_payment_order_by_no
complete-Keeps at n r =
    search (keeps_rules, mark_completed-Keeps, cancel_refunded-Keeps, event-Keeps)

pay_back-leads :
    (now at : ℕ) (n reviewer note : String) (r : Refund)
    → r.refund_no ≡ n
    → Leads ArePaidOnce (pay_back now at n reviewer note r) (λ _. ArePaidOnce) ArePaidOnce
unfolding pay_back
pay_back-leads now at n reviewer note r e = Leads-bind _ _ (update_status-leads n _ refl) λ _.
    Leads-bind _ _ (rw e (credit-leads n r.account_id r.amount_cny))
      λ _. Leads-Keeps _ (complete-Keeps at n r) (λ t h. h)

pub approve-ArePaidOnce :
    (now at : ℕ) (n reviewer note : String) → Keeps ArePaidOnce (approve now at n reviewer note)
unfolding approve get_by_refund_no
approve-ArePaidOnce now at n reviewer note = Keeps-Leads _ (
    Leads-bind _ _
      (Leads-must {Q = λ (r : Refund) t. ArePaidOnce t × (r.refund_no ≡ n)} _ _ (
        Leads-sql _
          (λ t faults h.
            found t (first (has_no n) t.refunds) h (λ x. first-holds (has_no n) t.refunds))
          (λ t h. h)))
      λ r.
        Leads-bind _ _
          (Leads-raise_if {S = λ t. ArePaidOnce t × (r.refund_no ≡ n)} _ _ (λ t h f. h)
            (λ t h f. h.0))
          λ _. record { at = λ s h. (pay_back-leads now at n reviewer note r h.1).at s h.0 })
  where
    found :
        (t : Tables) (o : Option Refund)
        → ArePaidOnce t
        → ((x : Refund) → o ≡ some x → str_eq x.refund_no n ≡ true)
        → Found (λ (r : Refund) u. ArePaidOnce u × (r.refund_no ≡ n)) ArePaidOnce o t
    found t none h k = h
    found t (some x) h k = (h, (eq_iff x.refund_no n).0 (k x refl))

reviewed-Keeps :
    (n : String) (v : Review)
    → is_pending_refund v.status ≡ false
    → Keeps ArePaidOnce (update_status n v)
reviewed-Keeps n v e = Keeps-Leads _ (weaker (update_status-leads n v e))
  where
    weaker :
        Leads ArePaidOnce (update_status n v) (λ _. IsCleared n) ArePaidOnce
        → Leads ArePaidOnce (update_status n v) (λ _. ArePaidOnce) ArePaidOnce
    weaker k = Leads-weaken _ k (λ a t h. h.all)

pub reject-ArePaidOnce :
    (now : ℕ) (n reviewer note : String) → Keeps ArePaidOnce (reject now n reviewer note)
unfolding reject get_by_refund_no
reject-ArePaidOnce now n reviewer note =
    Keeps-bind _ _ (search keeps_rules)
      λ r. Keeps-bind _ _ (search keeps_rules) λ _. reviewed-Keeps n _ refl

inserted :
    (r : Refund) (i : ℕ) (t : Tables)
    → first (has_no r.refund_no) t.refunds ≡ none
    → ArePaidOnce t
    → ArePaidOnce (record t { next_id = i; refunds = insert r t.refunds })
inserted r i t e h = record {
  paid = λ m. ground (
    arith,
    count-insert (has_no m) r t.refunds,
    count-insert (is_pending m) r t.refunds,
    fresh m,
    h.paid m,
  );
  unique = λ m. ground (arith, count-insert (has_no m) r t.refunds, fresh m, h.unique m);
}
  where
    fresh : (m : String) → str_eq r.refund_no m ≡ true → count (has_no m) t.refunds ≡ 0
    fresh m same =
        subst (λ n. count (has_no n) t.refunds ≡ 0) ((eq_iff r.refund_no m).0 same)
          (count-none (has_no r.refund_no) t.refunds e)

insert_refund-ArePaidOnce :
    (r : Refund) (t : Tables)
    → ArePaidOnce t
    → ArePaidOnce (insert_refund r (first (has_no r.refund_no) t.refunds) t).1
unfolding insert_refund
insert_refund-ArePaidOnce r t h = elim (Option-cases (first (has_no r.refund_no) t.refunds)) [
  | inl e ↦ rw e (inserted (record r { id = t.next_id }) _ t e h)
  | inr (x, e) ↦ rw e h
]

create-ArePaidOnce : (r : Refund) → Keeps ArePaidOnce (create r)
unfolding create
create-ArePaidOnce r = Keeps-sql _ (λ t h. insert_refund-ArePaidOnce r t h)

pub request_refund-ArePaidOnce :
    (now : ℕ) (refund_no : String) (a : ℕ) (order_no reason : String)
    → Keeps ArePaidOnce (request_refund now refund_no a order_no reason)
unfolding request_refund get_pending_by_order_no get_payment_order_by_no
request_refund-ArePaidOnce now refund_no a order_no reason =
    search (keeps_rules, create-ArePaidOnce) depth 14
