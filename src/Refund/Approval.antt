-- ===== src/Refund/Approval.antt =====
-- What an approval does when nothing fails.
use lurus_identity.Base.{
  ℕ, ◌≡◌, refl, ◌∙◌, inl, inr, String, true, false, ◌&&◌, not, Option, none, some, arith,
  Bool-cases, ◌==◌, str_eq, ℤ, ◌+ℤ◌, if◌then◌else◌,
}
use lurus_identity.Table.{first, update, count}
use lurus_identity.Table.Laws.{first-holds, count-ne-zero}
use lurus_identity.Table.Count.{count-update_le, count-update_self}
use lurus_identity.Entity.Billing.{Wallet, Refund, RefundStatus, PaymentOrder, is_pending_refund}
use lurus_identity.Store.{
  Tables, Db, Event, Result, ok, err, M, ⊤, pure, ◌>>=◌, follow, raise_if, require, must, sql, try,
  ignore,
}
use lurus_identity.Store.Keeps.{Keeps, Keeps-sql, keeps_rules}
use lurus_identity.Store.Run.{run, calm, calm_of_run, run_of_calm}
use lurus_identity.Outbox.{insert_event, fall_back, publish_event}
use lurus_identity.Outbox.Frame.{publish_event-Keeps}
use lurus_identity.Wallet.Repo.{
  credit, credit_row, has_id, of_account, has_order_no, get_payment_order_by_no,
}
use lurus_identity.Wallet.Invariant.{credit-IsSound}
use lurus_identity.Wallet.Postings.{credit-IsPosting, run-credit}
use lurus_identity.Wallet.Ledger.{
  posted, IsReconciled, IsReconciled-same, balance_of, balance_of-posted,
}
use lurus_identity.Refund.{
  Review, approve, pay_back, complete, cancel_refunded, mark_completed, update_status, update_where,
  has_no, is_pending, reviewed, completed, refund_info, refund_event, get_by_refund_no,
}
use lurus_identity.Refund.Frame.{cancel-Keeps}

-- A balance, and that the refund is pending no more.
record IsPaid (b : ℕ) (x : ℤ) (n : String) (t : Tables) : Type 0 where
  amount : balance_of b t.wallets ≡ x
  settled : count (is_pending n) t.refunds ≡ 0

module _ {b : ℕ} {x : ℤ} {n : String} where
  mark_completed-IsPaid : (at : ℕ) → Keeps (IsPaid b x n) (mark_completed n at)
  unfolding mark_completed
  mark_completed-IsPaid at = Keeps-sql _ (λ t h. record {
    amount = h.amount;
    settled = omega (
      arith,
      count-update_le (is_pending n) (has_no n) (completed at) t.refunds (λ r. ground arith),
      h.settled,
    );
  })

  cancel_refunded-IsPaid :
      (a : ℕ) (r : Result (Option PaymentOrder)) → Keeps (IsPaid b x n) (cancel_refunded a r)
  unfolding cancel_refunded
  cancel_refunded-IsPaid a (ok none) = search keeps_rules
  cancel_refunded-IsPaid a (err e) = search keeps_rules
  cancel_refunded-IsPaid a (ok (some o)) = search (
    keeps_rules,
    cancel-Keeps {P = IsPaid b x n} (λ t ss h. record { amount = h.amount; settled = h.settled }),
  )

  event-IsPaid : (ev : Event) → Keeps (IsPaid b x n) (publish_event ev)
  event-IsPaid =
      publish_event-Keeps (λ t es h. record { amount = h.amount; settled = h.settled })
        (λ t es h. record { amount = h.amount; settled = h.settled })

  complete-IsPaid : (at : ℕ) (r : Refund) → Keeps (IsPaid b x n) (complete at n r)
  unfolding complete get_payment_order_by_no
  complete-IsPaid at r =
      search (keeps_rules, mark_completed-IsPaid, cancel_refunded-IsPaid, event-IsPaid)

fall_back_ok : (ev : Event) (r : Result ⊤) (s : Db) → (fall_back ev r s).0 ≡ ok tt
unfolding fall_back pure ignore
fall_back_ok ev (ok a) s = refl
fall_back_ok ev (err e) s = refl

publish_ok : (ev : Event) (s : Db) → (publish_event ev s).0 ≡ ok tt
unfolding publish_event try follow ◌>>=◌
publish_ok ev s = fall_back_ok ev (insert_event ev s).0 (insert_event ev s).1

cancel_ok : (a : ℕ) (r : Result (Option PaymentOrder)) (s : Db) → (cancel_refunded a r s).0 ≡ ok tt
unfolding cancel_refunded pure ignore
cancel_ok a (ok none) s = refl
cancel_ok a (err e) s = refl
cancel_ok a (ok (some o)) s =
    elim (Bool-cases (str_eq o.order_type "subscription" && not (str_eq o.product_id ""))) [
      | inl e ↦ rw e refl
      | inr e ↦ rw e refl
    ]

follow_ok :
    (k : M ⊤) (out : Result ⊤ × Db)
    → out.0 ≡ ok tt
    → ((s : Db) → (k s).0 ≡ ok tt)
    → (follow (λ _. k) out).0 ≡ ok tt
unfolding follow
follow_ok k (ok a, s) e h = h s
follow_ok k (err x, s) e h = cc

complete_ok : (at : ℕ) (n : String) (r : Refund) (t : Tables) → (complete at n r (calm t)).0 ≡ ok tt
unfolding complete mark_completed get_payment_order_by_no try sql follow ◌>>=◌
complete_ok at n r t =
    let o : Result (Option PaymentOrder) = ok (first (has_order_no r.order_no) t.orders) in
    let s = calm (record t { refunds = update (has_no n) (completed at) t.refunds }) in
    follow_ok (publish_event (refund_event r)) (cancel_refunded r.account_id o s)
      (cancel_ok r.account_id o s) (publish_ok (refund_event r))

approval : ℕ → String → String → Review
approval now note reviewer = record {
  status = RefundStatus.approved;
  note = note;
  reviewer = reviewer;
  at = now;
}

abbrev approved_refunds : String → Review → Tables → Tables
approved_refunds n v t = record t { refunds = update (is_pending n) (reviewed v) t.refunds }

update_status-calm :
    (n : String) (v : Review) (t : Tables)
    → (count (is_pending n) t.refunds == 0) ≡ false
    → update_status n v (calm t) ≡ (ok tt, calm (approved_refunds n v t))
unfolding update_status update_where raise_if sql follow ◌>>=◌
update_status-calm n v t e = rw e refl

-- The tables between the credit and the completion.
abbrev paid_tables : String → Review → Refund → Wallet → Tables → Tables
paid_tables n v r w t =
    posted r.account_id r.amount_cny (refund_info r.refund_no) (has_id w.id)
      (credit_row r.amount_cny "refund") w (approved_refunds n v t)

pay_back-calm :
    (now at : ℕ) (n reviewer note : String) (r : Refund) {w : Wallet} (t : Tables)
    → IsReconciled t
    → (count (is_pending n) t.refunds == 0) ≡ false
    → first (of_account r.account_id) t.wallets ≡ some w
    → pay_back now at n reviewer note r (calm t)
      ≡ complete at n r (calm (paid_tables n (approval now note reviewer) r w t))
unfolding pay_back approval follow ◌>>=◌
pay_back-calm now at n reviewer note r {w} t k some_rows h =
    let v = approval now note reviewer in
    let u = approved_refunds n v t in
    rw
      (
        update_status-calm n v t some_rows,
        calm_of_run (credit r.account_id r.amount_cny (refund_info r.refund_no))
            (credit-IsSound r.account_id r.amount_cny (refund_info r.refund_no))
            (run-credit r.account_id r.amount_cny (refund_info r.refund_no) u
              (IsReconciled-same refl refl (omega arith) k) h),
      )
      refl

paid_tables-IsPaid :
    (n : String) (v : Review) (r : Refund) (b : ℕ) {w : Wallet} (t : Tables)
    → is_pending_refund v.status ≡ false
    → IsReconciled t
    → first (of_account r.account_id) t.wallets ≡ some w
    → IsPaid b
        (if r.account_id == b
          then balance_of b t.wallets +ℤ r.amount_cny
          else balance_of b t.wallets)
        n
        (paid_tables n v r w t)
paid_tables-IsPaid n v r b t e k h = record {
  amount =
      balance_of-posted (IsReconciled-same refl refl (omega arith) k)
        (credit-IsPosting r.account_id r.amount_cny "refund" (approved_refunds n v t) h) b;
  settled = count-update_self (is_pending n) (reviewed v) t.refunds (λ x. ground (arith, e));
}

approve-calm :
    (now at : ℕ) (n reviewer note : String) {r : Refund} (t : Tables)
    → first (has_no n) t.refunds ≡ some r
    → is_pending_refund r.status ≡ true
    → approve now at n reviewer note (calm t) ≡ pay_back now at n reviewer note r (calm t)
unfolding approve get_by_refund_no must require raise_if sql follow ◌>>=◌
approve-calm now at n reviewer note t found p = rw found (rw p refl)

-- Without failures, from a reconciled state, approving a pending refund of an account with a wallet
-- succeeds, adds its amount to that account's balance and to no other, and leaves no pending refund of
-- that number.
pub approve_pays :
    (now at : ℕ) (n reviewer note : String) (b : ℕ) {r : Refund} {w : Wallet} (t : Tables)
    → IsReconciled t
    → first (has_no n) t.refunds ≡ some r
    → is_pending_refund r.status ≡ true
    → first (of_account r.account_id) t.wallets ≡ some w
    → let (out, u) = run (approve now at n reviewer note) t in
      (out ≡ ok tt)
      × (balance_of b u.wallets ≡ (
          if r.account_id == b
          then balance_of b t.wallets +ℤ r.amount_cny
          else balance_of b t.wallets))
      × (count (is_pending n) u.refunds ≡ 0)
unfolding approval
approve_pays now at n reviewer note b {r} {w} t k found p h =
    let v = approval now note reviewer in
    let some_rows =
      count-ne-zero (has_no n) (is_pending n) t.refunds found
        (ground (arith, first-holds (has_no n) t.refunds found)) in
    let done =
      (complete-IsPaid at r).at (calm (paid_tables n v r w t))
        (paid_tables-IsPaid n v r b t refl k h) in
    let whole =
      approve-calm now at n reviewer note t found p
      ∙ pay_back-calm now at n reviewer note r t k some_rows h in
    rw (run_of_calm (approve now at n reviewer note) t whole)
      (complete_ok at n r (paid_tables n v r w t), done.amount, done.settled)
