-- ===== src/Refund/Once.antt =====
-- What the steps of a review do to the count of a refund's payments.
use lurus_identity.Base.{
  ℕ, ◌+◌, ◌≤◌, ◌≡◌, refl, String, Bool, false, ◌&&◌, List, arith, ◌==◌, str_eq, eq_iff, ℤ,
}
use lurus_identity.Table.{count, update}
use lurus_identity.Table.Count.{count-insert, count-update_le, count-update, count-update_self}
use lurus_identity.Entity.Billing.{Reference, WalletTransaction, Wallet, Refund, is_pending_refund}
use lurus_identity.Store.{Tables, Error}
use lurus_identity.Store.Keeps.{Keeps, Keeps-sql, keeps_rules}
use lurus_identity.Store.Leads.{
  Leads, Leads-Keeps, Leads-sql, Leads-transaction, Leads-raise_if, Leads-bind,
}
use lurus_identity.Wallet.Repo.{credit, lock_wallet, reread_wallet, create_entry}
use lurus_identity.Refund.{
  Review, mark_completed, update_status, update_where, has_no, is_pending, reviewed, completed,
  refund_info,
}

abbrev pub refers_to : String → Reference → Bool
refers_to n (Reference.plain s) = str_eq s n
refers_to n _ = false

-- The ledger entries that pay a refund.
abbrev pub is_payout : String → WalletTransaction → Bool
is_payout n e = str_eq e.reference_type "refund" && refers_to n e.reference_id

abbrev pub payouts : String → Tables → ℕ
payouts n t = count (is_payout n) t.transactions

abbrev pub waiting : String → Tables → ℕ
waiting n t = count (is_pending n) t.refunds

abbrev pub filed : String → Tables → ℕ
filed n t = count (has_no n) t.refunds

-- A refund that was paid is not pending any more, and refund numbers are not used twice.
pub record ArePaidOnce (t : Tables) : Type 0 where
  pub paid :
      (n : String) → payouts n t + count (is_pending n) t.refunds ≤ count (has_no n) t.refunds
  pub unique : (n : String) → count (has_no n) t.refunds ≤ 1

-- Moreover refund `n` is approved and not paid yet.
pub record IsCleared (n : String) (t : Tables) : Type 0 where
  pub all : ArePaidOnce t
  pub unpaid : payouts n t + waiting n t + 1 ≤ filed n t

update_where-leads :
    (n : String) (v : Review)
    → is_pending_refund v.status ≡ false
    → Leads ArePaidOnce
        (update_where n v)
        (λ rows t. ArePaidOnce t × ((rows == 0) ≡ false → IsCleared n t))
        ArePaidOnce
unfolding update_where
update_where-leads n v e = Leads-sql _ (λ t faults h. go t h) (λ t h. h)
  where
    u : Tables → List Refund
    u t = update (is_pending n) (reviewed v) t.refunds

    same : (t : Tables) (m : String) → count (has_no m) (u t) ≡ count (has_no m) t.refunds
    same t m = count-update (has_no m) (is_pending n) (reviewed v) t.refunds (λ x. refl)

    fewer : (t : Tables) (m : String) → count (is_pending m) (u t) ≤ count (is_pending m) t.refunds
    fewer t m =
        count-update_le (is_pending m) (is_pending n) (reviewed v) t.refunds
          (λ x. ground (arith, e))

    gone : (t : Tables) → count (is_pending n) (u t) ≡ 0
    gone t = count-update_self (is_pending n) (reviewed v) t.refunds (λ x. ground (arith, e))

    kept : (t : Tables) → ArePaidOnce t → ArePaidOnce (record t { refunds = u t })
    kept t h = record {
      paid = λ m. omega (arith, same t m, fewer t m, h.paid m);
      unique = λ m. omega (arith, same t m, h.unique m);
    }

    go :
        (t : Tables)
        → ArePaidOnce t
        → ArePaidOnce (record t { refunds = u t })
          × ((count (is_pending n) t.refunds == 0) ≡ false
              → IsCleared n (record t { refunds = u t }))
    go t h = (
      kept t h,
      λ some_rows. record { all = kept t h; unpaid = ground (arith, same t n, gone t, h.paid n) },
    )

pub update_status-leads :
    (n : String) (v : Review)
    → is_pending_refund v.status ≡ false
    → Leads ArePaidOnce (update_status n v) (λ _. IsCleared n) ArePaidOnce
unfolding update_status
update_status-leads n v e =
    Leads-bind _ _ (update_where-leads n v e)
      λ rows. Leads-raise_if (rows == 0) Error.transition_failed (λ t h f. h.1 f) (λ t h f. h.0)

payout-leads :
    (n : String) (a : ℕ) (amount : ℤ) (w : Wallet)
    → Leads (IsCleared n) (create_entry a amount (refund_info n) w) (λ _. ArePaidOnce) ArePaidOnce
unfolding create_entry
payout-leads n a amount w =
    Leads-sql _
      (λ t faults h. record {
        paid = λ m.
            rw (count-insert (is_payout m) _ t.transactions)
              (ground (arith, eq_iff n m, h.all.paid m, h.unpaid));
        unique = h.all.unique;
      })
      (λ t h. h.all)

lock_wallet-IsCleared : (n : String) (a : ℕ) → Keeps (IsCleared n) (lock_wallet a)
unfolding lock_wallet
lock_wallet-IsCleared n a = search keeps_rules

reread_wallet-IsCleared : (n : String) (i : ℕ) → Keeps (IsCleared n) (reread_wallet i)
unfolding reread_wallet
reread_wallet-IsCleared n i = search keeps_rules

pub credit-leads :
    (n : String) (a : ℕ) (amount : ℤ)
    → Leads (IsCleared n) (credit a amount (refund_info n)) (λ _. ArePaidOnce) ArePaidOnce
unfolding credit
credit-leads n a amount =
    Leads-transaction _
      (Leads-bind _ _ (Leads-Keeps _ (lock_wallet-IsCleared n a) (λ t h. h.all)) λ w.
        Leads-bind _ _
          (Leads-Keeps _
            (Keeps-sql _ (λ t h. record {
              all = record { paid = h.all.paid; unique = h.all.unique };
              unpaid = h.unpaid;
            }))
            (λ t h. h.all))
          λ _.
            Leads-bind _ _ (Leads-Keeps _ (reread_wallet-IsCleared n w.id) (λ t h. h.all))
              λ w'. payout-leads n a amount w')
      (λ t h. h.all)

pub mark_completed-Keeps : (n : String) (at : ℕ) → Keeps ArePaidOnce (mark_completed n at)
unfolding mark_completed
mark_completed-Keeps n at = Keeps-sql _ (λ t h. record {
  paid = λ m. omega (
    arith,
    count-update (has_no m) (has_no n) (completed at) t.refunds (λ x. refl),
    count-update_le (is_pending m) (has_no n) (completed at) t.refunds (λ x. ground arith),
    h.paid m,
  );
  unique = λ m.
      omega (
        arith,
        count-update (has_no m) (has_no n) (completed at) t.refunds (λ x. refl),
        h.unique m,
      );
})
