-- ===== src/Wallet/Invariant.antt =====
-- Every operation of the wallet repository keeps the ledger invariant, whichever statements fail.
use lurus_identity.Base.{
  ℕ, suc, ◌≡◌, refl, inl, inr, Option, none, some, String, arith, Bool-cases, Option-cases, ℤ,
  ltb_ℤ,
}
use lurus_identity.Table.{first}
use lurus_identity.Table.Laws.{first-insert}
use lurus_identity.Table.Keyed.{IsKeyed-insert}
use lurus_identity.Entity.Billing.{Wallet}
use lurus_identity.Store.{Tables}
use lurus_identity.Store.Keeps.{Keeps, Keeps-sql}
use lurus_identity.Store.Run.{
  run, IsSound, IsAtomic, sound_rules, Keeps-of_run, transaction-IsAtomic,
}
use lurus_identity.Wallet.Repo.{
  TxInfo, of_account, new_wallet, lock_wallet, reread_wallet, create_entry, credit, debit_where,
  debit, redeem_code, redemption, first_or_create, get_or_create,
}
use lurus_identity.Wallet.Ledger.{IsReconciled, IsReconciled-same, posted-IsReconciled}
use lurus_identity.Wallet.Postings.{
  credit-IsPosting, credit_no_wallet, run-credit, debit-IsPosting, debit_no_wallet, debit_refused,
  run-debit, redeem-IsPosting, run-redeem, redeem_error,
}

pub credit-IsSound : (a : ℕ) (amount : ℤ) (info : TxInfo) → IsSound (credit a amount info)
unfolding credit lock_wallet reread_wallet create_entry
credit-IsSound a amount info = search sound_rules depth 12

pub debit-IsSound : (a : ℕ) (amount : ℤ) (info : TxInfo) → IsSound (debit a amount info)
unfolding debit lock_wallet reread_wallet create_entry debit_where
debit-IsSound a amount info = search sound_rules depth 16

pub redeem_code-IsSound : (now a : ℕ) (code : String) → IsSound (redeem_code now a code)
unfolding redeem_code lock_wallet reread_wallet create_entry
redeem_code-IsSound now a code = search sound_rules depth 30

pub credit-IsAtomic : (a : ℕ) (amount : ℤ) (info : TxInfo) → IsAtomic (credit a amount info)
unfolding credit
credit-IsAtomic a amount info = transaction-IsAtomic _

pub debit-IsAtomic : (a : ℕ) (amount : ℤ) (info : TxInfo) → IsAtomic (debit a amount info)
unfolding debit
debit-IsAtomic a amount info = transaction-IsAtomic _

pub redeem_code-IsAtomic : (now a : ℕ) (code : String) → IsAtomic (redeem_code now a code)
unfolding redeem_code
redeem_code-IsAtomic now a code = transaction-IsAtomic _

pub credit-IsReconciled :
    (a : ℕ) (amount : ℤ) (info : TxInfo) → Keeps IsReconciled (credit a amount info)
credit-IsReconciled a amount info =
    Keeps-of_run IsReconciled _ (credit-IsSound a amount info) (credit-IsAtomic a amount info)
      λ t r. elim (Option-cases (first (of_account a) t.wallets)) [
        | inl h ↦ rw (credit_no_wallet a amount info t h) r
        | inr (w, h) ↦
            rw (run-credit a amount info t r h)
              (posted-IsReconciled r (credit-IsPosting a amount info.tx_type t h) info)
      ]

pub debit-IsReconciled :
    (a : ℕ) (amount : ℤ) (info : TxInfo) → Keeps IsReconciled (debit a amount info)
debit-IsReconciled a amount info =
    Keeps-of_run IsReconciled _ (debit-IsSound a amount info) (debit-IsAtomic a amount info) λ t r.
      elim (Option-cases (first (of_account a) t.wallets)) [
        | inl h ↦ rw (debit_no_wallet a amount info t h) r
        | inr (w, h) ↦ elim (Bool-cases (ltb_ℤ w.balance amount)) [
          | inl short ↦ rw (debit_refused a amount info t h short) r
          | inr enough ↦
              rw (run-debit a amount info t r h enough)
                (posted-IsReconciled r (debit-IsPosting a amount t h enough) info)
        ]
      ]

pub redeem_kept :
    (now a : ℕ) (code : String) (t : Tables)
    → IsReconciled t
    → IsReconciled (run (redeem_code now a code) t).1
redeem_kept now a code t r = elim (redeem_error now a code t) [
  | inl (x, e) ↦ rw e r
  | inr (rc, w, found, v, h) ↦ rw (run-redeem now a code t r found v h) (
      IsReconciled-same refl refl (omega arith)
        (posted-IsReconciled r (redeem-IsPosting a rc.reward_value t h) (redemption rc)))
]

pub redeem_code-IsReconciled :
    (now a : ℕ) (code : String) → Keeps IsReconciled (redeem_code now a code)
redeem_code-IsReconciled now a code =
    Keeps-of_run IsReconciled _ (redeem_code-IsSound now a code) (redeem_code-IsAtomic now a code)
      (redeem_kept now a code)

created-IsReconciled :
    (a : ℕ) (o : Option Wallet) (t : Tables)
    → first (of_account a) t.wallets ≡ o
    → IsReconciled t
    → IsReconciled (first_or_create a o t).1
unfolding first_or_create
created-IsReconciled a (some w) t e r = r
created-IsReconciled a none t e r = record {
  keyed =
      IsKeyed-insert (λ (w : Wallet). w.id) t.next_id (suc t.next_id) (new_wallet t.next_id a)
        t.wallets refl (omega arith) r.keyed;
  balances = λ b.
      ground (arith, r.balances b, first-insert (of_account b) (new_wallet t.next_id a) t.wallets);
}

pub get_or_create-IsReconciled : (a : ℕ) → Keeps IsReconciled (get_or_create a)
unfolding get_or_create
get_or_create-IsReconciled a =
    Keeps-sql _ (λ t r. created-IsReconciled a (first (of_account a) t.wallets) t refl r)
