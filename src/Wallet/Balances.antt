-- ===== src/Wallet/Balances.antt =====
-- What a debit does to every account's balance, and that no balance goes below zero by it.
use lurus_identity.Base.{
  ℕ, ◌≡◌, ◌∙◌, inl, inr, true, ◌&&◌, some, arith, Bool-cases, ◌==◌, ℤ, pos, ◌+ℤ◌, ◌-ℤ◌, ◌≤ℤ◌, ltb_ℤ,
  leb_ℤ, int_laws, if◌then◌else◌,
}
use lurus_identity.Table.{first}
use lurus_identity.Table.Laws.{All, All-update}
use lurus_identity.Entity.Billing.{Wallet}
use lurus_identity.Store.{Tables}
use lurus_identity.Store.Keeps.{Keeps, Keeps-sql, keeps_rules}
use lurus_identity.Store.Run.{run}
use lurus_identity.Wallet.Repo.{
  TxInfo, of_account, lock_wallet, reread_wallet, create_entry, debit_where, debit_row, debit,
}
use lurus_identity.Wallet.Ledger.{balance_of, IsReconciled, balance_of-posted}
use lurus_identity.Wallet.Postings.{covered, debit-IsPosting, debit_refused, run-debit}

add_negated : (x y : ℤ) → x +ℤ (pos 0 -ℤ y) ≡ x -ℤ y
add_negated x y = omega int_laws

-- Without failures, from a reconciled state, for an account with a wallet: one that holds the amount
-- pays it, and no other balance moves; one that holds less keeps its balance, as do all others.
pub debit_balances :
    (a b : ℕ) (amount : ℤ) (info : TxInfo) {w : Wallet} (t : Tables)
    → IsReconciled t
    → first (of_account a) t.wallets ≡ some w
    → balance_of b (run (debit a amount info) t).1.wallets ≡ (
        if (a == b) && leb_ℤ amount w.balance
        then balance_of b t.wallets -ℤ amount
        else balance_of b t.wallets)
debit_balances a b amount info {w} t r h = elim (Bool-cases (ltb_ℤ w.balance amount)) [
  | inl short ↦ rw (debit_refused a amount info t h short) (ground arith)
  | inr enough ↦ rw (run-debit a amount info t r h enough) (
      balance_of-posted r (debit-IsPosting a amount t h enough) b
      ∙ ground (arith, add_negated (balance_of b t.wallets) amount))
]

-- No balance is below zero.
abbrev pub AreSolvent : Tables → Type 0
AreSolvent t = All (λ (w : Wallet). pos 0 ≤ℤ w.balance) t.wallets

debit_row_solvent :
    (i : ℕ) (amount : ℤ) (w : Wallet)
    → covered i amount w ≡ true
    → pos 0 ≤ℤ w.balance
    → pos 0 ≤ℤ (debit_row amount w).balance
unfolding debit_row
debit_row_solvent i amount w e h = let enough : amount ≤ℤ w.balance = ground arith in omega int_laws

debit_where-AreSolvent : (i : ℕ) (amount : ℤ) → Keeps AreSolvent (debit_where i amount)
unfolding debit_where
debit_where-AreSolvent i amount = Keeps-sql _ (λ t h.
    All-update (λ (w : Wallet). pos 0 ≤ℤ w.balance) (covered i amount) (debit_row amount) t.wallets
      (debit_row_solvent i amount) h)

create_entry-AreSolvent :
    (a : ℕ) (amount : ℤ) (info : TxInfo) (w : Wallet)
    → Keeps AreSolvent (create_entry a amount info w)
unfolding create_entry
create_entry-AreSolvent a amount info w = Keeps-sql _ (λ t h. h)

-- A debit of any amount, by any account, with any failing statement, takes no balance below zero.
pub debit-AreSolvent : (a : ℕ) (amount : ℤ) (info : TxInfo) → Keeps AreSolvent (debit a amount info)
unfolding debit lock_wallet reread_wallet
debit-AreSolvent a amount info =
    search (keeps_rules, debit_where-AreSolvent, create_entry-AreSolvent) depth 16
