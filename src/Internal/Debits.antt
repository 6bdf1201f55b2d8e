-- ===== src/Internal/Debits.antt =====
-- What a service that debits a wallet is told.
use lurus_identity.Base.{
  ℕ, ◌≡◌, refl, sym, ap, ◌∙◌, inl, inr, String, Bool, true, false, ◌&&◌, some, ◌==◌, ltb_ℤ, leb_ℤ,
  ℤ, pos, ◌-ℤ◌, ◌≤ℤ◌, if◌then◌else◌, arith, Bool-cases,
}
use lurus_identity.Table.{first}
use lurus_identity.Entity.Billing.{Wallet, WalletTransaction}
use lurus_identity.Store.{Tables, Db, Result, ok, err, pure, ◌>>=◌, follow, try}
use lurus_identity.Store.Run.{calm, run, run_of_calm}
use lurus_identity.Wallet.Repo.{TxInfo, of_account, debit, debit_row, entry}
use lurus_identity.Wallet.Ledger.{IsReconciled, balance_of}
use lurus_identity.Wallet.Postings.{run-debit, debit_refused}
use lurus_identity.Wallet.Invariant.{debit-IsSound, debit-IsAtomic}
use lurus_identity.Wallet.Balances.{debit_balances}
use lurus_identity.Internal.{
  Reply, shows, refuses, Movement, is_bound, info_of, moved, debit_wallet,
}

-- Either the amount was paid and the answer is the balance that is left, or nothing was changed.
pub data Answered (a : ℕ) (amount : ℤ) (w : Wallet) (s : Db) (out : Result (Reply ℤ) × Db)
    : Type 0 where
  paid :
      amount ≤ℤ w.balance
      → out.0 ≡ ok (shows 200 (w.balance -ℤ amount))
      → ((b : ℕ)
          → balance_of b out.1.tables.wallets ≡ (
              if a == b
              then balance_of b s.tables.wallets -ℤ amount
              else balance_of b s.tables.wallets))
      → Answered a amount w s out
  refused :
      (msg : String)
      → out.0 ≡ ok (refuses 400 msg)
      → out.1.tables ≡ s.tables
      → Answered a amount w s out

paid_if : (x y : ℤ) (b c : Bool) → c ≡ true → (if b && c then x else y) ≡ (if b then x else y)
paid_if x y true c h = rw h refl
paid_if x y false c h = refl

module _ (a : ℕ) (amount : ℤ) (info : TxInfo) (s : Db) (w : Wallet) (r : IsReconciled s.tables)
    (h : first (of_account a) s.tables.wallets ≡ some w) where
  abbrev reply : Result WalletTransaction × Db → Result (Reply ℤ) × Db
  reply (o, s') = (ok (moved 400 "insufficient_balance" o), s')

  paying :
      (tx : WalletTransaction) (s' : Db)
      → debit a amount info (calm s.tables) ≡ (ok tx, calm s'.tables)
      → Answered a amount w s (reply (ok tx, s'))
  unfolding debit_row
  paying tx s' e =
      let ran : run (debit a amount info) s.tables ≡ (ok tx, s'.tables) =
        run_of_calm _ s.tables e in
      elim (Bool-cases (ltb_ℤ w.balance amount)) [
        | inl short ↦ absurd (let x = debit_refused a amount info s.tables h short in cc)
        | inr enough ↦
            let x = run-debit a amount info s.tables r h enough in
            let same : tx ≡ entry s.tables.next_id a (pos 0 -ℤ amount) info (debit_row amount w) =
              (cc) in
            Answered.paid (ground arith)
              (ap
                (λ (y : WalletTransaction).
                  let o : Result (Reply ℤ) = ok (shows 200 y.balance_after) in o)
                same)
              λ b.
                ap (λ (p : Result WalletTransaction × Tables). balance_of b p.1.wallets) (sym ran)
                ∙ debit_balances a b amount info s.tables r h
                ∙ paid_if _ _ (a == b) (leb_ℤ amount w.balance) (ground arith)
      ]

  answering :
      (out : Result WalletTransaction × Db)
      → debit a amount info s ≡ out
      → Answered a amount w s (reply out)
  answering (ok tx, s') e =
      let first_part = ap (λ (p : Result WalletTransaction × Db). p.0) e in
      let last_part = ap (λ (p : Result WalletTransaction × Db). p.1) e in
      paying tx s' (
        (debit-IsSound a amount info).at s first_part
        ∙ ap (λ (d : Db). let o : Result WalletTransaction × Db = (ok tx, calm d.tables) in o)
            last_part)
  answering (err x, s') e =
      let first_part = ap (λ (p : Result WalletTransaction × Db). p.0) e in
      let last_part = ap (λ (p : Result WalletTransaction × Db). p.1) e in
      Answered.refused "insufficient_balance" refl
        (ap (λ (d : Db). d.tables) (sym last_part) ∙ (debit-IsAtomic a amount info).at s first_part)

-- When the ledger is reconciled and the account has a wallet, a request to debit it, whichever statements
-- fail, either is answered 200 with the balance that is left, and then the wallet held the amount, has
-- paid it, and no other balance has moved; or it is answered 400, and then nothing was changed.
pub debit_wallet-Answered :
    (a : ℕ) (m : Movement) (s : Db) (w : Wallet)
    → IsReconciled s.tables
    → first (of_account a) s.tables.wallets ≡ some w
    → Answered a m.amount w s (debit_wallet (some a) m s)
unfolding debit_wallet try ◌>>=◌ follow pure
debit_wallet-Answered a m s w r h = elim (Bool-cases (is_bound m)) [
  | inr unbound ↦ rw unbound (Answered.refused "required" refl refl)
  | inl bound ↦ rw bound (answering a m.amount (info_of "internal_debit" m) s w r h _ refl)
]
