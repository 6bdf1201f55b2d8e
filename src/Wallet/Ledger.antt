-- ===== src/Wallet/Ledger.antt =====
-- The ledger accounts for every balance: the invariant, and that a posting keeps it.
use mathlib.Core.Option
use lurus_identity.Base.{
  ℕ, suc, ◌≤◌, ◌≡◌, ap, ◌∙◌, inl, inr, Bool, true, false, Option, none, some, List, [], ◌∷◌, arith,
  Bool-cases, Option-cases, ◌==◌, ℤ, pos, ◌+ℤ◌, int_laws, if◌then◌else◌,
}
use lurus_identity.Table.{first, update, insert}
use lurus_identity.Table.Laws.{first-update, first-holds, updated}
use lurus_identity.Table.Keyed.{IsKeyed, first-with_id, first_unique, IsKeyed-update, IsKeyed-mono}
use lurus_identity.Entity.Billing.{Wallet, WalletTransaction}
use lurus_identity.Store.{Tables}
use lurus_identity.Wallet.Repo.{TxInfo, of_account, has_id, entry}

-- The balance that the service reads for an account; an account without a wallet has none.
abbrev pub balance : Option Wallet → ℤ
balance none = pos 0
balance (some w) = w.balance

abbrev pub balance_of : ℕ → List Wallet → ℤ
balance_of a ws = balance (first (of_account a) ws)

-- The sum of an account's ledger entries.
unfoldable pub ledger_sum : ℕ → List WalletTransaction → ℤ
ledger_sum a [] = pos 0
ledger_sum a (e ∷ es) =
    let rest = ledger_sum a es in if e.account_id == a then e.amount +ℤ rest else rest

abbrev pub AreKeyed : ℕ → List Wallet → Type 0
AreKeyed n ws = IsKeyed (λ (w : Wallet). w.id) n ws

-- Wallets have distinct ids, and each balance is the sum of the account's ledger entries.
pub record IsReconciled (t : Tables) : Type 0 where
  pub keyed : AreKeyed t.next_id t.wallets
  pub balances : (a : ℕ) → balance_of a t.wallets ≡ ledger_sum a t.transactions

pub ledger_sum-insert :
    (a : ℕ) (e : WalletTransaction) (es : List WalletTransaction)
    → ledger_sum a (insert e es)
      ≡ (if e.account_id == a then ledger_sum a es +ℤ e.amount else ledger_sum a es)
unfolding ledger_sum
ledger_sum-insert a e [] = grind int_laws
ledger_sum-insert a e (x ∷ es) = rw (ledger_sum-insert a e es) (grind int_laws)

-- The wallet's row changed by `f` where `q` holds, with a ledger entry of `amount` for account `a`.
abbrev pub posted : ℕ → ℤ → TxInfo → (Wallet → Bool) → (Wallet → Wallet) → Wallet → Tables → Tables
posted a amount info q f w t = record t {
  next_id = suc t.next_id;
  wallets = update q f t.wallets;
  transactions = insert (entry t.next_id a amount info (f w)) t.transactions;
}

-- What `posted` needs: `q` selects the locked wallet alone, and `f` adds the amount to its balance.
pub record IsPosting (a : ℕ) (amount : ℤ) (q : Wallet → Bool) (f : Wallet → Wallet) (w : Wallet)
    (t : Tables) : Type 0 where
  pub locked : first (of_account a) t.wallets ≡ some w
  pub selected : q w ≡ true
  pub alone : (x : Wallet) → q x ≡ true → x.id ≡ w.id
  pub same_id : (x : Wallet) → (f x).id ≡ x.id
  pub same_account : (x : Wallet) → (f x).account_id ≡ x.account_id
  pub added : (x : Wallet) → (f x).balance ≡ x.balance +ℤ amount

module _ {a : ℕ} {amount : ℤ} {q : Wallet → Bool} {f : Wallet → Wallet} {w : Wallet} {t : Tables}
    (r : IsReconciled t) (p : IsPosting a amount q f w t) where
  pub first-posted :
      (b : ℕ)
      → first (of_account b) (update q f t.wallets)
        ≡ Option.map (updated q f) (first (of_account b) t.wallets)
  first-posted b = first-update (of_account b) q f t.wallets (λ x. rw (p.same_account x))

  -- The wallet of another account is not the locked one.
  selected_only :
      (b : ℕ) (x : Wallet)
      → first (of_account b) t.wallets ≡ some x
      → (a == b) ≡ false
      → q x ≡ false
  selected_only b x found d = elim (Bool-cases (q x)) [
    | inl s ↦
        let same : x ≡ w =
          first_unique (λ (w : Wallet). w.id) t.next_id (of_account b) (of_account a) t.wallets
            r.keyed found p.locked (p.alone x s) in
        ground (
          arith,
          first-holds (of_account a) t.wallets p.locked,
          first-holds (of_account b) t.wallets found,
          ap (λ (w : Wallet). w.account_id) same,
        )
    | inr e ↦ e
  ]

  pub balance_of-posted :
      (b : ℕ)
      → balance_of b (update q f t.wallets)
        ≡ (if a == b then balance_of b t.wallets +ℤ amount else balance_of b t.wallets)
  balance_of-posted b = elim (Bool-cases (a == b)) [
    | inl e ↦ ground (arith, first-posted b, p.locked, p.selected, p.added w)
    | inr d ↦ elim (Option-cases (first (of_account b) t.wallets)) [
      | inl nothing ↦ ground (arith, first-posted b)
      | inr (x, found) ↦ ground (arith, first-posted b, selected_only b x found d)
    ]
  ]

  -- The locked wallet, read again by its id after the update.
  pub reread-posted : first (has_id w.id) (update q f t.wallets) ≡ some (f w)
  reread-posted =
      first-update (has_id w.id) q f t.wallets (λ x. rw (p.same_id x))
      ∙ ap (Option.map (updated q f))
          (first-with_id (λ (w : Wallet). w.id) t.next_id (of_account a) t.wallets r.keyed p.locked)
      ∙ ground (arith, p.selected)

  pub posted-IsReconciled : (info : TxInfo) → IsReconciled (posted a amount info q f w t)
  posted-IsReconciled info = record {
    keyed =
        IsKeyed-mono (λ (w : Wallet). w.id) t.next_id (suc t.next_id) (update q f t.wallets)
          (omega arith)
          (IsKeyed-update (λ (w : Wallet). w.id) t.next_id q f t.wallets p.same_id r.keyed);
    balances = λ b.
        balance_of-posted b
        ∙ ground (
          arith,
          r.balances b,
          ledger_sum-insert b (entry t.next_id a amount info (f w)) t.transactions,
        );
  }

-- Tables that agree on wallets and ledger, and whose sequence has not gone back.
pub IsReconciled-same :
    {t u : Tables}
    → u.wallets ≡ t.wallets
    → u.transactions ≡ t.transactions
    → t.next_id ≤ u.next_id
    → IsReconciled t
    → IsReconciled u
IsReconciled-same {t} {u} w x n r = record {
  keyed = IsKeyed-mono (λ (w : Wallet). w.id) t.next_id u.next_id u.wallets n (rw w r.keyed);
  balances = λ a. rw (w, x) (r.balances a);
}
