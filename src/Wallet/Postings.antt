-- ===== src/Wallet/Postings.antt =====
-- What `Credit`, `Debit` and `RedeemCode` do to the tables when no statement fails, on each branch.
use lurus_identity.Base.{
  ℕ, ◌+◌, ◌≡◌, ◌⊎◌, refl, inl, inr, Bool, true, false, ◌&&◌, none, some, String, arith, Bool-cases,
  Option-cases, ◌==◌, str_eq, leb, ℤ, pos, ◌-ℤ◌, ltb_ℤ, leb_ℤ, int_laws,
}
use lurus_identity.Table.{first}
use lurus_identity.Table.Laws.{count-ne-zero}
use lurus_identity.Entity.Billing.{Wallet, RedemptionCode}
use lurus_identity.Store.{
  Tables, Error, ok, err, pure, ◌>>=◌, follow, raise_if, require, sql, transaction,
}
use lurus_identity.Store.Run.{run}
use lurus_identity.Wallet.Repo.{
  TxInfo, of_account, has_id, entry, lock_wallet, reread_wallet, credit_row, debit_row,
  create_entry, credit, debit_where, debit, redeem_code, redemption, add_balance, save_code,
  has_code, is_expired,
}
use lurus_identity.Wallet.Ledger.{IsReconciled, IsPosting, posted, reread-posted}

pub credit-IsPosting :
    (a : ℕ) (amount : ℤ) (ty : String) {w : Wallet} (t : Tables)
    → first (of_account a) t.wallets ≡ some w
    → IsPosting a amount (has_id w.id) (credit_row amount ty) w t
unfolding credit_row
credit-IsPosting a amount ty t h = record {
  locked = h;
  selected = ground arith;
  alone = λ x e. ground arith;
  same_id = λ x. refl;
  same_account = λ x. refl;
  added = λ x. refl;
}

pub credit_no_wallet :
    (a : ℕ) (amount : ℤ) (info : TxInfo) (t : Tables)
    → first (of_account a) t.wallets ≡ none
    → run (credit a amount info) t ≡ (err Error.record_not_found, t)
unfolding run credit lock_wallet sql require transaction ◌>>=◌
credit_no_wallet a amount info t h = rw (h, require, follow)

pub run-credit :
    (a : ℕ) (amount : ℤ) (info : TxInfo) {w : Wallet} (t : Tables)
    → IsReconciled t
    → first (of_account a) t.wallets ≡ some w
    → run (credit a amount info) t ≡ (
      ok (entry t.next_id a amount info (credit_row amount info.tx_type w)),
      posted a amount info (has_id w.id) (credit_row amount info.tx_type) w t,
    )
unfolding run credit lock_wallet reread_wallet create_entry sql require transaction pure ◌>>=◌
run-credit a amount info t r h =
    rw (h, require, follow) (rw (reread-posted r (credit-IsPosting a amount info.tx_type t h)))

-- The condition of the conditional UPDATE.
abbrev pub covered : ℕ → ℤ → Wallet → Bool
covered i amount w = w.id == i && leb_ℤ amount w.balance

pub debit-IsPosting :
    (a : ℕ) (amount : ℤ) {w : Wallet} (t : Tables)
    → first (of_account a) t.wallets ≡ some w
    → ltb_ℤ w.balance amount ≡ false
    → IsPosting a (pos 0 -ℤ amount) (covered w.id amount) (debit_row amount) w t
unfolding debit_row
debit-IsPosting a amount t h enough = record {
  locked = h;
  selected = ground arith;
  alone = λ x e. ground arith;
  same_id = λ x. refl;
  same_account = λ x. refl;
  added = λ x. omega int_laws;
}

pub debit_no_wallet :
    (a : ℕ) (amount : ℤ) (info : TxInfo) (t : Tables)
    → first (of_account a) t.wallets ≡ none
    → run (debit a amount info) t ≡ (err Error.record_not_found, t)
unfolding run debit lock_wallet sql require transaction ◌>>=◌
debit_no_wallet a amount info t h = rw (h, require, follow)

pub debit_refused :
    (a : ℕ) (amount : ℤ) (info : TxInfo) {w : Wallet} (t : Tables)
    → first (of_account a) t.wallets ≡ some w
    → ltb_ℤ w.balance amount ≡ true
    → run (debit a amount info) t ≡ (err Error.insufficient_balance, t)
unfolding run debit lock_wallet sql require transaction raise_if ◌>>=◌
debit_refused a amount info t h short = rw (h, require, follow) (rw (short, follow))

pub run-debit :
    (a : ℕ) (amount : ℤ) (info : TxInfo) {w : Wallet} (t : Tables)
    → IsReconciled t
    → first (of_account a) t.wallets ≡ some w
    → ltb_ℤ w.balance amount ≡ false
    → run (debit a amount info) t ≡ (
      ok (entry t.next_id a (pos 0 -ℤ amount) info (debit_row amount w)),
      posted a (pos 0 -ℤ amount) info (covered w.id amount) (debit_row amount) w t,
    )
unfolding run debit lock_wallet reread_wallet create_entry debit_where sql require transaction
    raise_if ◌>>=◌
run-debit a amount info {w} t r h enough =
    let p = debit-IsPosting a amount t h enough in
    rw (h, require, follow)
      (rw (enough, follow)
        (rw (count-ne-zero (of_account a) (covered w.id amount) t.wallets h p.selected, follow)
          (rw (reread-posted r p))))

pub redeem-IsPosting :
    (a : ℕ) (amount : ℤ) {w : Wallet} (t : Tables)
    → first (of_account a) t.wallets ≡ some w
    → IsPosting a amount (has_id w.id) (add_balance amount) w t
redeem-IsPosting a amount t h = record {
  locked = h;
  selected = ground arith;
  alone = λ x e. ground arith;
  same_id = λ x. refl;
  same_account = λ x. refl;
  added = λ x. refl;
}

-- What `RedeemCode` demands of a code.
pub record IsRedeemable (now : ℕ) (rc : RedemptionCode) : Type 0 where
  pub in_time : is_expired now rc.expires_at ≡ false
  pub unused : leb rc.max_uses rc.used_count ≡ false
  pub credits : str_eq rc.reward_type "credits" ≡ true

-- The tables after a redemption.
abbrev pub redeemed : ℕ → RedemptionCode → Wallet → Tables → Tables
redeemed a rc w t =
    save_code (record rc { used_count = rc.used_count + 1 })
      (posted a rc.reward_value (redemption rc) (has_id w.id) (add_balance rc.reward_value) w t)

pub run-redeem :
    (now a : ℕ) (code : String) {rc : RedemptionCode} {w : Wallet} (t : Tables)
    → IsReconciled t
    → first (has_code code) t.codes ≡ some rc
    → IsRedeemable now rc
    → first (of_account a) t.wallets ≡ some w
    → run (redeem_code now a code) t ≡ (
      ok (entry t.next_id a rc.reward_value (redemption rc) (add_balance rc.reward_value w)),
      redeemed a rc w t,
    )
unfolding run redeem_code lock_wallet reread_wallet create_entry sql require transaction raise_if
    pure ◌>>=◌
run-redeem now a code {rc} {w} t r found v h =
    let p = redeem-IsPosting a rc.reward_value t h in
    rw (found, require, follow)
      (rw (v.in_time, follow)
        (rw (v.unused, follow)
          (rw (v.credits, follow) (rw (h, require, follow) (rw (reread-posted r p))))))

-- A call that fails before the wallet is touched.
pub redeem_error :
    (now a : ℕ) (code : String) (t : Tables)
    → ((x : Error) × (run (redeem_code now a code) t ≡ (err x, t)))
      ⊎ ((rc : RedemptionCode) × (w : Wallet) × (first (has_code code) t.codes ≡ some rc)
          × IsRedeemable now rc
          × (first (of_account a) t.wallets ≡ some w))
unfolding run redeem_code lock_wallet sql require transaction raise_if pure ◌>>=◌
redeem_error now a code t = elim (Option-cases (first (has_code code) t.codes)) [
  | inl unknown ↦ inl (Error.invalid_code, rw (unknown, require, follow))
  | inr (rc, found) ↦ elim (Bool-cases (is_expired now rc.expires_at)) [
    | inl late ↦ inl (Error.code_expired, rw (found, require, follow) (rw (late, follow)))
    | inr in_time ↦ elim (Bool-cases (leb rc.max_uses rc.used_count)) [
      | inl used ↦ inl (
        Error.code_used_up,
        rw (found, require, follow) (rw (in_time, follow) (rw (used, follow))),
      )
      | inr unused ↦ elim (Bool-cases (str_eq rc.reward_type "credits")) [
        | inr other ↦ inl (
          Error.unsupported_reward,
          rw (found, require, follow)
              (rw (in_time, follow) (rw (unused, follow) (rw (other, follow)))),
        )
        | inl credits ↦ elim (Option-cases (first (of_account a) t.wallets)) [
          | inl nothing ↦ inl (
            Error.record_not_found,
            rw (found, require, follow)
                (rw (in_time, follow)
                  (rw (unused, follow) (rw (credits, follow) (rw (nothing, require, follow))))),
          )
          | inr (w, h) ↦
              inr
                (rc, w, found, record { in_time = in_time; unused = unused; credits = credits }, h)
        ]
      ]
    ]
  ]
]
