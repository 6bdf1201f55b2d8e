-- ===== src/Wallet/Repo.antt =====
-- internal/adapter/repo/wallet.go: wallets, the ledger, payment orders and redemption codes.
-- SQL locks make each transaction run alone, so a transaction is a sequence of statements here.
use lurus_identity.Base.{
  ℕ, suc, ◌+◌, String, Bool, false, ◌&&◌, not, Option, none, some, ◌==◌, str_eq, ltb, leb, ℤ, pos,
  ◌+ℤ◌, ◌-ℤ◌, ltb_ℤ, leb_ℤ, if◌then◌else◌,
}
use lurus_identity.Table.{first, update, count, insert}
use lurus_identity.Entity.Billing.{
  Wallet, WalletTransaction, PaymentOrder, RedemptionCode, Reference, OrderStatus, is_pending_order,
}
use lurus_identity.Store.{
  Tables, Error, Result, ok, err, M, pure, ◌>>=◌, ◌>>◌, raise_if, require, sql, query, exec,
  transaction,
}

-- The arguments txType, refType, refID and productID of `Credit` and `Debit`.
pub record TxInfo : Type 0 where
  pub tx_type : String
  pub reference_type : String
  pub reference_id : Reference
  pub product_id : String

abbrev pub of_account : ℕ → Wallet → Bool
of_account a w = w.account_id == a

abbrev pub has_id : ℕ → Wallet → Bool
has_id i w = w.id == i

abbrev pub has_order_no : String → PaymentOrder → Bool
has_order_no n o = str_eq o.order_no n

abbrev pub has_code : String → RedemptionCode → Bool
has_code c r = str_eq r.code c

abbrev pub new_wallet : ℕ → ℕ → Wallet
new_wallet i a = record {
  id = i;
  account_id = a;
  balance = pos 0;
  frozen = pos 0;
  lifetime_topup = pos 0;
  lifetime_spend = pos 0;
}

unfoldable pub first_or_create : ℕ → Option Wallet → Tables → Result Wallet × Tables
first_or_create a (some w) t = (ok w, t)
first_or_create a none t =
    let w = new_wallet t.next_id a in
    (ok w, record t { next_id = suc t.next_id; wallets = insert w t.wallets })

unfoldable pub get_or_create : ℕ → M Wallet
unfolding first_or_create
get_or_create a = sql (λ t. first_or_create a (first (of_account a) t.wallets) t)

unfoldable pub get_by_account_id : ℕ → M (Option Wallet)
get_by_account_id a = query (λ t. first (of_account a) t.wallets)

-- `SELECT … FOR UPDATE` of the wallet, which fails when there is none.
unfoldable pub lock_wallet : ℕ → M Wallet
lock_wallet a = do w ← query (λ t. first (of_account a) t.wallets); require w Error.record_not_found

unfoldable pub reread_wallet : ℕ → M Wallet
reread_wallet i = do w ← query (λ t. first (has_id i) t.wallets); require w Error.record_not_found

-- `balance + amount`, and the lifetime total when the type is `topup`. The lifetime columns round to two
-- decimals, which is left out.
unfoldable pub credit_row : ℤ → String → Wallet → Wallet
credit_row amount tx_type w = record w {
  balance = w.balance +ℤ amount;
  lifetime_topup = if str_eq tx_type "topup" then w.lifetime_topup +ℤ amount else w.lifetime_topup;
}

unfoldable pub debit_row : ℤ → Wallet → Wallet
debit_row amount w = record w {
  balance = w.balance -ℤ amount;
  lifetime_spend = w.lifetime_spend +ℤ amount;
}

abbrev pub entry : ℕ → ℕ → ℤ → TxInfo → Wallet → WalletTransaction
entry i a amount info w = record {
  id = i;
  wallet_id = w.id;
  account_id = a;
  tx_type = info.tx_type;
  amount = amount;
  balance_after = w.balance;
  product_id = info.product_id;
  reference_type = info.reference_type;
  reference_id = info.reference_id;
}

-- `db.Create(&tx)`
unfoldable pub create_entry : ℕ → ℤ → TxInfo → Wallet → M WalletTransaction
create_entry a amount info w = sql λ t.
    let e = entry t.next_id a amount info w in
    (ok e, record t { next_id = suc t.next_id; transactions = insert e t.transactions })

unfoldable pub credit : ℕ → ℤ → TxInfo → M WalletTransaction
credit a amount info = transaction (do
  w ← lock_wallet a
  exec λ t. record t { wallets = update (has_id w.id) (credit_row amount info.tx_type) t.wallets }
  w' ← reread_wallet w.id
  create_entry a amount info w')

-- The conditional UPDATE of `Debit`; the answer is `RowsAffected`.
unfoldable pub debit_where : ℕ → ℤ → M ℕ
debit_where i amount = sql λ t.
    let p = λ (w : Wallet). w.id == i && leb_ℤ amount w.balance in
    (ok (count p t.wallets), record t { wallets = update p (debit_row amount) t.wallets })

unfoldable pub debit : ℕ → ℤ → TxInfo → M WalletTransaction
debit a amount info = transaction (do
  w ← lock_wallet a
  raise_if (ltb_ℤ w.balance amount) Error.insufficient_balance
  rows ← debit_where w.id amount
  raise_if (rows == 0) Error.insufficient_balance
  w' ← reread_wallet w.id
  create_entry a (pos 0 -ℤ amount) info w')

-- `order_no` is unique.
unfoldable pub insert_order :
    PaymentOrder → Option PaymentOrder → Tables → Result PaymentOrder × Tables
insert_order o (some _) t = (err Error.unique_violation, t)
insert_order o none t =
    let o' = record o { id = t.next_id } in
    (ok o', record t { next_id = suc t.next_id; orders = insert o' t.orders })

unfoldable pub create_payment_order : PaymentOrder → M PaymentOrder
unfolding insert_order
create_payment_order o = sql (λ t. insert_order o (first (has_order_no o.order_no) t.orders) t)

unfoldable pub get_payment_order_by_no : String → M (Option PaymentOrder)
get_payment_order_by_no n = query (λ t. first (has_order_no n) t.orders)

abbrev pub is_pending : String → PaymentOrder → Bool
is_pending n o = str_eq o.order_no n && is_pending_order o.status

abbrev pub set_paid : ℕ → PaymentOrder → PaymentOrder
set_paid now o = record o { status = OrderStatus.paid; paid_at = some now }

-- The order, and whether this call made the transition.
abbrev pub marked : ℕ → Option PaymentOrder → Option PaymentOrder × Bool
marked rows none = (none, false)
marked rows (some o) = (some o, ltb 0 rows)

unfoldable pub set_paid_where : ℕ → String → M ℕ
set_paid_where now n = sql λ t. (
  ok (count (is_pending n) t.orders),
  record t { orders = update (is_pending n) (set_paid now) t.orders },
)

unfoldable pub mark_payment_order_paid : ℕ → String → M (Option PaymentOrder × Bool)
unfolding set_paid_where
mark_payment_order_paid now n = do
  rows ← set_paid_where now n
  o ← get_payment_order_by_no n
  pure (marked rows o)

-- `status = 'pending' AND created_at < now - max_age`
abbrev pub is_stale : ℕ → ℕ → PaymentOrder → Bool
is_stale now max_age o = is_pending_order o.status && ltb (o.created_at + max_age) now

abbrev pub set_expired : PaymentOrder → PaymentOrder
set_expired o = record o { status = OrderStatus.expired }

unfoldable pub expire_stale_pending_orders : ℕ → ℕ → M ℕ
expire_stale_pending_orders now max_age = sql λ t. (
  ok (count (is_stale now max_age) t.orders),
  record t { orders = update (is_stale now max_age) set_expired t.orders },
)

abbrev pub is_expired : ℕ → Option ℕ → Bool
is_expired now none = false
is_expired now (some e) = ltb e now

abbrev pub redemption : RedemptionCode → TxInfo
redemption rc = record {
  tx_type = "redemption";
  reference_type = "redemption_code";
  reference_id = Reference.plain rc.code;
  product_id = rc.product_id;
}

abbrev pub add_balance : ℤ → Wallet → Wallet
add_balance amount w = record w { balance = w.balance +ℤ amount }

abbrev pub save_code : RedemptionCode → Tables → Tables
save_code rc t = record t { codes = update (λ c. c.id == rc.id) (λ _. rc) t.codes }

unfoldable pub redeem_code : ℕ → ℕ → String → M WalletTransaction
redeem_code now a code = transaction (do
  found ← query (λ t. first (has_code code) t.codes)
  rc ← require found Error.invalid_code
  raise_if (is_expired now rc.expires_at) Error.code_expired
  raise_if (leb rc.max_uses rc.used_count) Error.code_used_up
  raise_if (not (str_eq rc.reward_type "credits")) Error.unsupported_reward
  w ← lock_wallet a
  exec λ t. record t { wallets = update (has_id w.id) (add_balance rc.reward_value) t.wallets }
  w' ← reread_wallet w.id
  tx ← create_entry a rc.reward_value (redemption rc) w'
  exec (save_code (record rc { used_count = rc.used_count + 1 }))
  pure tx)
