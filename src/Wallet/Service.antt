-- ===== src/Wallet/Service.antt =====
-- internal/app/wallet_service.go. Order numbers come from a clock and a random UUID; they are an
-- argument here.
use lurus_identity.Base.{
  ℕ, String, Bool, ◌&&◌, not, none, str_eq, ◌==◌, ℤ, pos, leb_ℤ, if◌then◌else◌,
}
use lurus_identity.Entity.Billing.{WalletTransaction, PaymentOrder, Reference, OrderStatus}
use lurus_identity.Store.{Error, M, ⊤, pure, ◌>>=◌, ◌>>◌, raise_if, require, ignore}
use lurus_identity.Vip.{recalculate_from_wallet}
use lurus_identity.Wallet.Repo
use lurus_identity.Wallet.Repo.{TxInfo}

abbrev pub topup_info : String → TxInfo
topup_info order_no = record {
  tx_type = "topup";
  reference_type = "payment_order";
  reference_id = Reference.plain order_no;
  product_id = "";
}

unfoldable pub topup : ℕ → ℤ → String → M WalletTransaction
topup a amount order_no = do
  tx ← Repo.credit a amount (topup_info order_no)
  ignore (recalculate_from_wallet a)
  pure tx

-- strings.ToUpper and strings.TrimSpace of the Go library are parameters.
module _ (to_upper trim_space : String → String) where
  unfoldable pub redeem : ℕ → ℕ → String → M ⊤
  redeem now a code = Repo.redeem_code now a (to_upper (trim_space code)) >> pure tt

abbrev pub new_topup : ℕ → ℕ → ℤ → String → String → PaymentOrder
new_topup now a amount method order_no = record {
  id = 0;
  account_id = a;
  order_no = order_no;
  order_type = "topup";
  product_id = "";
  plan_id = none;
  amount_cny = amount;
  payment_method = method;
  status = OrderStatus.pending;
  external_id = "";
  paid_at = none;
  created_at = now;
}

unfoldable pub create_topup : ℕ → ℕ → ℤ → String → String → M PaymentOrder
create_topup now a amount method order_no = do
  raise_if (leb_ℤ amount (pos 0)) Error.amount_not_positive
  Repo.create_payment_order (new_topup now a amount method order_no)

unfoldable pub create_subscription_order : String → PaymentOrder → M PaymentOrder
create_subscription_order order_no o =
    Repo.create_payment_order (record o { order_no = order_no; status = OrderStatus.pending })

-- An order of another account is reported as missing.
unfoldable pub get_order_by_no : ℕ → String → M PaymentOrder
get_order_by_no a order_no = do
  found ← Repo.get_payment_order_by_no order_no
  o ← require found Error.order_not_found
  raise_if (not (o.account_id == a)) Error.order_not_found
  pure o

unfoldable pub credit_topup : Bool → PaymentOrder → M PaymentOrder
credit_topup did_transition o =
    if did_transition && str_eq o.order_type "topup"
    then topup o.account_id o.amount_cny o.order_no >> pure o
    else pure o

unfoldable pub mark_order_paid : ℕ → String → M PaymentOrder
unfolding credit_topup
mark_order_paid now order_no = do
  marked ← Repo.mark_payment_order_paid now order_no
  o ← require marked.0 Error.order_not_found
  credit_topup marked.1 o
