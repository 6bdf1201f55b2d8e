-- ===== src/Handler/Checkout.antt =====
-- internal/adapter/handler/wallet.go and subscription.go: topups, orders, adjustments and purchases. An
-- answer is its HTTP status. What the providers' checkouts answer is a parameter.
use lurus_identity.Base.{
  ℕ, ◌-◌, ◌*◌, String, Bool, ◌||◌, not, Option, none, some, List, str_eq, ◌==◌, ltb, ℤ, pos, ◌-ℤ◌,
  ltb_ℤ, leb_ℤ, if◌then◌else◌,
}
use lurus_identity.Table.{update, select, count, order_desc, limit, offset}
use lurus_identity.Entity.Billing.{PaymentOrder, Reference, OrderStatus}
use lurus_identity.Entity.Identity.{ProductPlan, Subscription}
use lurus_identity.Store.{Result, ok, err, M, ⊤, pure, ◌>>=◌, ◌>>◌, query, exec, try, ignore}
use lurus_identity.Entitlement.{get_plan_by_id}
use lurus_identity.Wallet.Repo as Repo
use lurus_identity.Wallet.Repo.{TxInfo}
use lurus_identity.Wallet.Service
use lurus_identity.Subscription.Service.{Settings, activate}

-- `CreateCheckout` of a provider: the pay URL and the external id, or an error.
abbrev pub Checkout : Type 0
Checkout = PaymentOrder → String → Option (String × String)

-- The providers that are configured.
pub record Providers : Type 0 where
  pub epay : Option Checkout
  pub stripe : Option Checkout
  pub creem : Option Checkout

pub data Resolved : Type 0 where
  disabled failed : Resolved
  ready : String → String → Resolved

abbrev pub checked_out : Option (String × String) → Resolved
checked_out none = Resolved.failed
checked_out (some (url, external)) = Resolved.ready url external

abbrev pub call_provider : Option Checkout → PaymentOrder → String → Resolved
call_provider none o url = Resolved.disabled
call_provider (some f) o url = checked_out (f o url)

unfoldable pub resolve_checkout : Providers → PaymentOrder → String → Resolved
resolve_checkout p o url =
    if str_eq o.payment_method "epay_alipay" || str_eq o.payment_method "epay_wxpay"
    then call_provider p.epay o url
    else if str_eq o.payment_method "stripe"
    then call_provider p.stripe o url
    else if str_eq o.payment_method "creem"
    then call_provider p.creem o url
    else Resolved.disabled

-- 1.00 and 100000.00, in units of 0.0001
abbrev pub min_topup : ℤ
min_topup = pos 10000

abbrev pub max_topup : ℤ
max_topup = pos 1000000000

unfoldable pub is_valid_method : String → Bool
is_valid_method m =
    str_eq m "epay_alipay" || str_eq m "epay_wechat" || str_eq m "stripe" || str_eq m "creem"

-- `UpdatePaymentOrder` of the repository: `Save` of a row that exists.
unfoldable pub update_payment_order : PaymentOrder → M ⊤
update_payment_order o =
    exec λ t. record t { orders = update (λ x. x.id == o.id) (λ _. o) t.orders }

-- The external id is stored, and an error of that is passed over.
unfoldable pub store_external : PaymentOrder → String → M ℕ
store_external o external =
    if str_eq external ""
    then pure 201
    else ignore (update_payment_order (record o { external_id = external })) >> pure 201

-- A failing checkout of a topup is an internal error, a disabled provider is not.
unfoldable pub finish_topup : PaymentOrder → Resolved → M ℕ
unfolding store_external
finish_topup o Resolved.disabled = pure 400
finish_topup o Resolved.failed = pure 500
finish_topup o (Resolved.ready url external) = store_external o external

unfoldable pub pay_topup : Providers → String → Result PaymentOrder → M ℕ
unfolding finish_topup resolve_checkout
pay_topup p url (err _) = pure 500
pay_topup p url (ok o) = finish_topup o (resolve_checkout p o url)

abbrev pub or_default : String → String → String
or_default url other = if str_eq url "" then other else url

-- `CreateTopup`: the binding asks for a positive amount and a method.
unfoldable pub create_topup : Providers → ℕ → ℕ → ℤ → String → String → String → M ℕ
create_topup p now a amount method return_url order_no =
    if leb_ℤ amount (pos 0) || str_eq method ""
    then pure 400
    else if ltb_ℤ amount min_topup
    then pure 400
    else if ltb_ℤ max_topup amount
    then pure 400
    else if not (is_valid_method method)
    then pure 400
    else (do
      made ← try (Service.create_topup now a amount method order_no)
      pay_topup p (or_default return_url "/topup/result") made)

-- The page and its size, as a list reads them from the query.
abbrev pub page_from : ℤ → ℕ
page_from (pos n) = if n == 0 then 1 else n
page_from _ = 1

abbrev pub size_from : ℤ → ℕ
size_from (pos n) = if n == 0 || ltb 100 n then 20 else n
size_from _ = 20

-- `ListOrders` of the repository: newest first, and how many there are.
unfoldable pub repo_list_orders : ℕ → ℕ → ℕ → M (List PaymentOrder × ℕ)
repo_list_orders a page size = do
  total ← query (λ t. count (λ (o : PaymentOrder). o.account_id == a) t.orders)
  list ← query λ t. limit size (
      offset ((page - 1) * size) (
        order_desc (λ o. o.created_at) (select (λ (o : PaymentOrder). o.account_id == a) t.orders)))
  pure (list, total)

unfoldable pub list_orders : ℕ → ℤ → ℤ → M (List PaymentOrder × ℕ)
list_orders a page size = repo_list_orders a (page_from page) (size_from size)

abbrev pub admin_info : String → TxInfo
admin_info kind = record {
  tx_type = kind;
  reference_type = "admin";
  reference_id = Reference.plain "admin_adjust";
  product_id = "";
}

unfoldable pub adjust : ℕ → ℤ → M ⊤
adjust a amount =
    if ltb_ℤ (pos 0) amount
    then Repo.credit a amount (admin_info "admin_credit") >> pure tt
    else Repo.debit a (pos 0 -ℤ amount) (admin_info "admin_debit") >> pure tt

abbrev pub status_or : ℕ → Result ⊤ → ℕ
status_or s (ok _) = 200
status_or s (err _) = s

unfoldable pub after_adjust : ℕ → Result ⊤ → M ℕ
after_adjust a (err _) = pure 400
after_adjust a (ok _) = do read ← try (Repo.get_or_create a >> pure tt); pure (status_or 500 read)

-- `AdminAdjustWallet`: the binding refuses an amount of zero.
unfoldable pub admin_adjust_wallet : ℕ → ℤ → M ℕ
unfolding adjust after_adjust
admin_adjust_wallet a amount =
    if ltb_ℤ (pos 0) amount || ltb_ℤ amount (pos 0)
    then (do done ← try (adjust a amount); after_adjust a done)
    else pure 400

abbrev pub purchase_info : String → String → TxInfo
purchase_info kind p = record {
  tx_type = kind;
  reference_type = "subscription";
  reference_id = Reference.plain "";
  product_id = p;
}

abbrev pub is_priced : ProductPlan → Bool
is_priced plan = ltb_ℤ (pos 0) plan.price_cny

-- The activation failed: what was debited is credited back.
unfoldable pub conclude : ℕ → String → ProductPlan → Result Subscription → M ℕ
conclude a p plan (ok _) = pure 201
conclude a p plan (err _) =
    if is_priced plan
    then ignore (Repo.credit a plan.price_cny (purchase_info "subscription_payment_refund" p))
      >> pure 400
    else pure 400

unfoldable pub activate_charged : Settings → ℕ → ℕ → String → ℕ → ProductPlan → Result ⊤ → M ℕ
unfolding conclude
activate_charged c now a p plan_id plan (err _) = pure 402
activate_charged c now a p plan_id plan (ok _) = do
  done ← try (activate c now a p plan_id "wallet" "")
  conclude a p plan done

unfoldable pub charge : ℕ → String → ProductPlan → M ⊤
charge a p plan =
    if is_priced plan
    then Repo.debit a plan.price_cny (purchase_info "subscription" p) >> pure tt
    else pure tt

unfoldable pub buy_by_wallet : Settings → ℕ → ℕ → String → ℕ → Result (Option ProductPlan) → M ℕ
unfolding activate_charged charge
buy_by_wallet c now a p plan_id (ok (some plan)) = do
  charged ← try (charge a p plan)
  activate_charged c now a p plan_id plan charged
buy_by_wallet c now a p plan_id _ = pure 400

abbrev pub subscription_order : ℕ → ℕ → String → ℕ → ProductPlan → String → PaymentOrder
subscription_order now a p plan_id plan method = record {
  id = 0;
  account_id = a;
  order_no = "";
  order_type = "subscription";
  product_id = p;
  plan_id = some plan_id;
  amount_cny = plan.price_cny;
  payment_method = method;
  status = OrderStatus.pending;
  external_id = "";
  paid_at = none;
  created_at = now;
}

unfoldable pub finish_purchase : PaymentOrder → Resolved → M ℕ
unfolding store_external
finish_purchase o (Resolved.ready url external) = store_external o external
finish_purchase o _ = pure 400

unfoldable pub pay_purchase : Providers → String → Result PaymentOrder → M ℕ
unfolding finish_purchase resolve_checkout
pay_purchase p url (err _) = pure 500
pay_purchase p url (ok o) = finish_purchase o (resolve_checkout p o url)

unfoldable pub buy_by_order :
    Providers → ℕ → ℕ → String → ℕ → String → String → String → Result (Option ProductPlan) → M ℕ
unfolding pay_purchase
buy_by_order ps now a p plan_id method url order_no (ok (some plan)) = do
  made ←
      try (
        Service.create_subscription_order order_no (subscription_order now a p plan_id plan method))
  pay_purchase ps url made
buy_by_order ps now a p plan_id method url order_no _ = pure 400

-- `Checkout`: the binding asks for a product, a plan and a method.
unfoldable pub checkout : Settings → Providers → ℕ → ℕ → String → ℕ → String → String → String → M ℕ
checkout c ps now a p plan_id method return_url order_no =
    if str_eq p "" || plan_id == 0 || str_eq method "" then pure 400 else (do
      plan ← try (get_plan_by_id plan_id)
      if str_eq method "wallet"
          then buy_by_wallet c now a p plan_id plan
          else buy_by_order ps now a p plan_id method (or_default return_url "/subscriptions")
              order_no plan)
