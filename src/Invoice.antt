-- ===== src/Invoice.antt =====
-- internal/app/invoice_service.go and internal/adapter/repo/invoice.go. The invoice number is the
-- reading of a clock in hexadecimal digits; it is an argument here.
pub mod Tests
pub mod Billed
pub mod History
pub mod RoundTrip
use lurus_identity.Base.{
  ℕ, suc, ◌-◌, ◌*◌, ◌/◌, String, ◌+s◌, Bool, true, not, ◌||◌, Option, none, some, List, [], ◌∷◌,
  ◌==◌, str_eq,
}
use lurus_identity.Table.{first, select, count, insert, order_desc, limit, offset}
use lurus_identity.Entity.Billing.{PaymentOrder, Invoice, InvoiceLineItem, InvoiceStatus, is_paid}
use lurus_identity.Store.{
  Tables, Error, Result, ok, err, M, pure, ◌>>=◌, ◌>>◌, raise_if, require, sql, query,
}
use lurus_identity.Wallet.Repo.{get_payment_order_by_no}

abbrev pub for_order : String → Invoice → Bool
for_order n v = str_eq v.order_no n

abbrev pub has_invoice_no : String → Invoice → Bool
has_invoice_no n v = str_eq v.invoice_no n

-- `order_no` and `invoice_no` are unique.
abbrev pub clashes : Invoice → Invoice → Bool
clashes v x = for_order v.order_no x || has_invoice_no v.invoice_no x

-- A TIMESTAMPTZ column keeps an instant's whole microseconds.
abbrev pub micros : ℕ → ℕ
micros x = x / 1000 * 1000

abbrev pub stored : Invoice → Invoice
stored v = record v { issue_date = micros v.issue_date; created_at = micros v.created_at }

-- The caller's invoice gets the new id, and keeps its instants as they were.
unfoldable pub insert_invoice : Invoice → Option Invoice → Tables → Result Invoice × Tables
insert_invoice v (some _) t = (err Error.unique_violation, t)
insert_invoice v none t =
    let v' = record v { id = t.next_id } in
    (ok v', record t { next_id = suc t.next_id; invoices = insert (stored v') t.invoices })

unfoldable pub create : Invoice → M Invoice
create v = sql (λ t. insert_invoice v (first (clashes v) t.invoices) t)

unfoldable pub get_by_order_no : String → M (Option Invoice)
get_by_order_no n = query (λ t. first (for_order n) t.invoices)

unfoldable pub get_by_invoice_no : String → M (Option Invoice)
get_by_invoice_no n = query (λ t. first (has_invoice_no n) t.invoices)

-- `Offset((page - 1) * pageSize).Limit(pageSize)` of the rows, newest first, and how many there are.
abbrev pub page_of : ℕ → ℕ → List Invoice → List Invoice
page_of page size vs = limit size (offset ((page - 1) * size) (order_desc (λ v. v.created_at) vs))

unfoldable pub list_by_account : ℕ → ℕ → ℕ → M (List Invoice × ℕ)
list_by_account a page size = do
  total ← query (λ t. count (λ v. v.account_id == a) t.invoices)
  list ← query (λ t. page_of page size (select (λ v. v.account_id == a) t.invoices))
  pure (list, total)

-- Account 0 stands for all accounts.
abbrev pub is_listed : ℕ → Invoice → Bool
is_listed a v = a == 0 || v.account_id == a

unfoldable pub admin_list : ℕ → ℕ → ℕ → M (List Invoice × ℕ)
admin_list a page size = do
  total ← query (λ t. count (is_listed a) t.invoices)
  list ← query (λ t. page_of page size (select (is_listed a) t.invoices))
  pure (list, total)

abbrev pub line_of : PaymentOrder → InvoiceLineItem
line_of o = record {
  description = o.product_id +s " subscription";
  quantity = 1;
  unit_price = o.amount_cny;
  amount = o.amount_cny;
}

-- `made` is the later reading of the clock that `Create` fills in.
abbrev pub invoice_of : ℕ → ℕ → String → ℕ → PaymentOrder → String → Invoice
invoice_of now made number a o order_no = record {
  id = 0;
  invoice_no = number;
  account_id = a;
  order_no = order_no;
  issue_date = now;
  line_items = line_of o ∷ [];
  subtotal_cny = o.amount_cny;
  total_cny = o.amount_cny;
  currency = "CNY";
  status = InvoiceStatus.issued;
  created_at = made;
}

-- The path on which no invoice exists yet.
unfoldable pub issue : ℕ → ℕ → String → ℕ → String → M Invoice
issue now made number a order_no = do
  found ← get_payment_order_by_no order_no
  o ← require found Error.order_not_found
  raise_if (not (o.account_id == a)) Error.order_not_found
  raise_if (not (is_paid o.status)) Error.order_not_paid
  create (invoice_of now made number a o order_no)

unfoldable pub return_existing : ℕ → Invoice → M Invoice
return_existing a v = do raise_if (not (v.account_id == a)) Error.invoice_not_found; pure v

unfoldable pub generate_from : ℕ → ℕ → String → ℕ → String → Option Invoice → M Invoice
unfolding issue return_existing
generate_from now made number a order_no (some v) = return_existing a v
generate_from now made number a order_no none = issue now made number a order_no

unfoldable pub generate : ℕ → ℕ → String → ℕ → String → M Invoice
unfolding generate_from
generate now made number a order_no = do
  existing ← get_by_order_no order_no
  generate_from now made number a order_no existing

unfoldable pub get_by_no : ℕ → String → M Invoice
get_by_no a number = do
  found ← get_by_invoice_no number
  v ← require found Error.invoice_not_found
  raise_if (not (v.account_id == a)) Error.invoice_not_found
  pure v
