-- ===== src/Invoice/Tests.antt =====
-- A paid order and its invoice.
use lurus_identity.Base.{◌≡◌, refl, ap, none, some, [], ◌∷◌, List, pos, arith}
use lurus_identity.Table.{first, count}
use lurus_identity.Entity.Billing.{PaymentOrder, OrderStatus, Invoice}
use lurus_identity.Store.{Tables, ok, empty}
use lurus_identity.Store.Run.{run, calm}
use lurus_identity.Invoice.{invoice_of, generate, get_by_no, stored}
use lurus_identity.Invoice.Billed.{AreBilled}
use lurus_identity.Invoice.History.{Call, after, after-AreBilled}
use lurus_identity.Invoice.RoundTrip.{generate-get_by_no, generate_issues}

abbrev order_1 : PaymentOrder
order_1 = record {
  id = 3;
  account_id = 7;
  order_no = "LO1";
  order_type = "topup";
  product_id = "";
  plan_id = none;
  amount_cny = pos 100;
  payment_method = "stripe";
  status = OrderStatus.paid;
  external_id = "";
  paid_at = some 12;
  created_at = 10;
}

abbrev sold : Tables
sold = record empty { next_id = 4; orders = order_1 ∷ [] }

sold-AreBilled : AreBilled sold
unfolding count
sold-AreBilled = record { billed = tt; once = λ n. omega arith; numbered = λ n. omega arith }

abbrev calls : List Call
calls =
    Call.bill 20 20 "LI1" 7 "LO1"
    ∷ Call.bill 21 21 "LI2" 7 "LO1"
    ∷ Call.mark_order_paid 22 "LO1"
    ∷ []

after-AreBilled_example : AreBilled (after calls (calm sold)).tables
after-AreBilled_example = after-AreBilled calls (calm sold) sold-AreBilled

abbrev invoice_1 : Invoice
invoice_1 = record (invoice_of 1020 2040 "LI1" 7 order_1 "LO1") { id = 4 }

generated : (generate 1020 2040 "LI1" 7 "LO1" (calm sold)).0 ≡ ok invoice_1
unfolding generate run first
generated =
    ap (λ p. p.0)
      (generate_issues 1020 2040 "LI1" 7 "LO1" {o = order_1} sold refl refl refl refl refl)

generate-get_by_no_example :
    let t = (generate 1020 2040 "LI1" 7 "LO1" (calm sold)).1.tables in
    (row : Invoice) × (stored row ≡ stored invoice_1)
    × (run (get_by_no 7 "LI1") t ≡ (ok row, t))
    × (run (generate 3000 3001 "LI9" 7 "LO1") t ≡ (ok row, t))
generate-get_by_no_example =
    generate-get_by_no 1020 2040 3000 3001 "LI1" "LI9" 7 "LO1" {v = invoice_1} (calm sold)
      sold-AreBilled generated
