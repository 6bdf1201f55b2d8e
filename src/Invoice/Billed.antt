-- ===== src/Invoice/Billed.antt =====
-- Invoices bill paid orders: one for an order, of its account and amount.
use lurus_identity.Base.{
  ℕ, suc, ◌≤◌, ◌≡◌, refl, ◌∙◌, inl, inr, String, Bool, true, false, Option, none, some, List, arith,
  Bool-cases, Option-cases, ◌==◌, eq_iff,
}
use lurus_identity.Table.{first, update, count, insert}
use lurus_identity.Table.Laws.{All, All-insert, first-insert, first-update}
use lurus_identity.Table.Count.{count-insert, count-none, count_cover}
use lurus_identity.Entity.Billing.{PaymentOrder, OrderStatus, Invoice, is_paid, is_pending_order}
use lurus_identity.Store.{Tables}
use lurus_identity.Store.Keeps.{Keeps, keeps_rules}
use lurus_identity.Store.Leads.{
  Leads, Keeps-Leads, Leads-bind, Leads-query, Leads-require, Leads-raise_if, Leads-sql_any,
}
use lurus_identity.Wallet.Repo.{has_order_no, get_payment_order_by_no}
use lurus_identity.Invoice.{
  for_order, has_invoice_no, clashes, insert_invoice, create, get_by_order_no, invoice_of, issue,
  return_existing, generate_from, generate, stored,
}

-- The invoice bills this order.
pub record Bills (v : Invoice) (o : PaymentOrder) : Type 0 where
  pub is_paid_for : is_paid o.status ≡ true
  pub same_account : v.account_id ≡ o.account_id
  pub same_total : v.total_cny ≡ o.amount_cny

abbrev pub IsBilled : List PaymentOrder → Invoice → Type 0
IsBilled os v = (o : PaymentOrder) × (first (has_order_no v.order_no) os ≡ some o) × Bills v o

-- Each invoice bills the order of its number, and no order or number has two invoices.
pub record AreBilled (t : Tables) : Type 0 where
  pub billed : All (IsBilled t.orders) t.invoices
  pub once : (n : String) → count (for_order n) t.invoices ≤ 1
  pub numbered : (n : String) → count (has_invoice_no n) t.invoices ≤ 1

paid_settled : (s : OrderStatus) → is_paid s ≡ true → is_pending_order s ≡ false
paid_settled OrderStatus.pending h = cc
paid_settled OrderStatus.paid h = refl
paid_settled OrderStatus.failed h = refl
paid_settled OrderStatus.cancelled h = refl
paid_settled OrderStatus.refunded h = refl
paid_settled OrderStatus.expired h = refl

-- A new order has a place behind the others.
pub insert_order-IsBilled :
    (o : PaymentOrder) (os : List PaymentOrder) (v : Invoice)
    → IsBilled os v
    → IsBilled (insert o os) v
insert_order-IsBilled o os v (b, found, bills) =
    (b, first-insert (has_order_no v.order_no) o os ∙ rw found refl, bills)

-- An update of pending orders.
pub update_pending-IsBilled :
    (p : PaymentOrder → Bool) (f : PaymentOrder → PaymentOrder) (os : List PaymentOrder)
    (v : Invoice)
    → ((o : PaymentOrder) (n : String) → has_order_no n (f o) ≡ has_order_no n o)
    → ((o : PaymentOrder) → is_pending_order o.status ≡ false → p o ≡ false)
    → IsBilled os v
    → IsBilled (update p f os) v
update_pending-IsBilled p f os v k pending (b, found, bills) =
    let untouched : p b ≡ false = pending b (paid_settled b.status bills.is_paid_for) in
    (
      b,
      first-update (has_order_no v.order_no) p f os (λ o. k o v.order_no)
          ∙ rw found (rw untouched refl),
      bills,
    )

-- The unique indices refuse an invoice of an order or a number that has one.
fresh_invoice :
    (v : Invoice) (p : Invoice → Bool) (vs : List Invoice)
    → ((x : Invoice) → p x ≡ true → p v ≡ true → clashes v x ≡ true)
    → first (clashes v) vs ≡ none
    → count p vs ≤ 1
    → count p (insert v vs) ≤ 1
fresh_invoice v p vs same e h = elim (Bool-cases (p v)) [
  | inl k ↦ omega (
    arith,
    rw k at (count-insert p v vs),
    count_cover p (clashes v) (clashes v) vs (λ x a b. same x a k),
    count-none (clashes v) vs e,
  )
  | inr k ↦ omega (arith, rw k at (count-insert p v vs), h)
]

inserted :
    (v : Invoice) (o : PaymentOrder) (t : Tables)
    → AreBilled t
    → first (has_order_no v.order_no) t.orders ≡ some o
    → Bills v o
    → first (clashes v) t.invoices ≡ none
    → AreBilled (record t { next_id = suc t.next_id; invoices = insert v t.invoices })
inserted v o t h found bills e = record {
  billed = All-insert (IsBilled t.orders) v t.invoices (o, found, bills) h.billed;
  once = λ n.
      fresh_invoice v (for_order n) t.invoices
        (λ x a b.
          ground (arith, eq_iff x.order_no n, eq_iff v.order_no n, eq_iff x.order_no v.order_no))
        e (h.once n);
  numbered = λ n.
      fresh_invoice v (has_invoice_no n) t.invoices
        (λ x a b.
          ground
            (arith, eq_iff x.invoice_no n, eq_iff v.invoice_no n, eq_iff x.invoice_no v.invoice_no))
        e (h.numbered n);
}

new_invoice :
    (v : Invoice) (o : PaymentOrder) (t : Tables)
    → AreBilled t
    → first (has_order_no v.order_no) t.orders ≡ some o
    → Bills v o
    → AreBilled (insert_invoice v (first (clashes v) t.invoices) t).1
unfolding insert_invoice
new_invoice v o t h found bills = elim (Option-cases (first (clashes v) t.invoices)) [
  | inl e ↦ rw e (
      inserted (stored (record v { id = t.next_id })) o t h found
        (record {
          is_paid_for = bills.is_paid_for;
          same_account = bills.same_account;
          same_total = bills.same_total;
        })
        e)
  | inr (x, e) ↦ rw e h
]

-- The order `o` was read, is the account's, and is paid.
abbrev IsRead : String → PaymentOrder → Tables → Type 0
IsRead n o t = AreBilled t × (first (has_order_no n) t.orders ≡ some o)

abbrev IsOwn : String → ℕ → PaymentOrder → Tables → Type 0
IsOwn n a o t = IsRead n o t × ((o.account_id == a) ≡ true)

abbrev IsDue : String → ℕ → PaymentOrder → Tables → Type 0
IsDue n a o t = IsOwn n a o t × (is_paid o.status ≡ true)

create-leads :
    (now made : ℕ) (number : String) (a : ℕ) (n : String) (o : PaymentOrder)
    → Leads (IsDue n a o) (create (invoice_of now made number a o n)) (λ _. AreBilled) AreBilled
unfolding create
create-leads now made number a n o =
    Leads-sql_any _
      (λ t h.
        new_invoice (invoice_of now made number a o n) o t h.0.0.0 h.0.0.1
          (record { is_paid_for = h.1; same_account = ground (arith, h.0.1); same_total = refl }))
      (λ t h. h.0.0.0)

issue-leads :
    (now made : ℕ) (number : String) (a : ℕ) (n : String)
    → Leads AreBilled (issue now made number a n) (λ _. AreBilled) AreBilled
unfolding issue get_payment_order_by_no
issue-leads now made number a n = Leads-bind _ _ (Leads-query _ (λ t h. h)) λ found.
    Leads-bind _ _ (Leads-require {Q = IsRead n} found _ (λ o t e h. (h.0, h.1 ∙ e)) (λ t h. h.0))
      λ o.
        Leads-bind _ _
          (Leads-raise_if {S = IsOwn n a o} _ _ (λ t h e. (h, ground (arith, e))) (λ t h e. h.0))
          λ _.
            Leads-bind _ _
              (Leads-raise_if {S = IsDue n a o} _ _ (λ t h e. (h, ground (arith, e)))
                (λ t h e. h.0.0))
              (λ _. create-leads now made number a n o)

generate_from-AreBilled :
    (now made : ℕ) (number : String) (a : ℕ) (n : String) (existing : Option Invoice)
    → Keeps AreBilled (generate_from now made number a n existing)
unfolding generate_from return_existing
generate_from-AreBilled now made number a n (some v) = search keeps_rules
generate_from-AreBilled now made number a n none = Keeps-Leads _ (issue-leads now made number a n)

pub generate-AreBilled :
    (now made : ℕ) (number : String) (a : ℕ) (n : String)
    → Keeps AreBilled (generate now made number a n)
unfolding generate get_by_order_no
generate-AreBilled now made number a n = search (keeps_rules, generate_from-AreBilled)
