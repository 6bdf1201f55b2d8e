-- ===== src/Invoice/RoundTrip.antt =====
-- What `Generate` returns is what later calls find.
use lurus_identity.Base.{
  ℕ, suc, ◌≡◌, refl, subst, ◌∙◌, String, Bool, true, Option, none, some, List, arith, ◌==◌, eq_iff,
}
use lurus_identity.Table.{first, insert}
use lurus_identity.Table.Laws.{first-insert, first-none, first_neither, first_only}
use lurus_identity.Entity.Billing.{PaymentOrder, Invoice, is_paid}
use lurus_identity.Store.{Tables, Db, Result, ok, err, pure, require, raise_if, ◌>>=◌, follow, sql}
use lurus_identity.Store.Keeps.{Keeps-query}
use lurus_identity.Store.Run.{run}
use lurus_identity.Store.Leads.{
  Leads, Outcome, Leads-Keeps, Leads-bind, Leads-query, Leads-require, Leads-raise_if, Leads-sql,
  Leads-pure,
}
use lurus_identity.Wallet.Repo.{get_payment_order_by_no, has_order_no}
use lurus_identity.Invoice.{
  for_order, has_invoice_no, clashes, insert_invoice, create, get_by_order_no, get_by_invoice_no,
  invoice_of, issue, return_existing, stored, micros, generate_from, generate, get_by_no,
}
use lurus_identity.Invoice.Billed.{AreBilled}

-- A row is found by the order `n` and by the number of `v`, it is `a`'s, and it is `v` but for what an
-- instant has beyond whole microseconds.
pub record IsFiled (a : ℕ) (n : String) (v : Invoice) (t : Tables) : Type 0 where
  pub row : Invoice
  pub by_order : first (for_order n) t.invoices ≡ some row
  pub by_number : first (has_invoice_no v.invoice_no) t.invoices ≡ some row
  pub own : (row.account_id == a) ≡ true
  pub same : stored row ≡ stored v

micros_again : (x : ℕ) → micros (micros x) ≡ micros x
micros_again x = omega arith

stored_again : (v : Invoice) → stored (stored v) ≡ stored v
stored_again v = rw (micros_again v.issue_date, micros_again v.created_at) refl

abbrev Anything : Tables → Type 0
Anything t = Unit

insert_invoice-Outcome :
    (now made : ℕ) (number : String) (a : ℕ) (n : String) (o : PaymentOrder) (t : Tables)
    (faults : List Bool) (clash : Option Invoice)
    → first (clashes (invoice_of now made number a o n)) t.invoices ≡ clash
    → Outcome (IsFiled a n) Anything (
        let out = insert_invoice (invoice_of now made number a o n) clash t in
        (out.0, record { tables = out.1; faults = faults }))
unfolding insert_invoice
insert_invoice-Outcome now made number a n o t faults (some x) e = tt
insert_invoice-Outcome now made number a n o t faults none e = record {
  row = stored (record (invoice_of now made number a o n) { id = t.next_id });
  by_order =
      first-insert (for_order n) _ t.invoices
      ∙ rw (first-none (for_order n) _ t.invoices (λ x f. rw f refl) e)
          (ground (arith, eq_iff n n));
  by_number =
      first-insert (has_invoice_no number) _ t.invoices
      ∙ rw (first-none (has_invoice_no number) _ t.invoices (λ x f. ground (arith, f)) e)
          (ground (arith, eq_iff number number));
  own = ground arith;
  same = stored_again (record (invoice_of now made number a o n) { id = t.next_id });
}

create-leads :
    (now made : ℕ) (number : String) (a : ℕ) (n : String) (o : PaymentOrder)
    → Leads AreBilled (create (invoice_of now made number a o n)) (IsFiled a n) Anything
unfolding create
create-leads now made number a n o =
    Leads-sql _ (λ t faults h. insert_invoice-Outcome now made number a n o t faults _ refl)
      (λ t h. tt)

issue-leads :
    (now made : ℕ) (number : String) (a : ℕ) (n : String)
    → Leads AreBilled (issue now made number a n) (IsFiled a n) Anything
unfolding issue get_payment_order_by_no
issue-leads now made number a n =
    Leads-bind _ _ (Leads-Keeps _ (Keeps-query _) (λ t h. tt)) λ found.
      Leads-bind _ _ (Leads-require {Q = λ o. AreBilled} found _ (λ o t e h. h) (λ t h. tt)) λ o.
        Leads-bind _ _ (Leads-raise_if {S = AreBilled} _ _ (λ t h e. h) (λ t h e. tt)) λ _.
          Leads-bind _ _ (Leads-raise_if {S = AreBilled} _ _ (λ t h e. h) (λ t h e. tt))
            λ _. create-leads now made number a n o

existing-leads :
    (a : ℕ) (n : String) (v : Invoice)
    → Leads
        (λ t. AreBilled t × (first (for_order n) t.invoices ≡ some v))
        (return_existing a v)
        (IsFiled a n)
        Anything
unfolding return_existing
existing-leads a n v =
    Leads-bind _ _
      (Leads-raise_if
        {S = λ t.
          AreBilled t × (first (for_order n) t.invoices ≡ some v) × ((v.account_id == a) ≡ true)}
        _ _ (λ t h e. (h.0, h.1, ground (arith, e))) (λ t h e. tt))
      λ _. Leads-pure v λ t h. record {
        row = v;
        by_order = h.1;
        by_number =
            first_only (for_order n) (has_invoice_no v.invoice_no) t.invoices h.1
              (ground (arith, eq_iff v.invoice_no v.invoice_no)) (h.0.numbered v.invoice_no);
        own = h.2;
        same = refl;
      }

from-leads :
    (now made : ℕ) (number : String) (a : ℕ) (n : String) (existing : Option Invoice)
    → Leads
        (λ t. AreBilled t × (first (for_order n) t.invoices ≡ existing))
        (generate_from now made number a n existing)
        (IsFiled a n)
        Anything
unfolding generate_from
from-leads now made number a n (some v) = existing-leads a n v
from-leads now made number a n none = record {
  at = λ s h. (issue-leads now made number a n).at s h.0;
}

generate-leads :
    (now made : ℕ) (number : String) (a : ℕ) (n : String)
    → Leads AreBilled (generate now made number a n) (IsFiled a n) Anything
unfolding generate get_by_order_no
generate-leads now made number a n =
    Leads-bind _ _ (Leads-query _ (λ t h. tt)) (from-leads now made number a n)

filed :
    (a : ℕ) (n : String) (out : Result Invoice × Db) {v : Invoice}
    → out.0 ≡ ok v
    → Outcome (IsFiled a n) Anything out
    → IsFiled a n v out.1.tables
filed a n (ok w, s) {v} e h = subst (λ (x : Invoice). IsFiled a n x s.tables) (cc) h
filed a n (err x, s) e h = cc

get_by_no-filed :
    (a : ℕ) (n : String) (v : Invoice) (t : Tables) (f : IsFiled a n v t)
    → run (get_by_no a v.invoice_no) t ≡ (ok f.row, t)
unfolding run get_by_no get_by_invoice_no require raise_if pure sql follow ◌>>=◌
get_by_no-filed a n v t f = rw (f.by_number, f.own) refl

generate-filed :
    (now made : ℕ) (number : String) (a : ℕ) (n : String) (v : Invoice) (t : Tables)
    (f : IsFiled a n v t)
    → run (generate now made number a n) t ≡ (ok f.row, t)
unfolding run generate generate_from return_existing get_by_order_no raise_if pure sql follow ◌>>=◌
generate-filed now made number a n v t f = rw (f.by_order, f.own) refl

-- From a state where invoices bill their orders, for an invoice that `Generate` returns, whichever
-- statements failed before, there is afterwards a row that `GetByNo` returns for its number, and
-- `Generate` for the order at any later time, changing nothing; and the row is that invoice but for
-- what its instants have beyond whole microseconds.
pub generate-get_by_no :
    (now made later made_later : ℕ) (number other : String) (a : ℕ) (n : String) {v : Invoice}
    (s : Db)
    → AreBilled s.tables
    → (generate now made number a n s).0 ≡ ok v
    → let t = (generate now made number a n s).1.tables in
      (row : Invoice) × (stored row ≡ stored v)
      × (run (get_by_no a v.invoice_no) t ≡ (ok row, t))
      × (run (generate later made_later other a n) t ≡ (ok row, t))
generate-get_by_no now made later made_later number other a n {v} s h e =
    let f =
      filed a n (generate now made number a n s) e ((generate-leads now made number a n).at s h) in
    (f.row, f.same, get_by_no-filed a n v _ f, generate-filed later made_later other a n v _ f)

-- Without failures, for a paid order of the account that has no invoice, and with a number that no
-- invoice has, `Generate` stores one invoice, of the order's amount, and returns it.
pub generate_issues :
    (now made : ℕ) (number : String) (a : ℕ) (n : String) {o : PaymentOrder} (t : Tables)
    → first (for_order n) t.invoices ≡ none
    → first (has_invoice_no number) t.invoices ≡ none
    → first (has_order_no n) t.orders ≡ some o
    → o.account_id ≡ a
    → is_paid o.status ≡ true
    → run (generate now made number a n) t ≡ (
        let v = record (invoice_of now made number a o n) { id = t.next_id } in
        (ok v, record t { next_id = suc t.next_id; invoices = insert (stored v) t.invoices }))
unfolding run generate generate_from issue create insert_invoice get_by_order_no
    get_payment_order_by_no require raise_if pure sql follow ◌>>=◌
generate_issues now made number a n {o} t unbilled fresh found own paid =
    let free : first (clashes (invoice_of now made number a o n)) t.invoices ≡ none =
      first_neither (for_order n) (has_invoice_no number) t.invoices unbilled fresh in
    let mine : (o.account_id == a) ≡ true = ground (arith, own) in
    rw (unbilled, found) (rw mine (rw paid (rw free refl)))
