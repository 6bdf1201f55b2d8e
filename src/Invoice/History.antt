-- ===== src/Invoice/History.antt =====
-- Any sequence of calls that write orders or invoices, with any failing statements among them.
use lurus_identity.Base.{
  ℕ, ◌≡◌, refl, String, Bool, false, Option, none, some, List, [], ◌∷◌, ℤ, arith,
}
use lurus_identity.Table.{first, update}
use lurus_identity.Table.Laws.{All-map}
use lurus_identity.Entity.Billing.{PaymentOrder, is_pending_order}
use lurus_identity.Store.{Tables, Db, M, ⊤, pure, ◌>>◌}
use lurus_identity.Store.Keeps.{Keeps, Keeps-sql, Keeps-bind, keeps_rules}
use lurus_identity.Wallet.Repo.{
  has_order_no, insert_order, create_payment_order, set_paid_where, is_pending, set_paid,
  mark_payment_order_paid, get_payment_order_by_no, expire_stale_pending_orders, is_stale,
  set_expired,
}
use lurus_identity.Wallet.Service
use lurus_identity.Wallet.Service.{credit_topup}
use lurus_identity.Wallet.Frame.{topup-Keeps}
use lurus_identity.Invoice.{generate}
use lurus_identity.Invoice.Billed.{
  AreBilled, insert_order-IsBilled, update_pending-IsBilled, generate-AreBilled,
}

-- The calls, with the readings of the clock and the generated numbers as arguments.
pub data Call : Type 0 where
  bill : ℕ → ℕ → String → ℕ → String → Call
  create_topup : ℕ → ℕ → ℤ → String → String → Call
  create_subscription_order : String → PaymentOrder → Call
  mark_order_paid : ℕ → String → Call
  expire_stale : ℕ → ℕ → Call

unfoldable pub perform : Call → M ⊤
perform (Call.bill now made number a n) = generate now made number a n >> pure tt
perform (Call.create_topup now a amount m n) = Service.create_topup now a amount m n >> pure tt
perform (Call.create_subscription_order n o) = Service.create_subscription_order n o >> pure tt
perform (Call.mark_order_paid now n) = Service.mark_order_paid now n >> pure tt
perform (Call.expire_stale now age) = expire_stale_pending_orders now age >> pure tt

-- The state after the calls, in turn; a call that fails is followed by the next one.
unfoldable pub after : List Call → Db → Db
after [] s = s
after (c ∷ cs) s = after cs (perform c s).1

same-AreBilled :
    {t u : Tables} → u.orders ≡ t.orders → u.invoices ≡ t.invoices → AreBilled t → AreBilled u
same-AreBilled e f h = record {
  billed = rw (e, f) h.billed;
  once = rw f h.once;
  numbered = rw f h.numbered;
}

insert_order-AreBilled :
    (o : PaymentOrder) (found : Option PaymentOrder) (t : Tables)
    → AreBilled t
    → AreBilled (insert_order o found t).1
unfolding insert_order
insert_order-AreBilled o none t h = record {
  billed = All-map t.invoices (insert_order-IsBilled _ t.orders) h.billed;
  once = h.once;
  numbered = h.numbered;
}
insert_order-AreBilled o (some x) t h = h

create_payment_order-AreBilled : (o : PaymentOrder) → Keeps AreBilled (create_payment_order o)
unfolding create_payment_order
create_payment_order-AreBilled o =
    Keeps-sql _ (λ t h. insert_order-AreBilled o (first (has_order_no o.order_no) t.orders) t h)

updated-AreBilled :
    (p : PaymentOrder → Bool) (f : PaymentOrder → PaymentOrder) (t : Tables)
    → ((o : PaymentOrder) (n : String) → has_order_no n (f o) ≡ has_order_no n o)
    → ((o : PaymentOrder) → is_pending_order o.status ≡ false → p o ≡ false)
    → AreBilled t
    → AreBilled (record t { orders = update p f t.orders })
updated-AreBilled p f t k pending h = record {
  billed = All-map t.invoices (λ v. update_pending-IsBilled p f t.orders v k pending) h.billed;
  once = h.once;
  numbered = h.numbered;
}

mark_payment_order_paid-AreBilled :
    (now : ℕ) (n : String) → Keeps AreBilled (mark_payment_order_paid now n)
unfolding mark_payment_order_paid set_paid_where get_payment_order_by_no
mark_payment_order_paid-AreBilled now n =
    Keeps-bind _ _
      (Keeps-sql _ (λ t h.
        updated-AreBilled (is_pending n) (set_paid now) t (λ o m. refl) (λ o e. ground (arith, e))
          h))
      (λ rows. search keeps_rules)

expire_stale-AreBilled : (now age : ℕ) → Keeps AreBilled (expire_stale_pending_orders now age)
unfolding expire_stale_pending_orders
expire_stale-AreBilled now age =
    Keeps-sql _
      (λ t h. updated-AreBilled (is_stale now age) set_expired t (λ o m. refl) (λ o e. rw e refl) h)

topup-AreBilled : (a : ℕ) (amount : ℤ) (n : String) → Keeps AreBilled (Service.topup a amount n)
topup-AreBilled =
    topup-Keeps (λ t ws h. same-AreBilled refl refl h) (λ t es h. same-AreBilled refl refl h)
      (λ t vs h. same-AreBilled refl refl h)

credit_topup-AreBilled : (b : Bool) (o : PaymentOrder) → Keeps AreBilled (credit_topup b o)
unfolding credit_topup
credit_topup-AreBilled b o = search (keeps_rules, topup-AreBilled)

perform-AreBilled : (c : Call) → Keeps AreBilled (perform c)
unfolding perform Service.create_topup Service.create_subscription_order Service.mark_order_paid
perform-AreBilled (Call.bill now made number a n) = search (keeps_rules, generate-AreBilled)
perform-AreBilled (Call.create_topup now a amount m n) =
    search (keeps_rules, create_payment_order-AreBilled)
perform-AreBilled (Call.create_subscription_order n o) =
    search (keeps_rules, create_payment_order-AreBilled)
perform-AreBilled (Call.mark_order_paid now n) =
    search (keeps_rules, mark_payment_order_paid-AreBilled, credit_topup-AreBilled) depth 9
perform-AreBilled (Call.expire_stale now age) = search (keeps_rules, expire_stale-AreBilled)

-- Whatever orders are created, paid or expired and whatever invoices are generated, whichever
-- statements fail: when each invoice bills the order of its number (which is paid, of the same account
-- and of the same amount) and no order and no invoice number has two invoices, the same holds
-- afterwards.
pub after-AreBilled : (cs : List Call) (s : Db) → AreBilled s.tables → AreBilled (after cs s).tables
unfolding after
after-AreBilled [] s h = h
after-AreBilled (c ∷ cs) s h = after-AreBilled cs (perform c s).1 ((perform-AreBilled c).at s h)
