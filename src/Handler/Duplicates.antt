-- ===== src/Handler/Duplicates.antt =====
-- What the deduplicator does to the second notification of an event.
use lurus_identity.Base.{
  ℕ, ◌+◌, ◌<◌, ◌≡◌, refl, sym, subst, ◌∙◌, inl, inr, String, Bool, true, false, Option, none, some,
  arith, str_eq, Option-cases, eq_iff,
}
use lurus_identity.Table.{first}
use lurus_identity.Table.Laws.{first-insert}
use lurus_identity.Entity.Billing.{PaymentOrder}
use lurus_identity.Store.{
  Tables, Db, SeenEvent, Result, ok, err, M, ⊤, pure, raise_if, ◌>>=◌, follow, sql, try, draw,
  answer,
}
use lurus_identity.Store.Keeps.{Keeps, keeps_rules}
use lurus_identity.Store.Run.{run}
use lurus_identity.Wallet.Frame.{mark_order_paid-Keeps}
use lurus_identity.Subscription.Frame.{activate-Keeps}
use lurus_identity.Subscription.Service.{Settings, activate}
use lurus_identity.Wallet.Service.{mark_order_paid}
use lurus_identity.Payment.{Values, EpayClient, get_value, verify_callback}
use lurus_identity.Idempotency.{is_marked, mark_event, set_nx, judge, try_process}
use lurus_identity.Handler.Webhook.{
  WebhookHandler, Clock, activate_paid, process_order_paid, unless_seen, pay, epay_verified,
  epay_accept, epay_notify,
}

-- Redis holds the event at `now`.
pub record IsSeen (now : ℕ) (i : String) (t : Tables) : Type 0 where
  pub mark : SeenEvent
  pub found : first (is_marked now i) t.seen ≡ some mark

module _ (now : ℕ) (i : String) where
  same : (t u : Tables) → u.seen ≡ t.seen → IsSeen now i t → IsSeen now i u
  same t u e h = record { mark = h.mark; found = rw e h.found }

  activate-IsSeen :
      (c : Settings) (at a : ℕ) (p : String) (plan : ℕ) (method external : String)
      → Keeps (IsSeen now i) (activate c at a p plan method external)
  activate-IsSeen =
      activate-Keeps (λ t x h. same t _ refl h) (λ t x h. same t _ refl h)
        (λ t x h. same t _ refl h) (λ t x h. same t _ refl h)

  mark_order_paid-IsSeen : (at : ℕ) (n : String) → Keeps (IsSeen now i) (mark_order_paid at n)
  mark_order_paid-IsSeen =
      mark_order_paid-Keeps (λ t x h. same t _ refl h) (λ t x h. same t _ refl h)
        (λ t x h. same t _ refl h) (λ t x h. same t _ refl h)

  activate_paid-IsSeen :
      (h : WebhookHandler) (at : ℕ) (o : PaymentOrder) (plan : Option ℕ)
      → Keeps (IsSeen now i) (activate_paid h at o plan)
  unfolding activate_paid
  activate_paid-IsSeen h at o none = search keeps_rules
  activate_paid-IsSeen h at o (some plan) = search (keeps_rules, activate-IsSeen)

  process_order_paid-IsSeen :
      (h : WebhookHandler) (clock : Clock) (n : String)
      → Keeps (IsSeen now i) (process_order_paid h clock n)
  unfolding process_order_paid
  process_order_paid-IsSeen h clock n =
      search (keeps_rules, mark_order_paid-IsSeen, activate_paid-IsSeen)

  pay-IsSeen :
      (h : WebhookHandler) (clock : Clock) (n : String) → Keeps (IsSeen now i) (pay h clock n)
  unfolding pay
  pay-IsSeen h clock n = search (keeps_rules, process_order_paid-IsSeen)

  epay_verified-IsSeen :
      (h : WebhookHandler) (clock : Clock) (o : Option String)
      → Keeps (IsSeen now i) (epay_verified h clock o)
  unfolding epay_verified
  epay_verified-IsSeen h clock none = search keeps_rules
  epay_verified-IsSeen h clock (some n) = pay-IsSeen h clock n

  epay_accept-IsSeen :
      (h : WebhookHandler) (clock : Clock) (params : Values) (c : Option EpayClient)
      → Keeps (IsSeen now i) (epay_accept h clock params c)
  unfolding epay_accept
  epay_accept-IsSeen h clock params none = search keeps_rules
  epay_accept-IsSeen h clock params (some c) =
      epay_verified-IsSeen h clock (verify_callback c params)

  unless_seen-IsSeen :
      (k : M ℕ) (r : Result ⊤) → Keeps (IsSeen now i) k → Keeps (IsSeen now i) (unless_seen k r)
  unfolding unless_seen
  unless_seen-IsSeen k r h = search keeps_rules

-- Redis is configured and the event has an id.
pub record IsChecked (h : WebhookHandler) (i : String) : Type 0 where
  pub has_redis : h.deduper.has_redis ≡ true
  pub has_id : str_eq i "" ≡ false

judge-tables : (r : Result Bool) (s : Db) → (judge r s).1.tables ≡ s.tables
unfolding judge pure raise_if
judge-tables (ok b) s = refl
judge-tables (err e) s = refl

marked_now :
    (now later ttl : ℕ) (i : String) (t : Tables)
    → first (is_marked now i) t.seen ≡ none
    → later < now + ttl
    → IsSeen later i (mark_event now ttl i none t).1
unfolding mark_event
marked_now now later ttl i t e l = elim (Option-cases (first (is_marked later i) t.seen)) [
  | inl f ↦ record {
    mark = record { event_id = i; expires_at = now + ttl };
    found = first-insert (is_marked later i) _ t.seen ∙ rw f (ground (arith, eq_iff i i, l));
  }
  | inr (x, f) ↦ record { mark = x; found = first-insert (is_marked later i) _ t.seen ∙ rw f refl }
]

try_process-IsSeen :
    (h : WebhookHandler) (now later : ℕ) (i : String) (s : Db)
    → IsChecked h i
    → (draw s.faults).0 ≡ false
    → first (is_marked now i) s.tables.seen ≡ none
    → later < now + h.deduper.ttl
    → IsSeen later i (try_process h.deduper now i s).1.tables
unfolding try_process set_nx sql try answer follow ◌>>=◌
try_process-IsSeen h now later i s c calm_now fresh l =
    let out = mark_event now h.deduper.ttl i none s.tables in
    rw (c.has_redis) (
      rw (c.has_id) (
        rw calm_now (
          rw fresh (
            subst (IsSeen later i)
              (sym (judge-tables out.0 (record { tables = out.1; faults = (draw s.faults).1 })))
              (marked_now now later h.deduper.ttl i s.tables fresh l)))))

epay_notify-IsSeen :
    (h : WebhookHandler) (clock : Clock) (params : Values) (later : ℕ) (s : Db)
    → let i = get_value params "trade_no" in
      IsChecked h i
      → (draw s.faults).0 ≡ false
      → first (is_marked clock.marked_at i) s.tables.seen ≡ none
      → later < clock.marked_at + h.deduper.ttl
      → IsSeen later i (epay_notify h clock params s).1.tables
unfolding epay_notify try follow ◌>>=◌
epay_notify-IsSeen h clock params later s c calm_now fresh l =
    let i = get_value params "trade_no" in
    (unless_seen-IsSeen later i _ (try_process h.deduper clock.marked_at i s).0
        (epay_accept-IsSeen later i h clock params h.epay)).at
      (try_process h.deduper clock.marked_at i s).1
      (try_process-IsSeen h clock.marked_at later i s c calm_now fresh l)

repeated :
    (h : WebhookHandler) (clock : Clock) (params : Values) (t : Tables)
    → let i = get_value params "trade_no" in
      IsChecked h i → IsSeen clock.marked_at i t → run (epay_notify h clock params) t ≡ (ok 200, t)
unfolding run epay_notify try_process set_nx mark_event judge raise_if unless_seen sql try pure
    follow ◌>>=◌
repeated h clock params t c k = rw (c.has_redis) (rw (c.has_id) (rw (k.found) refl))

-- With Redis configured, a callback of epay that carries a trade number that Redis does not hold,
-- handled while Redis answers: whatever was answered to it and whichever later statements failed,
-- every callback with that trade number before the key expires is answered 200 and changes nothing,
-- whatever order it is about.
pub epay_duplicate :
    (h : WebhookHandler) (clock again : Clock) (params others : Values) (s : Db)
    → let i = get_value params "trade_no" in
      IsChecked h i
      → (draw s.faults).0 ≡ false
      → first (is_marked clock.marked_at i) s.tables.seen ≡ none
      → again.marked_at < clock.marked_at + h.deduper.ttl
      → get_value others "trade_no" ≡ i
      → let t = (epay_notify h clock params s).1.tables in
        run (epay_notify h again others) t ≡ (ok 200, t)
epay_duplicate h clock again params others s c calm_now fresh l e =
    let seen = epay_notify-IsSeen h clock params again.marked_at s c calm_now fresh l in
    repeated h again others _ (subst (IsChecked h) (sym e) c)
      (subst (λ i. IsSeen again.marked_at i (epay_notify h clock params s).1.tables) (sym e) seen)
