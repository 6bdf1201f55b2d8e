-- ===== src/Subscription/Renewable.antt =====
-- Whether the subscription that an activation creates will be renewed.
use lurus_identity.Base.{
  ℕ, ◌≡◌, refl, String, Bool, true, false, ◌&&◌, Option, none, some, List, [], ◌∷◌, arith, eq_iff,
}
use lurus_identity.Table.{count, select}
use lurus_identity.Table.Count.{count-insert, count_le, count_cover}
use lurus_identity.Entity.Identity.{Subscription, SubStatus, is_live, is_active}
use lurus_identity.Entitlement.{get_plan_by_id}
use lurus_identity.Entitlement.Frame.{sync-Keeps}
use lurus_identity.Store.{Tables, ok, sql}
use lurus_identity.Store.Keeps.{Keeps, keeps_rules}
use lurus_identity.Store.Run.{run}
use lurus_identity.Store.Leads.{Outcome, Leads, Leads-Keeps, Leads-sql, Leads-bind, Leads-pure}
use lurus_identity.Subscription.Repo.{
  create, insert_sub, conflict, numbered, rival, has_id, live_of, of_product, due_for_renewal,
  list_due_for_renewal, get_active,
}
use lurus_identity.Subscription.Service.{Settings, activate}
use lurus_identity.Subscription.Unique.{AreUnique, own_or_rival, no_rivals}
use lurus_identity.Cron.Unique.{expire_existing-AreUnique}

abbrev pub Any : Tables → Type 0
Any t = Unit

-- The query of the renewal job at that time answers, with no row of the account and the product.
pub record IsNotDue (later a : ℕ) (p : String) (t : Tables) : Type 0 where
  pub due : List Subscription
  pub listed : run (list_due_for_renewal later) t ≡ (ok due, t)
  pub others : count (of_product a p) due ≡ 0

-- A row of the account and the product that is due.
abbrev due_of : ℕ → ℕ → String → Subscription → Bool
due_of later a p s = of_product a p s && due_for_renewal later s

abbrev NoneDue : ℕ → ℕ → String → Tables → Type 0
NoneDue later a p t = count (due_of later a p) t.subscriptions ≡ 0

count-select :
    {A : Type 0} (p q : A → Bool) (xs : List A) → count p (select q xs) ≡ count (λ x. p x && q x) xs
unfolding count select
count-select p q [] = refl
count-select p q (x ∷ xs) = ground (arith, count-select p q xs)

answered : (later a : ℕ) (p : String) (t : Tables) → NoneDue later a p t → IsNotDue later a p t
unfolding run list_due_for_renewal sql
answered later a p t h = record {
  due = select (due_for_renewal later) t.subscriptions;
  listed = refl;
  others = omega (arith, h, count-select (of_product a p) (due_for_renewal later) t.subscriptions);
}

active_live : (st : SubStatus) → is_active st ≡ true → is_live st ≡ true
active_live SubStatus.pending h = cc
active_live SubStatus.trial h = cc
active_live SubStatus.active h = refl
active_live SubStatus.grace h = cc
active_live SubStatus.expired h = cc
active_live SubStatus.cancelled h = cc
active_live SubStatus.suspended h = cc

due-live :
    (later a : ℕ) (p : String) (s : Subscription) → due_of later a p s ≡ true → live_of a p s ≡ true
unfolding due_for_renewal
due-live later a p s h = ground (arith, active_live s.status)

module _ (later a : ℕ) (p : String) (s : Subscription) (t : Tables) (unique : AreUnique t)
    (own : live_of a p s ≡ true) (manual : s.auto_renew ≡ false) (next : s.id ≡ t.next_id) where
  none_before : conflict s t.subscriptions ≡ none → NoneDue later a p t
  none_before e = omega (
    arith,
    count_le (due_of later a p) (live_of a p) t.subscriptions (λ x. due-live later a p x),
    count_cover (live_of a p) (has_id s.id) (rival s) t.subscriptions
        (λ x. own_or_rival s x a p own),
    no_rivals s a p t.subscriptions own e,
    unique.fresh s.id (omega (arith, next)),
  )

  inserted :
      (o : Option Subscription) (faults : List Bool)
      → conflict s t.subscriptions ≡ o
      → Outcome
          (λ (r : Subscription). NoneDue later a p)
          Any
          ((insert_sub s o t).0, record { tables = (insert_sub s o t).1; faults = faults })
  unfolding insert_sub due_for_renewal
  inserted none faults e =
      let before = none_before e in
      let more = count-insert (due_of later a p) s t.subscriptions in
      ground (arith, before, more, manual)
  inserted (some x) faults e = tt

created :
    (later a : ℕ) (p : String) (s : Subscription)
    → live_of a p s ≡ true
    → s.auto_renew ≡ false
    → Leads AreUnique (create s) (λ r. NoneDue later a p) Any
unfolding create
created later a p s own manual =
    Leads-sql _
      (λ t faults h. inserted later a p (numbered t.next_id s) t h own manual refl _ faults refl)
      (λ t h. tt)

kept : {A : Type 0} (m : _) → Keeps {A = A} AreUnique m → Leads AreUnique m (λ _. AreUnique) Any
kept m k = Leads-Keeps m k (λ t h. tt)

-- Where no account has two live subscriptions of a product, after an activation, a renewal's included, the
-- query of the renewal job lists at no later time a subscription of that account and product.
pub list_due_for_renewal-activate :
    (c : Settings) (now a : ℕ) (p : String) (plan_id : ℕ) (method external : String) (later : ℕ)
    → Leads AreUnique (activate c now a p plan_id method external) (λ s. IsNotDue later a p) Any
unfolding activate get_plan_by_id get_active
list_due_for_renewal-activate c now a p plan_id method external later =
    Leads-bind _ _ (kept _ (search keeps_rules)) λ plan.
      Leads-bind _ _ (kept _ (search keeps_rules)) λ existing.
        Leads-bind _ _ (kept _ (expire_existing-AreUnique existing)) λ _.
          Leads-bind _ _ (created later a p _ (ground (arith, eq_iff p p)) refl) λ sub.
            Leads-bind _ _
              (Leads-Keeps _
                (search
                  (keeps_rules, sync-Keeps {P = NoneDue later a p} (λ t es h. h) (λ t cs h. h)))
                (λ t h. tt))
              λ _. Leads-pure sub (λ t h. answered later a p t h)
