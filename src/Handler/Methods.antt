-- ===== src/Handler/Methods.antt =====
-- Which payment methods a topup can be paid by, and whose plan a purchase activates.
use lurus_identity.Base.{
  ℕ, ◌≡◌, refl, inl, inr, String, Bool, true, false, ◌||◌, not, Option, none, some, List, arith,
  Bool-cases, str_eq, ◌==◌, eq_iff, ℤ, pos, ltb_ℤ, leb_ℤ, if◌then◌else◌,
}
use lurus_identity.Table.{first}
use lurus_identity.Entity.Billing.{PaymentOrder}
use lurus_identity.Entity.Identity.{ProductPlan}
use lurus_identity.Store.{Tables, Db, Result, ok, err, M, pure, ◌>>=◌, follow, sql, try}
use lurus_identity.Store.Run.{run}
use lurus_identity.Store.Leads.{
  Leads, Outcome, Tried, Leads-try, Leads-bind, Leads-raise_if, Leads-sql, Leads-pure,
}
use lurus_identity.Wallet.Repo.{insert_order, create_payment_order}
use lurus_identity.Subscription.Service.{Settings, activate}
use lurus_identity.Entitlement.{get_plan_by_id}
use lurus_identity.Wallet.Service
use lurus_identity.Handler.Checkout.{
  Providers, Resolved, resolve_checkout, is_valid_method, finish_topup, pay_topup, or_default,
  create_topup, charge, activate_charged, conclude, buy_by_wallet, checkout, is_priced, min_topup,
  max_topup,
}

-- Without failures, a purchase by wallet of a plan without a price activates the plan for the product
-- that was asked for, whatever product the plan belongs to, and its answer is the activation's.
pub checkout-free :
    (c : Settings) (ps : Providers) (now a : ℕ) (p : String) (plan_id : ℕ) (url order_no : String)
    {plan : ProductPlan} (t : Tables)
    → str_eq p "" ≡ false
    → (plan_id == 0) ≡ false
    → first (λ (x : ProductPlan). x.id == plan_id) t.plans ≡ some plan
    → is_priced plan ≡ false
    → run (checkout c ps now a p plan_id "wallet" url order_no) t
      ≡ run (try (activate c now a p plan_id "wallet" "") >>= conclude a p plan) t
unfolding run checkout get_plan_by_id buy_by_wallet charge activate_charged conclude sql try pure
    follow ◌>>=◌
checkout-free c ps now a p plan_id url order_no {plan} t np nid found free =
    rw np (rw nid (rw found (rw free refl)))

-- The methods that some provider checks out and that a topup accepts.
abbrev pub is_payable : String → Bool
is_payable m = str_eq m "epay_alipay" || str_eq m "stripe" || str_eq m "creem"

abbrev pub Anything : Tables → Type 0
Anything t = Unit

abbrev pub Answers : String → ℕ → Tables → Type 0
Answers m n t = n ≡ 201 → is_payable m ≡ true

new_order :
    (o : PaymentOrder) (clash : Option PaymentOrder) (t : Tables) (faults : List Bool)
    → Outcome
        (λ (r : PaymentOrder) u. r.payment_method ≡ o.payment_method)
        Anything
        (
          (insert_order o clash t).0,
          record { tables = (insert_order o clash t).1; faults = faults },
        )
unfolding insert_order
new_order o none t faults = refl
new_order o (some x) t faults = tt

made :
    (now a : ℕ) (amount : ℤ) (m order_no : String)
    → Leads Anything
        (Service.create_topup now a amount m order_no)
        (λ o t. o.payment_method ≡ m)
        Anything
unfolding Service.create_topup create_payment_order
made now a amount m order_no =
    Leads-bind _ _ (Leads-raise_if {S = Anything} _ _ (λ t h e. tt) (λ t h e. tt)) λ _.
      Leads-sql _ (λ t faults h. new_order (Service.new_topup now a amount m order_no) _ t faults)
        (λ t h. tt)

refuses :
    (p : Providers) (o : PaymentOrder) (url : String)
    → is_valid_method o.payment_method ≡ true
    → is_payable o.payment_method ≡ false
    → resolve_checkout p o url ≡ Resolved.disabled
unfolding resolve_checkout is_valid_method
refuses p o url v k =
    let by_test : str_eq o.payment_method "epay_wechat" ≡ true = ground (arith, v, k) in
    let named : o.payment_method ≡ "epay_wechat" =
      ground (arith, by_test, eq_iff o.payment_method "epay_wechat") in
    rw named refl

answer_400 :
    (p : Providers) (m url : String) (o : PaymentOrder)
    → is_valid_method m ≡ true
    → o.payment_method ≡ m
    → Leads Anything (finish_topup o (resolve_checkout p o url)) (Answers m) Anything
unfolding finish_topup pure
answer_400 p m url o v e = elim (Bool-cases (is_payable m)) [
  | inl k ↦ record { at = λ s h. sure _ k }
  | inr k ↦
      rw (refuses p o url (rw e v) (rw e k)) (record { at = λ s h. λ x. absurd (omega (arith, x)) })
]
  where
    sure : (out : Result ℕ × Db) → is_payable m ≡ true → Outcome (Answers m) Anything out
    sure (ok n, s) k = λ _. k
    sure (err x, s) k = tt

paid :
    (p : Providers) (m url : String) (r : Result PaymentOrder)
    → is_valid_method m ≡ true
    → Leads
        (Tried (λ (o : PaymentOrder) t. o.payment_method ≡ m) Anything r)
        (pay_topup p url r)
        (Answers m)
        Anything
unfolding pay_topup pure
paid p m url (err x) v = record { at = λ s h. λ e. absurd (omega (arith, e)) }
paid p m url (ok o) v = record { at = λ s h. (answer_400 p m url o v h).at s tt }

-- Whichever statements fail and whatever the providers answer: a topup is answered 201 only when its
-- method is "epay_alipay", "stripe" or "creem". Those of "epay_wxpay", which is offered, and of
-- "epay_wechat", which is accepted, never are.
pub create_topup-is_payable :
    (p : Providers) (now a : ℕ) (amount : ℤ) (m url order_no : String)
    → Leads Anything (create_topup p now a amount m url order_no) (Answers m) Anything
unfolding create_topup
create_topup-is_payable p now a amount m url order_no =
    guarded (leb_ℤ amount (pos 0) || str_eq m "") _ λ _. guarded (ltb_ℤ amount min_topup) _ λ _.
      guarded (ltb_ℤ max_topup amount) _ λ _. guarded (not (is_valid_method m)) _ λ v.
        Leads-bind _ _ (Leads-try _ (made now a amount m order_no))
          (λ r. paid p m (or_default url "/topup/result") r (ground (arith, v)))
  where
    guarded :
        (b : Bool) (k : M ℕ)
        → (b ≡ false → Leads Anything k (Answers m) Anything)
        → Leads Anything (if b then pure 400 else k) (Answers m) Anything
    guarded true k h = Leads-pure 400 (λ t x e. absurd (omega (arith, e)))
    guarded false k h = h refl
