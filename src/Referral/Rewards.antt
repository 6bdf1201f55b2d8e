-- ===== src/Referral/Rewards.antt =====
-- The calls of the referral service, whichever statements fail.
use lurus_identity.Base.{
  ℕ, ◌≡◌, refl, inl, inr, Bool, true, false, Option, none, some, List, [], ◌∷◌, arith, Option-cases,
  ℤ,
}
use lurus_identity.Table.{first}
use lurus_identity.Table.Count.{count-insert}
use lurus_identity.Entity.Billing.{Wallet, RewardEvent}
use lurus_identity.Entity.Identity.{Account}
use lurus_identity.Store.{Tables, Db, Result, ok, err, M, ⊤, pure}
use lurus_identity.Store.Keeps.{Keeps, Keeps-sql, keeps_rules}
use lurus_identity.Store.Leads.{
  Outcome, Leads, Leads-Keeps, Keeps-Leads, Leads-sql, Leads-transaction, Leads-bind,
}
use lurus_identity.Wallet.Repo.{
  first_or_create, get_or_create, of_account, credit, lock_wallet, reread_wallet, create_entry,
}
use lurus_identity.Referral
use lurus_identity.Referral.{
  same_reward, insert_reward, create_reward_event, referral_info, pay_referrer, reward_known,
  reward, get_account,
}
use lurus_identity.Referral.Once.{AreEarned, IsOwed, is_payment, recorded}

-- What inserting a reward establishes: it is owed when it is new.
Recorded : RewardEvent → Bool → Tables → Type 0
Recorded ev created t = AreEarned t × (created ≡ true → IsOwed ev.referrer_id ev.referee_id t)

inserted :
    (ev : RewardEvent) (t : Tables) (faults : List Bool)
    → AreEarned t
    → Outcome (Recorded ev) AreEarned (
      (insert_reward ev (first (same_reward ev) t.reward_events) t).0,
      record {
        tables = (insert_reward ev (first (same_reward ev) t.reward_events) t).1;
        faults = faults;
      },
    )
unfolding insert_reward Recorded
inserted ev t faults h = elim (Option-cases (first (same_reward ev) t.reward_events)) [
  | inl e ↦ rw e (let o = recorded ev t e h in (o.earned, λ _. o))
  | inr (x, e) ↦ rw e (h, λ c. absurd (cc))
]

create_reward_event-leads :
    (ev : RewardEvent) → Leads AreEarned (create_reward_event ev) (Recorded ev) AreEarned
unfolding create_reward_event
create_reward_event-leads ev = Leads-sql _ (inserted ev) (λ t h. h)

payment-leads :
    (r e : ℕ) (amount : ℤ) (w : Wallet)
    → Leads (IsOwed r e) (create_entry r amount (referral_info e) w) (λ _. AreEarned) AreEarned
unfolding create_entry
payment-leads r e amount w =
    Leads-sql _
      (λ t faults h. record {
        paid = λ r' e'.
            rw (count-insert (is_payment r' e') _ t.transactions)
              (ground (arith, h.earned.paid r' e', h.owed));
        unique = h.earned.unique;
      })
      (λ t h. h.earned)

lock_wallet-IsOwed : (r e a : ℕ) → Keeps (IsOwed r e) (lock_wallet a)
unfolding lock_wallet
lock_wallet-IsOwed r e a = search keeps_rules

reread_wallet-IsOwed : (r e i : ℕ) → Keeps (IsOwed r e) (reread_wallet i)
unfolding reread_wallet
reread_wallet-IsOwed r e i = search keeps_rules

IsOwed-same :
    {r e : ℕ} {t u : Tables}
    → u.transactions ≡ t.transactions
    → u.reward_events ≡ t.reward_events
    → IsOwed r e t
    → IsOwed r e u
IsOwed-same p q h = record {
  earned = record {
    paid = λ r e. rw (p, q) (h.earned.paid r e);
    unique = λ ev. rw q (h.earned.unique ev);
  };
  owed = rw (p, q) h.owed;
}

credit-leads :
    (r e : ℕ) (amount : ℤ)
    → Leads (IsOwed r e) (credit r amount (referral_info e)) (λ _. AreEarned) AreEarned
unfolding credit
credit-leads r e amount =
    Leads-transaction _
      (Leads-bind _ _ (Leads-Keeps _ (lock_wallet-IsOwed r e r) (λ t h. h.earned)) λ w.
        Leads-bind _ _
          (Leads-Keeps _ (Keeps-sql _ (λ t h. IsOwed-same refl refl h)) (λ t h. h.earned))
          λ _.
            Leads-bind _ _ (Leads-Keeps _ (reread_wallet-IsOwed r e w.id) (λ t h. h.earned))
              λ w'. payment-leads r e amount w')
      (λ t h. h.earned)

first_or_create-IsOwed :
    (r e a : ℕ) (o : Option Wallet) (t : Tables)
    → IsOwed r e t
    → IsOwed r e (first_or_create a o t).1
unfolding first_or_create
first_or_create-IsOwed r e a none t h = IsOwed-same refl refl h
first_or_create-IsOwed r e a (some w) t h = h

get_or_create-IsOwed : (r e a : ℕ) → Keeps (IsOwed r e) (get_or_create a)
unfolding get_or_create
get_or_create-IsOwed r e a =
    Keeps-sql _ (λ t h. first_or_create-IsOwed r e a (first (of_account a) t.wallets) t h)

pay_referrer-leads :
    (ev : RewardEvent) (created : Bool)
    → Leads (Recorded ev created) (pay_referrer ev created) (λ _. AreEarned) AreEarned
unfolding pay_referrer Recorded pure
pay_referrer-leads ev false = record { at = λ s h. h.0 }
pay_referrer-leads ev true = record { at = λ s h. paid.at s (h.1 refl) }
  where
    paid :
        Leads
          (IsOwed ev.referrer_id ev.referee_id)
          (pay_referrer ev true)
          (λ _. AreEarned)
          AreEarned
    paid =
        Leads-bind _ _
          (Leads-Keeps _ (get_or_create-IsOwed ev.referrer_id ev.referee_id ev.referrer_id)
            (λ t h. h.earned))
          λ _.
            Leads-bind _ _ (credit-leads ev.referrer_id ev.referee_id ev.reward_credits)
              λ _. record { at = λ s h. h }

reward_known-AreEarned :
    (ev : RewardEvent) (r : Result (Option Account)) → Keeps AreEarned (reward_known ev r)
unfolding reward_known
reward_known-AreEarned ev (ok (some x)) =
    Keeps-Leads _ (Leads-bind _ _ (create_reward_event-leads ev) (pay_referrer-leads ev))
reward_known-AreEarned ev (ok none) = search keeps_rules
reward_known-AreEarned ev (err e) = search keeps_rules

reward-AreEarned : (r e : ℕ) (kind : _) (amount : ℤ) → Keeps AreEarned (reward r e kind amount)
unfolding reward get_account
reward-AreEarned r e kind amount = search (keeps_rules, reward_known-AreEarned)

-- The calls of the service, with the referee first.
pub data Call : Type 0 where
  on_signup on_first_topup on_first_subscription : ℕ → ℕ → Call
  on_renewal : ℕ → ℕ → ℤ → ℕ → Call

unfoldable pub perform : Call → M ⊤
perform (Call.on_signup e r) = Referral.on_signup e r
perform (Call.on_first_topup e r) = Referral.on_first_topup e r
perform (Call.on_first_subscription e r) = Referral.on_first_subscription e r
perform (Call.on_renewal e r amount n) = Referral.on_renewal e r amount n

-- The state after the calls, in turn; a call that fails is followed by the next one.
unfoldable pub after : List Call → Db → Db
after [] s = s
after (c ∷ cs) s = after cs (perform c s).1

perform-AreEarned : (c : Call) → Keeps AreEarned (perform c)
unfolding perform Referral.on_signup Referral.on_first_topup Referral.on_first_subscription
    Referral.on_renewal
perform-AreEarned (Call.on_signup e r) = reward-AreEarned r e _ _
perform-AreEarned (Call.on_first_topup e r) = reward-AreEarned r e _ _
perform-AreEarned (Call.on_first_subscription e r) = reward-AreEarned r e _ _
perform-AreEarned (Call.on_renewal e r amount n) = search (keeps_rules, reward-AreEarned)

-- Whatever signups, topups, subscriptions and renewals are reported, in any order and repeatedly, and
-- whichever statements fail: no reward of a kind is recorded twice for a referrer and a referee, and a
-- referrer has no more payments for a referee than recorded rewards.
pub after-AreEarned : (cs : List Call) (s : Db) → AreEarned s.tables → AreEarned (after cs s).tables
unfolding after
after-AreEarned [] s h = h
after-AreEarned (c ∷ cs) s h = after-AreEarned cs (perform c s).1 ((perform-AreEarned c).at s h)
