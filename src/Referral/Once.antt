-- ===== src/Referral/Once.antt =====
-- Each referral reward is recorded once and paid at most once.
use lurus_identity.Base.{
  ℕ, ◌+◌, ◌≤◌, ◌≡◌, refl, inl, inr, Bool, true, false, ◌&&◌, none, List, [], ◌∷◌, arith, Bool-cases,
  ◌==◌, str_eq,
}
use lurus_identity.Table.{first, count, insert}
use lurus_identity.Table.Count.{count-insert, count_cover, count-none}
use lurus_identity.Entity.Billing.{WalletTransaction, Reference, ReferralEvent, RewardEvent}
use lurus_identity.Store.{Tables}
use lurus_identity.Referral.{same_event, same_reward}

abbrev pub names_referee : ℕ → Reference → Bool
names_referee e (Reference.referee i) = i == e
names_referee e _ = false

-- The ledger entries that pay a referrer for a referee.
abbrev pub is_payment : ℕ → ℕ → WalletTransaction → Bool
is_payment r e x =
    x.account_id == r && str_eq x.reference_type "referral_event" && names_referee e x.reference_id

abbrev pub is_reward : ℕ → ℕ → RewardEvent → Bool
is_reward r e ev = ev.referrer_id == r && ev.referee_id == e

-- There are no more payments than rewards, and no reward of a kind is recorded twice.
pub record AreEarned (t : Tables) : Type 0 where
  pub paid :
      (r e : ℕ) → count (is_payment r e) t.transactions ≤ count (is_reward r e) t.reward_events
  pub unique : (ev : RewardEvent) → count (same_reward ev) t.reward_events ≤ 1

-- Moreover one reward of the pair is not paid yet.
pub record IsOwed (r e : ℕ) (t : Tables) : Type 0 where
  pub earned : AreEarned t
  pub owed : count (is_payment r e) t.transactions + 1 ≤ count (is_reward r e) t.reward_events

same_kind :
    (x y z : ReferralEvent) → same_event x y ≡ true → same_event x z ≡ true → same_event y z ≡ true
same_kind ReferralEvent.signup ReferralEvent.signup z e f = f
same_kind ReferralEvent.first_topup ReferralEvent.first_topup z e f = f
same_kind ReferralEvent.first_subscription ReferralEvent.first_subscription z e f = f
same_kind (ReferralEvent.renewal_royalty m) (ReferralEvent.renewal_royalty n)
      (ReferralEvent.renewal_royalty k) e f =
    ground arith
same_kind (ReferralEvent.renewal_royalty m) (ReferralEvent.renewal_royalty n) ReferralEvent.signup e
      f =
    cc
same_kind (ReferralEvent.renewal_royalty m) (ReferralEvent.renewal_royalty n)
      ReferralEvent.first_topup e f =
    cc
same_kind (ReferralEvent.renewal_royalty m) (ReferralEvent.renewal_royalty n)
      ReferralEvent.first_subscription e f =
    cc
same_kind ReferralEvent.signup ReferralEvent.first_topup z e f = cc
same_kind ReferralEvent.signup ReferralEvent.first_subscription z e f = cc
same_kind ReferralEvent.signup (ReferralEvent.renewal_royalty n) z e f = cc
same_kind ReferralEvent.first_topup ReferralEvent.signup z e f = cc
same_kind ReferralEvent.first_topup ReferralEvent.first_subscription z e f = cc
same_kind ReferralEvent.first_topup (ReferralEvent.renewal_royalty n) z e f = cc
same_kind ReferralEvent.first_subscription ReferralEvent.signup z e f = cc
same_kind ReferralEvent.first_subscription ReferralEvent.first_topup z e f = cc
same_kind ReferralEvent.first_subscription (ReferralEvent.renewal_royalty n) z e f = cc
same_kind (ReferralEvent.renewal_royalty n) ReferralEvent.signup z e f = cc
same_kind (ReferralEvent.renewal_royalty n) ReferralEvent.first_topup z e f = cc
same_kind (ReferralEvent.renewal_royalty n) ReferralEvent.first_subscription z e f = cc

same_as_new :
    (x y z : RewardEvent) → same_reward x y ≡ true → same_reward x z ≡ true → same_reward y z ≡ true
same_as_new x y z e f = ground (arith, same_kind x.event_type y.event_type z.event_type)

count-false : (xs : List RewardEvent) → count (λ _. false) xs ≡ 0
unfolding count
count-false [] = refl
count-false (x ∷ xs) = count-false xs

-- A new reward that no recorded one equals.
pub recorded :
    (ev : RewardEvent) (t : Tables)
    → first (same_reward ev) t.reward_events ≡ none
    → AreEarned t
    → IsOwed ev.referrer_id ev.referee_id (record t { reward_events = insert ev t.reward_events })
recorded ev t none_same h = record {
  earned = record {
    paid = λ r e. ground (arith, count-insert (is_reward r e) ev t.reward_events, h.paid r e);
    unique = λ x. elim (Bool-cases (same_reward x ev)) [
      | inl s ↦ omega (
        arith,
        rw s at (count-insert (same_reward x) ev t.reward_events),
        count_cover (same_reward x) (same_reward ev) (λ _. false) t.reward_events
            (λ z p q. absurd (cc (same_as_new x ev z s p, q))),
        count-none (same_reward ev) t.reward_events none_same,
        count-false t.reward_events,
      )
      | inr d ↦ omega (arith, rw d at (count-insert (same_reward x) ev t.reward_events), h.unique x)
    ];
  };
  owed = ground (
    arith,
    count-insert (is_reward ev.referrer_id ev.referee_id) ev t.reward_events,
    h.paid ev.referrer_id ev.referee_id,
  );
}
