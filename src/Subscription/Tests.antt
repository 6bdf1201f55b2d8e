-- ===== src/Subscription/Tests.antt =====
-- An activation of a monthly plan.
use lurus_identity.Base.{refl, arith, pos, false, some, [], ◌∷◌}
use lurus_identity.Entity.Identity.{ProductPlan, BillingCycle}
use lurus_identity.Store.{Tables, empty}
use lurus_identity.Store.Run.{calm}
use lurus_identity.Store.Leads.{Outcome}
use lurus_identity.Table.{count}
use lurus_identity.Subscription.Unique.{AreUnique}
use lurus_identity.Subscription.Service.{Settings, activate}
use lurus_identity.Subscription.Renewable.{Any, IsNotDue, list_due_for_renewal-activate}

-- Every instant is the same date: enough for a plan that does not look at the date.
abbrev pub settings : Settings
settings = record {
  zone = record {
    date_of = λ t. record { year = 2026; month = 1; day = 1; clock = t };
    instant_of = λ d. d.clock;
  };
  numerals = record { is_integer = λ s. false; is_decimal = λ s. false };
  grace_period_days = 3;
}

abbrev weekly : ProductPlan
weekly = record {
  id = 4;
  product_id = "vpn";
  code = "basic";
  billing_cycle = BillingCycle.weekly;
  price_cny = pos 100000;
  status = 1;
  sort_order = 0;
  features = some [];
}

abbrev pub catalogue : Tables
catalogue = record empty { next_id = 5; plans = weekly ∷ [] }

catalogue-AreUnique : AreUnique catalogue
unfolding count
catalogue-AreUnique = record {
  ids = λ i. omega arith;
  fresh = λ i k. refl;
  live = λ a p. omega arith;
}

list_due_for_renewal-activate_example :
    Outcome
      (λ s. IsNotDue 900 7 "vpn")
      Any
      (activate settings 20 7 "vpn" 4 "wallet" "" (calm catalogue))
list_due_for_renewal-activate_example =
    (list_due_for_renewal-activate settings 20 7 "vpn" 4 "wallet" "" 900).at (calm catalogue)
      catalogue-AreUnique
