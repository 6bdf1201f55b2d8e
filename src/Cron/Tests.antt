-- ===== src/Cron/Tests.antt =====
-- A day of subscriptions: an activation, the jobs, a second activation and a cancellation.
use lurus_identity.Base.{true, false, some, none, List, [], ◌∷◌, arith}
use lurus_identity.Table.{count}
use lurus_identity.Entity.Identity.{Subscription, SubStatus}
use lurus_identity.Store.{Tables}
use lurus_identity.Subscription.Tests.{settings, catalogue}
use lurus_identity.Subscription.Unique.{AreUnique}
use lurus_identity.Cron.History.{Call, after, after-AreUnique}

abbrev renewed : Subscription
renewed = record {
  id = 3;
  account_id = 7;
  product_id = "vpn";
  plan_id = 4;
  status = SubStatus.active;
  started_at = some 0;
  expires_at = some 100;
  grace_until = none;
  auto_renew = true;
  payment_method = "wallet";
  external_sub_id = "";
  renewal_attempts = 0;
  next_renewal_at = none;
}

abbrev subscribed : Tables
subscribed = record catalogue { subscriptions = renewed ∷ [] }

subscribed-AreUnique : AreUnique subscribed
unfolding count
subscribed-AreUnique = record {
  ids = λ i. ground arith;
  fresh = λ i h. ground arith;
  live = λ a p. ground arith;
}

abbrev calls : List Call
calls =
    Call.renewal_job 90 (λ s. 91)
    ∷ Call.activate 95 7 "vpn" 4 "stripe" "sub_1"
    ∷ Call.expiry_job 200 (λ s. 201)
    ∷ Call.cancel 7 "vpn"
    ∷ Call.activate 300 7 "vpn" 4 "stripe" "sub_2"
    ∷ []

after-AreUnique_example :
    AreUnique
      (after settings calls (record { tables = subscribed; faults = false ∷ true ∷ [] })).tables
after-AreUnique_example =
    after-AreUnique settings calls (record { tables = subscribed; faults = false ∷ true ∷ [] })
      subscribed-AreUnique
