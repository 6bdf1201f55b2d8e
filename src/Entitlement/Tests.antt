-- ===== src/Entitlement/Tests.antt =====
-- A reset of a product with a paid row and a stale cache entry.
use lurus_identity.Base.{◌≡◌, some, [], ◌∷◌}
use lurus_identity.Entity.Identity.{Entitlement}
use lurus_identity.Store.{Tables, ok, empty}
use lurus_identity.Store.Run.{run}
use lurus_identity.Entitlement.{get, reset_to_free, free_plan}
use lurus_identity.Entitlement.Downgrade.{get-reset}

abbrev paid_plan : Entitlement
paid_plan = record (free_plan 7 "vpn") {
  value = "pro";
  source = "subscription";
  source_ref = some 3;
}

abbrev paying : Tables
paying = record empty {
  entitlements = paid_plan ∷ [];
  cached = record { account_id = 7; product_id = "vpn"; entries = ("plan_code", "pro") ∷ [] } ∷ [];
}

get-reset_example :
    let (r, u) = run (reset_to_free 7 "vpn") paying in
    (r ≡ ok tt) × ((run (get 50 7 "vpn") u).0 ≡ ok (("plan_code", "free") ∷ []))
get-reset_example = get-reset 50 7 "vpn" paying
