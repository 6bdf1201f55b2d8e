-- ===== src/Overview/Discount.antt =====
-- The discount of a balance.
use lurus_identity.Base.{◌≤◌, arith, ◌≤ℤ◌, ℤ}
use lurus_identity.Overview.{compute_discount}

-- A larger balance never pays a higher rate, and a rate lies between 85 and 100 percent.
pub compute_discount_mono :
    (b c : ℤ)
    → b ≤ℤ c
    → ((compute_discount c).0 ≤ (compute_discount b).0)
      × (85 ≤ (compute_discount c).0)
      × ((compute_discount b).0 ≤ 100)
unfolding compute_discount
compute_discount_mono b c h = ground arith
