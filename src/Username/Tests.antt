-- ===== src/Username/Tests.antt =====
-- A phone number as a user name, and two Lurus ids.
use lurus_identity.Base.{ℕ, ◌≢◌, arith}

seven_or_eight : ◌≢◌ {A = ℕ} 7 8
seven_or_eight e = omega (arith, e)
