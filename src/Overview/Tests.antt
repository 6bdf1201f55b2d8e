-- ===== src/Overview/Tests.antt =====
-- The overview of an account with a wallet, without a product.
use lurus_identity.Base.{◌≡◌, ◌≤◌, refl, false, none, [], ◌∷◌, pos, arith}
use lurus_identity.Table.{first}
use lurus_identity.Entity.Identity.{Account}
use lurus_identity.Entity.Billing.{Wallet}
use lurus_identity.Store.{empty, Tables, ⊤}
use lurus_identity.Store.Run.{calm}
use lurus_identity.Store.Leads.{Outcome}
use lurus_identity.Overview.{compute_discount, get}
use lurus_identity.Overview.Shown.{IsShown, Missing, get-IsShown}
use lurus_identity.Overview.Discount.{compute_discount_mono}

abbrev pub account : Account
account = record {
  id = 7;
  lurus_id = [];
  zitadel_sub = "z";
  email = "u@x";
  phone = "";
  phone_verified = false;
  status = 1;
  username = "";
  referrer_id = none;
  aff_code = "";
}

abbrev wallet : Wallet
wallet = record {
  id = 3;
  account_id = 7;
  balance = pos 6000000;
  frozen = pos 0;
  lifetime_topup = pos 6000000;
  lifetime_spend = pos 0;
}

abbrev tables : Tables
tables = record empty { accounts = account ∷ []; wallets = wallet ∷ [] }

missing : Missing 5 7 "" tables
unfolding first
missing = refl

get-IsShown_example : Outcome (λ ov t. IsShown 7 "" ov t) (λ _. ⊤) (get 120 5 7 "" (calm tables))
get-IsShown_example = (get-IsShown 120 5 7 "").at (calm tables) missing

compute_discount_mono_example :
    ((compute_discount (pos 6000000)).0 ≤ (compute_discount (pos 900000)).0)
    × (85 ≤ (compute_discount (pos 6000000)).0)
    × ((compute_discount (pos 900000)).0 ≤ 100)
compute_discount_mono_example = compute_discount_mono (pos 900000) (pos 6000000) (omega arith)

gold : compute_discount (pos 6000000) ≡ (90, "gold_holder")
unfolding compute_discount
gold = refl
