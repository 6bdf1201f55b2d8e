-- ===== src/Referral/Tests.antt =====
-- A referee's signup that is reported twice, with a failure, and seven renewals' royalties.
use lurus_identity.Base.{pos, true, false, none, [], ◌∷◌, List, arith}
use lurus_identity.Text.{codes}
use lurus_identity.Table.{count}
use lurus_identity.Entity.Identity.{Account}
use lurus_identity.Store.{Db, empty}
use lurus_identity.Referral.Once.{AreEarned}
use lurus_identity.Referral.Rewards.{Call, after, after-AreEarned}

abbrev referrer : Account
referrer = record {
  id = 7;
  lurus_id = codes "LU0000007";
  zitadel_sub = "z7";
  phone_verified = false;
  status = 1;
  email = "";
  phone = "";
  username = "";
  referrer_id = none;
  aff_code = "";
}

abbrev members : Db
members = record { tables = record empty { accounts = referrer ∷ [] }; faults = false ∷ true ∷ [] }

members-AreEarned : AreEarned members.tables
unfolding count
members-AreEarned = record { paid = λ r e. omega arith; unique = λ ev. omega arith }

abbrev calls : List Call
calls =
    Call.on_signup 8 7
    ∷ Call.on_signup 8 7
    ∷ Call.on_signup 8 7
    ∷ Call.on_renewal 8 7 (pos 1990000) 1
    ∷ Call.on_renewal 8 7 (pos 1990000) 7
    ∷ []

after-AreEarned_example : AreEarned (after calls members).tables
after-AreEarned_example = after-AreEarned calls members members-AreEarned
