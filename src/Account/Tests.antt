-- ===== src/Account/Tests.antt =====
-- A second registration without Zitadel, and a first one.
use lurus_identity.Base.{◌≡◌, refl, true, none, [], ◌∷◌, arith}
use lurus_identity.Text.{codes}
use lurus_identity.Table.{first}
use lurus_identity.Entity.Identity.{Account}
use lurus_identity.Store.{Tables, Error, err, empty}
use lurus_identity.Store.Run.{calm}
use lurus_identity.Store.Leads.{Outcome}
use lurus_identity.Session.Tests.{codec, codec-IsCodec}
use lurus_identity.Account.Service.{new_account}
use lurus_identity.Account.Registration.{Registrar, RegisterRequest, register}
use lurus_identity.Account.Blocked.{HasLocal, register-refused}
use lurus_identity.Account.Login.{Anything, IsFresh, IsRegistered, register-opens}

abbrev registrar : Registrar
registrar = record {
  lower = λ s. s;
  trim = λ s. s;
  is_address = λ s. true;
  create_user = none;
  codec = codec;
  secret = codes "k";
}

abbrev request : RegisterRequest
request = record { username = "bob"; password = "password"; email = ""; phone = ""; aff_code = "" }

abbrev alice : Account
alice = record (new_account "" "" "c0ffee00") {
  id = 1;
  lurus_id = codes "LU0000001";
  username = "alice";
}

abbrev local : Tables
local = record empty { next_id = 2; accounts = alice ∷ [] }

local-HasLocal : HasLocal local
unfolding first
local-HasLocal = record { account = alice; found = refl; fresh = (omega arith, tt) }

register-refused_example :
    (e : Error) × ((register registrar 20 "c0ffee01" request (calm local)).0 ≡ err e)
register-refused_example =
    register-refused registrar 20 "c0ffee01" request (calm local) refl local-HasLocal

empty-IsFresh : IsFresh 1 empty
empty-IsFresh = record {
  ids = tt;
  after = omega arith;
  positive = omega arith;
  small = omega arith;
}

register-opens_example :
    Outcome
      (IsRegistered registrar 20 1 "bob")
      Anything
      (register registrar 20 "c0ffee01" request (calm empty))
register-opens_example =
    (register-opens registrar codec-IsCodec 20 1 "c0ffee01" request).at (calm empty) empty-IsFresh
