-- ===== src/Organization/Tests.antt =====
-- An organization with an owner and an administrator.
use lurus_identity.Base.{◌≡◌, refl, true, [], ◌∷◌, arith}
use lurus_identity.Table.{first, count}
use lurus_identity.Entity.Organization.{OrgMember, OrgApiKey}
use lurus_identity.Store.{Tables, Error, ok, err, empty}
use lurus_identity.Store.Run.{run, calm}
use lurus_identity.Organization.Service
use lurus_identity.Organization.Service.{Library}
use lurus_identity.Organization.Owners.{IsOwned, remove_member-IsOwned}
use lurus_identity.Organization.Keys.{resolve-revoke}

abbrev founder : OrgMember
founder = record { org_id = 9; account_id = 1; role = "owner" }

abbrev helper : OrgMember
helper = record { org_id = 9; account_id = 2; role = "admin" }

-- A key of another organization.
abbrev foreign_key : OrgApiKey
foreign_key = record {
  id = 5;
  org_id = 8;
  key_hash = "raw";
  name = "ci";
  created_by = 3;
  status = "active";
}

abbrev office : Tables
office = record empty { next_id = 10; members = founder ∷ helper ∷ []; api_keys = foreign_key ∷ [] }

abbrev library : Library
library = record { is_slug = λ s. true; hash = λ s. s }

office-IsOwned : IsOwned 9 office
unfolding count
office-IsOwned = record { owned = omega arith; keyed = λ a. ground arith }

remove_member-IsOwned_example : IsOwned 9 (Service.remove_member 9 2 1 (calm office)).1.tables
remove_member-IsOwned_example = (remove_member-IsOwned 9 2 1).at (calm office) office-IsOwned

resolve-revoke_example :
    let (r, u) = run (Service.revoke_api_key 9 2 5) office in
    (r ≡ ok tt) × (run (Service.resolve_api_key library "raw") u ≡ (err Error.invalid_api_key, u))
unfolding first
resolve-revoke_example = resolve-revoke library "raw" 9 2 office refl refl refl
