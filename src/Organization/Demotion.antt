-- ===== src/Organization/Demotion.antt =====
-- `AddMember` writes the role of an account that is a member already.
use lurus_identity.Base.{
  ℕ, ◌+◌, ◌≡◌, refl, String, Bool, true, false, ◌&&◌, some, List, [], ◌∷◌, arith, str_eq,
}
use lurus_identity.Table.{first, count, update}
use lurus_identity.Table.Laws.{first-holds, count-ne-zero}
use lurus_identity.Entity.Organization.{OrgMember}
use lurus_identity.Store.{Tables, ok, ◌>>=◌, raise_if, follow, sql}
use lurus_identity.Store.Run.{run}
use lurus_identity.Organization.Repo
use lurus_identity.Organization.Repo.{is_member, set_role, upsert_member}
use lurus_identity.Organization.Service
use lurus_identity.Organization.Service.{is_owner, may_manage}
use lurus_identity.Organization.Owners.{owners, owner_of}

abbrev owner_row : ℕ → ℕ → OrgMember → Bool
owner_row org a m = owner_of org m && is_member org a m

owners-update :
    (org a : ℕ) (role : String) (ms : List OrgMember)
    → str_eq role "" ≡ false
    → str_eq role "owner" ≡ false
    → owners org (update (is_member org a) (set_role role) ms) + count (owner_row org a) ms
      ≡ owners org ms
unfolding count update
owners-update org a role [] e f = refl
owners-update org a role (m ∷ ms) e f = ground (arith, owners-update org a role ms e f)

demoted :
    (org a : ℕ) (role : String) (ms : List OrgMember) {m : OrgMember}
    → first (is_member org a) ms ≡ some m
    → is_owner m ≡ true
    → owners org ms ≡ 1
    → str_eq role "" ≡ false
    → str_eq role "owner" ≡ false
    → owners org (update (is_member org a) (set_role role) ms) ≡ 0
demoted org a role ms {m} found owner one e f =
    let q : owner_row org a m ≡ true = ground (arith, first-holds (is_member org a) ms found) in
    ground (
      arith,
      count-ne-zero (is_member org a) (owner_row org a) ms found q,
      owners-update org a role ms e f,
    )

-- Without failures: when any owner or admin adds the only owner of an organization again, with another
-- role, the call succeeds and the organization has no owner.
pub add_member_demotes :
    (org caller target : ℕ) (role : String) {c m : OrgMember} (t : Tables)
    → first (is_member org caller) t.members ≡ some c
    → may_manage (some c) ≡ true
    → first (is_member org target) t.members ≡ some m
    → is_owner m ≡ true
    → owners org t.members ≡ 1
    → str_eq role "" ≡ false
    → str_eq role "owner" ≡ false
    → ((run (Service.add_member org caller target role) t).0 ≡ ok tt)
      × (owners org (run (Service.add_member org caller target role) t).1.members ≡ 0)
unfolding run Service.add_member Repo.get_member Repo.add_member upsert_member raise_if follow sql
    ◌>>=◌ count first
add_member_demotes org caller target role t is_c manages is_m owner one e f =
    rw is_c (rw manages (rw is_m (refl, demoted org target role t.members is_m owner one e f)))
