-- ===== src/Organization/Service.antt =====
-- internal/app/organization_service.go.
use lurus_identity.Base.{
  ℕ, String, Bool, true, false, ◌||◌, not, Option, none, some, str_eq, leb, if◌then◌else◌,
}
use lurus_identity.Table.{count}
use lurus_identity.Entity.Organization.{Organization, OrgMember, OrgApiKey, OrgWallet}
use lurus_identity.Store.{Error, M, ⊤, pure, ◌>>=◌, ◌>>◌, raise_if, require, must, ignore}
use lurus_identity.Organization.Repo

-- What the Go library computes: whether a slug matches, and SHA-256 in hexadecimal.
pub record Library : Type 0 where
  pub is_slug : String → Bool
  pub hash : String → String

abbrev pub new_org : String → String → ℕ → Organization
new_org name slug owner = record {
  id = 0;
  name = name;
  slug = slug;
  owner_account_id = owner;
  status = "active";
  plan = "free";
}

unfoldable pub create : Library → String → String → ℕ → M Organization
create lib name slug owner = do
  raise_if (not (lib.is_slug slug)) Error.invalid_slug
  org ← Repo.create (new_org name slug owner)
  Repo.add_member (record { org_id = org.id; account_id = owner; role = "owner" })
  Repo.get_or_create_wallet org.id
  pure org

unfoldable pub get : ℕ → ℕ → M (Option Organization)
get i caller = do must (Repo.get_member i caller) Error.not_a_member; Repo.get_by_id i

abbrev pub is_owner : OrgMember → Bool
is_owner m = str_eq m.role "owner"

-- `caller == nil || (caller.Role != "owner" && caller.Role != "admin")`
abbrev pub may_manage : Option OrgMember → Bool
may_manage none = false
may_manage (some m) = is_owner m || str_eq m.role "admin"

unfoldable pub add_member : ℕ → ℕ → ℕ → String → M ⊤
add_member org caller target role = do
  c ← Repo.get_member org caller
  raise_if (not (may_manage c)) Error.permission_denied
  Repo.add_member (record { org_id = org; account_id = target; role = role })

-- The count of owners is asked for when the target is one.
unfoldable pub check_last_owner : ℕ → Bool → M ⊤
check_last_owner org false = pure tt
check_last_owner org true = do
  ms ← Repo.list_members org
  raise_if (leb (count is_owner ms) 1) Error.last_owner

unfoldable pub remove_member : ℕ → ℕ → ℕ → M ⊤
unfolding check_last_owner
remove_member org caller target = do
  c ← Repo.get_member org caller
  raise_if (not (may_manage c)) Error.permission_denied
  m ← must (Repo.get_member org target) Error.member_not_found
  check_last_owner org (is_owner m)
  Repo.remove_member org target

unfoldable pub create_api_key : Library → String → ℕ → ℕ → String → M (String × OrgApiKey)
create_api_key lib raw org caller name = do
  must (Repo.get_member org caller) Error.not_a_member
  key ← Repo.create_api_key (record {
    id = 0;
    org_id = org;
    key_hash = lib.hash raw;
    name = name;
    created_by = caller;
    status = "active";
  })
  pure (raw, key)

unfoldable pub revoke_api_key : ℕ → ℕ → ℕ → M ⊤
revoke_api_key org caller key = do
  c ← Repo.get_member org caller
  raise_if (not (may_manage c)) Error.permission_denied
  Repo.revoke_api_key key

-- `k == nil || k.Status != "active"`
abbrev pub usable : Option OrgApiKey → Option OrgApiKey
usable none = none
usable (some k) = if str_eq k.status "active" then some k else none

unfoldable pub resolve_api_key : Library → String → M (Option Organization)
resolve_api_key lib raw = do
  found ← Repo.get_api_key_by_hash (lib.hash raw)
  k ← require (usable found) Error.invalid_api_key
  ignore (Repo.touch_api_key k.id)
  Repo.get_by_id k.org_id

unfoldable pub get_wallet : ℕ → M OrgWallet
get_wallet org = Repo.get_or_create_wallet org

unfoldable pub update_status : ℕ → String → M ⊤
update_status i status = Repo.update_status i status
