-- ===== src/Organization/Repo.antt =====
-- internal/adapter/repo/organization.go, with the keys of migrations/007_organizations.sql.
use lurus_identity.Base.{
  ℕ, suc, String, Bool, ◌&&◌, not, Option, none, some, List, ◌==◌, str_eq, pos, if◌then◌else◌,
}
use lurus_identity.Table.{first, update, select, insert}
use lurus_identity.Entity.Organization.{Organization, OrgMember, OrgApiKey, OrgWallet}
use lurus_identity.Store.{Tables, Error, Result, ok, err, M, ⊤, sql, query, exec}

abbrev pub has_slug : String → Organization → Bool
has_slug s o = str_eq o.slug s

abbrev pub has_id : ℕ → Organization → Bool
has_id i o = o.id == i

-- `slug` is unique.
unfoldable pub insert_org :
    Organization → Option Organization → Tables → Result Organization × Tables
insert_org o (some _) t = (err Error.unique_violation, t)
insert_org o none t =
    let o' = record o { id = t.next_id } in
    (ok o', record t { next_id = suc t.next_id; organizations = insert o' t.organizations })

unfoldable pub create : Organization → M Organization
unfolding insert_org
create o = sql (λ t. insert_org o (first (has_slug o.slug) t.organizations) t)

unfoldable pub get_by_id : ℕ → M (Option Organization)
get_by_id i = query (λ t. first (has_id i) t.organizations)

unfoldable pub update_status : ℕ → String → M ⊤
update_status i status = exec λ t. record t {
  organizations =
      update (has_id i) (λ (o : Organization). record o { status = status }) t.organizations;
}

-- The primary key of a member.
abbrev pub is_member : ℕ → ℕ → OrgMember → Bool
is_member org a m = m.org_id == org && m.account_id == a

-- An empty role is a zero field: `Assign` skips it, and the column's default stands in a new row.
abbrev pub set_role : String → OrgMember → OrgMember
set_role role m = record m { role = if str_eq role "" then m.role else role }

abbrev pub defaulted : OrgMember → OrgMember
defaulted m = record m { role = if str_eq m.role "" then "member" else m.role }

unfoldable pub upsert_member : OrgMember → Option OrgMember → List OrgMember → List OrgMember
upsert_member m (some _) ms = update (is_member m.org_id m.account_id) (set_role m.role) ms
upsert_member m none ms = insert (defaulted m) ms

unfoldable pub add_member : OrgMember → M ⊤
unfolding upsert_member
add_member m = exec λ t. record t {
  members = upsert_member m (first (is_member m.org_id m.account_id) t.members) t.members;
}

unfoldable pub remove_member : ℕ → ℕ → M ⊤
remove_member org a =
    exec (λ t. record t { members = select (λ m. not (is_member org a m)) t.members })

unfoldable pub get_member : ℕ → ℕ → M (Option OrgMember)
get_member org a = query (λ t. first (is_member org a) t.members)

unfoldable pub list_members : ℕ → M (List OrgMember)
list_members org = query (λ t. select (λ (m : OrgMember). m.org_id == org) t.members)

abbrev pub has_hash : String → OrgApiKey → Bool
has_hash h k = str_eq k.key_hash h

-- `key_hash` is unique.
unfoldable pub insert_key : OrgApiKey → Option OrgApiKey → Tables → Result OrgApiKey × Tables
insert_key k (some _) t = (err Error.unique_violation, t)
insert_key k none t =
    let k' = record k { id = t.next_id } in
    (ok k', record t { next_id = suc t.next_id; api_keys = insert k' t.api_keys })

unfoldable pub create_api_key : OrgApiKey → M OrgApiKey
unfolding insert_key
create_api_key k = sql (λ t. insert_key k (first (has_hash k.key_hash) t.api_keys) t)

unfoldable pub get_api_key_by_hash : String → M (Option OrgApiKey)
get_api_key_by_hash h = query (λ t. first (has_hash h) t.api_keys)

abbrev pub revoked : OrgApiKey → OrgApiKey
revoked k = record k { status = "revoked" }

unfoldable pub revoke_api_key : ℕ → M ⊤
revoke_api_key i =
    exec (λ t. record t { api_keys = update (λ (k : OrgApiKey). k.id == i) revoked t.api_keys })

-- `last_used_at` is left out, so the statement changes no column of the model.
unfoldable pub touch_api_key : ℕ → M ⊤
touch_api_key i = exec (λ t. t)

abbrev pub new_org_wallet : ℕ → OrgWallet
new_org_wallet org = record {
  org_id = org;
  balance = pos 0;
  frozen = pos 0;
  lifetime_topup = pos 0;
  lifetime_spend = pos 0;
}

unfoldable pub wallet_or_new : ℕ → Option OrgWallet → Tables → Result OrgWallet × Tables
wallet_or_new org (some w) t = (ok w, t)
wallet_or_new org none t =
    (ok (new_org_wallet org), record t { org_wallets = insert (new_org_wallet org) t.org_wallets })

unfoldable pub get_or_create_wallet : ℕ → M OrgWallet
unfolding wallet_or_new
get_or_create_wallet org =
    sql λ t. wallet_or_new org (first (λ (w : OrgWallet). w.org_id == org) t.org_wallets) t
