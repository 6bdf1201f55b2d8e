-- ===== src/Organization/Keys.antt =====
-- API keys: what revoking one does.
use mathlib.Core.Option
use lurus_identity.Base.{ℕ, ◌≡◌, refl, ap, ◌∙◌, String, true, some, arith, ◌==◌}
use lurus_identity.Table.{first, update}
use lurus_identity.Table.Laws.{first-update, updated}
use lurus_identity.Entity.Organization.{OrgApiKey, OrgMember}
use lurus_identity.Store.{Tables, Error, ok, err, ◌>>=◌, raise_if, require, follow, sql}
use lurus_identity.Store.Run.{run}
use lurus_identity.Organization.Repo
use lurus_identity.Organization.Repo.{is_member, has_hash, revoked}
use lurus_identity.Organization.Service
use lurus_identity.Organization.Service.{Library, may_manage, usable}

-- The tables after a key was revoked.
abbrev without_key : ℕ → Tables → Tables
without_key i t = record t { api_keys = update (λ (k : OrgApiKey). k.id == i) revoked t.api_keys }

first-revoked :
    (h : String) {k : OrgApiKey} (t : Tables)
    → first (has_hash h) t.api_keys ≡ some k
    → first (has_hash h) (without_key k.id t).api_keys ≡ some (revoked k)
first-revoked h {k} t e =
    first-update (has_hash h) (λ (x : OrgApiKey). x.id == k.id) revoked t.api_keys (λ x. refl)
    ∙ ap (Option.map (updated (λ (x : OrgApiKey). x.id == k.id) revoked)) e
    ∙ ground arith

resolve_revoked :
    (lib : Library) (raw : String) (k : OrgApiKey) (t : Tables)
    → first (has_hash (lib.hash raw)) t.api_keys ≡ some (revoked k)
    → run (Service.resolve_api_key lib raw) t ≡ (err Error.invalid_api_key, t)
unfolding run Service.resolve_api_key Repo.get_api_key_by_hash require follow sql ◌>>=◌
resolve_revoked lib raw k t e = rw e refl

run-revoke :
    (org caller i : ℕ) {c : OrgMember} (t : Tables)
    → first (is_member org caller) t.members ≡ some c
    → may_manage (some c) ≡ true
    → run (Service.revoke_api_key org caller i) t ≡ (ok tt, without_key i t)
unfolding run Service.revoke_api_key Repo.get_member Repo.revoke_api_key raise_if follow sql ◌>>=◌
    first
run-revoke org caller i t is_c manages = rw is_c (rw manages refl)

-- Without failures: an owner or admin of any organization revokes the key of that id, whichever
-- organization the key belongs to, and the key resolves to no organization any more.
pub resolve-revoke :
    (lib : Library) (raw : String) (org caller : ℕ) {c : OrgMember} {k : OrgApiKey} (t : Tables)
    → first (is_member org caller) t.members ≡ some c
    → may_manage (some c) ≡ true
    → first (has_hash (lib.hash raw)) t.api_keys ≡ some k
    → let (r, u) = run (Service.revoke_api_key org caller k.id) t in
      (r ≡ ok tt) × (run (Service.resolve_api_key lib raw) u ≡ (err Error.invalid_api_key, u))
resolve-revoke lib raw org caller {k = k} t is_c manages found =
    rw (run-revoke org caller k.id t is_c manages)
      (refl, resolve_revoked lib raw k (without_key k.id t) (first-revoked (lib.hash raw) t found))
