-- ===== src/Auth/Middleware.antt =====
-- internal/pkg/auth/middleware.go, and the account lookup of cmd/server/main.go that it is given. A
-- request that passes carries its account and, after a Zitadel token, the claims.
use lurus_identity.Base.{
  ℕ, ◌+◌, String, Bool, not, ◌&&◌, Option, none, some, [], ◌∷◌, ltb, str_eq, if◌then◌else◌,
}
use lurus_identity.Text.{Text, codes, strip}
use lurus_identity.Table.{first, insert, select}
use lurus_identity.Store.{
  SubEntry, Result, ok, err, M, ⊤, pure, ◌>>=◌, ◌>>◌, query, exec, try, ignore,
}
use lurus_identity.Session as Sessions
use lurus_identity.Account.Service.{upsert_by_zitadel_sub}
use lurus_identity.Auth.Keys.{Fetch, JwksCache}
use lurus_identity.Auth.{
  Claims, ValidatorConfig, JwtLib, Verdict, valid, invalid, validate, has_admin_role,
}

pub data Gate : Type 0 where
  passed : ℕ → Option Claims → Gate
  aborted : ℕ → String → Gate

pub data Bearer : Type 0 where
  token : Text → Bearer
  unauthorized : String → Bearer

-- `strings.TrimSpace` is a parameter.
module _ (trim_space : Text → Text) where
  abbrev pub not_empty : Text → Bearer
  not_empty [] = unauthorized "empty bearer token"
  not_empty (c ∷ t) = token (c ∷ t)

  abbrev pub behind_prefix : Option Text → Bearer
  behind_prefix none = unauthorized "Authorization header must use Bearer scheme"
  behind_prefix (some rest) = not_empty (trim_space rest)

  -- A header that was not sent is empty.
  unfoldable pub extract_bearer_token : Text → Bearer
  unfolding strip
  extract_bearer_token [] = unauthorized "missing Authorization header"
  extract_bearer_token (c ∷ header) = behind_prefix (strip (codes "Bearer ") (c ∷ header))

-- What a middleware is built from.
pub record JwtMiddleware : Type 0 where
  pub lib : JwtLib
  pub codec : Sessions.Codec
  pub trim_space : Text → Text
  pub cfg : ValidatorConfig
  pub session_secret : Text
  pub lookup : Claims → M ℕ

abbrev pub lookup_failed : Gate
lookup_failed = aborted 401 "account lookup failed"

abbrev pub looked_up : Claims → Result ℕ → M Gate
looked_up claims (ok i) = pure (passed i (some claims))
looked_up claims (err _) = pure lookup_failed

module _ (m : JwtMiddleware) (now : ℕ) (f : Fetch) where
  abbrev pub resolve : Claims → M Gate
  resolve claims = try (m.lookup claims) >>= looked_up claims

  abbrev pub after_jwt : Verdict Claims × JwksCache → M Gate × JwksCache
  after_jwt (invalid e, c) = (pure (aborted 401 "invalid token"), c)
  after_jwt (valid claims, c) = (resolve claims, c)

  abbrev pub by_jwt : Text → JwksCache → M Gate × JwksCache
  by_jwt t c = after_jwt (validate m.lib m.cfg now f t c)

  -- Any error of the session token leads to the other path.
  abbrev pub after_session : Text → JwksCache → Sessions.Answer ℕ → M Gate × JwksCache
  after_session t c (Sessions.Answer.granted i) = (pure (passed i none), c)
  after_session t c (Sessions.Answer.refused e) = by_jwt t c

  -- Without a secret no session token is tried.
  abbrev pub with_secret : Text → Text → JwksCache → M Gate × JwksCache
  with_secret [] t c = by_jwt t c
  with_secret (x ∷ xs) t c =
      after_session t c (Sessions.validate_session_token m.codec now t (x ∷ xs))

  abbrev pub auth_bearer : Bearer → JwksCache → M Gate × JwksCache
  auth_bearer (unauthorized msg) c = (pure (aborted 401 msg), c)
  auth_bearer (token t) c = with_secret m.session_secret t c

  unfoldable pub auth : Text → JwksCache → M Gate × JwksCache
  unfolding extract_bearer_token validate Sessions.validate_session_token ◌>>=◌ try
  auth header c = auth_bearer (extract_bearer_token m.trim_space header) c

  abbrev pub after_admin_jwt : Verdict Claims × JwksCache → M Gate × JwksCache
  after_admin_jwt (invalid e, c) = (pure (aborted 401 "invalid token"), c)
  after_admin_jwt (valid claims, c) = (
    if not (has_admin_role m.cfg claims.roles)
        then pure (aborted 403 "admin role required")
        else resolve claims,
    c,
  )

  abbrev pub admin_bearer : Bearer → JwksCache → M Gate × JwksCache
  admin_bearer (unauthorized msg) c = (pure (aborted 401 msg), c)
  admin_bearer (token t) c = after_admin_jwt (validate m.lib m.cfg now f t c)

  unfoldable pub admin_auth : Text → JwksCache → M Gate × JwksCache
  unfolding extract_bearer_token validate has_admin_role ◌>>=◌ try
  admin_auth header c = admin_bearer (extract_bearer_token m.trim_space header) c

-- The account and the claims that the handlers read.
unfoldable pub get_account_id : Gate → ℕ
get_account_id (passed i _) = i
get_account_id (aborted _ _) = 0

unfoldable pub get_claims : Gate → Option Claims
get_claims (passed _ claims) = claims
get_claims (aborted _ _) = none

-- ten minutes, in nanoseconds
abbrev pub sub_cache_ttl : ℕ
sub_cache_ttl = 600000000000

abbrev pub is_cached : ℕ → String → SubEntry → Bool
is_cached now sub e = str_eq e.zitadel_sub sub && ltb now e.expires_at

unfoldable pub get_sub_id : ℕ → String → M (Option SubEntry)
get_sub_id now sub = query (λ t. first (is_cached now sub) t.sub_ids)

unfoldable pub set_sub_id : ℕ → String → ℕ → M ⊤
set_sub_id now sub i = exec λ t. record t {
  sub_ids =
      insert (record { zitadel_sub = sub; account_id = i; expires_at = now + sub_cache_ttl })
        (select (λ (e : SubEntry). not (str_eq e.zitadel_sub sub)) t.sub_ids);
}

abbrev pub by_cache : (String → String) → ℕ → String → Claims → Result (Option SubEntry) → M ℕ
by_cache lower now aff claims (ok (some e)) = pure e.account_id
by_cache lower now aff claims _ = do
  a ← upsert_by_zitadel_sub lower claims.sub claims.email aff
  ignore (set_sub_id now claims.sub a.id)
  pure a.id

-- `aff` is the affiliate code of a new account.
unfoldable pub build_account_lookup : (String → String) → ℕ → String → Claims → M ℕ
unfolding get_sub_id set_sub_id
build_account_lookup lower now aff claims = do
  cached ← try (get_sub_id now claims.sub)
  by_cache lower now aff claims cached
