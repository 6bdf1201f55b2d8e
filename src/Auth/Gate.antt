-- ===== src/Auth/Gate.antt =====
-- Who passes the two middlewares.
use lurus_identity.Base.{
  ℕ, ◌≡◌, ◌≢◌, refl, ap, ◌⊎◌, inl, inr, String, true, Option, none, some, List, [], ◌∷◌, str_eq,
  eq_iff, Bool-cases,
}
use lurus_identity.Text.{Text}
use lurus_identity.Store.{Db, Result, ok, err, M, pure, ◌>>=◌, follow, try}
use lurus_identity.Session as Sessions
use lurus_identity.Session.Sound.{IsSession, validate-IsSession}
use lurus_identity.Auth.Keys.{Fetch, JwksCache}
use lurus_identity.Auth.{
  Claims, ValidatorConfig, Verdict, valid, invalid, validate, contains_string, has_admin_role,
}
use lurus_identity.Auth.Genuine.{IsGenuine, validate-IsGenuine}
use lurus_identity.Auth.Middleware.{
  Gate, passed, aborted, Bearer, token, unauthorized, extract_bearer_token, JwtMiddleware,
  looked_up, resolve, after_jwt, after_session, with_secret, auth_bearer, auth, after_admin_jwt,
  admin_bearer, admin_auth,
}

-- A text is one of the list.
pub data Member (r : String) : List String → Type 0 where
  here : {s : String} {ss : List String} → s ≡ r → Member r (s ∷ ss)
  there : {s : String} {ss : List String} → Member r ss → Member r (s ∷ ss)

contains_string-Member : (ss : List String) (r : String) → contains_string ss r ≡ true → Member r ss
unfolding contains_string
contains_string-Member [] r h = absurd (cc)
contains_string-Member (s ∷ ss) r h = elim (Bool-cases (str_eq s r)) [
  | inl same ↦ Member.here ((eq_iff s r).0 same)
  | inr other ↦ Member.there (contains_string-Member ss r (rw other at h))
]

-- A role of the token that the configuration lists.
pub record HasAdminRole (cfg : ValidatorConfig) (roles : List String) : Type 0 where
  pub role : String
  pub held : Member role roles
  pub listed : Member role cfg.admin_roles

has_admin_role-HasAdminRole :
    (cfg : ValidatorConfig) (roles : List String)
    → has_admin_role cfg roles ≡ true
    → HasAdminRole cfg roles
unfolding has_admin_role
has_admin_role-HasAdminRole cfg [] h = absurd (cc)
has_admin_role-HasAdminRole cfg (r ∷ rs) h = elim (Bool-cases (contains_string cfg.admin_roles r)) [
  | inl one ↦ record {
    role = r;
    held = Member.here refl;
    listed = contains_string-Member cfg.admin_roles r one;
  }
  | inr other ↦
      let rest = has_admin_role-HasAdminRole cfg rs (rw other at h) in
      record { role = rest.role; held = Member.there rest.held; listed = rest.listed }
]

-- A request with the claims of a token of Zitadel, whose user has the account `i`.
pub record ByJwt (m : JwtMiddleware) (now : ℕ) (f : Fetch) (c c' : JwksCache) (s : Db) (i : ℕ)
    (seen : Option Claims) (t : Text) (claims : Claims) : Type 0 where
  pub genuine : IsGenuine m.lib m.cfg now f c c' t claims
  pub resolved : (m.lookup claims s).0 ≡ ok i
  pub kept : seen ≡ some claims

-- A request with a session token for `i`.
pub record BySession (m : JwtMiddleware) (now : ℕ) (i : ℕ) (seen : Option Claims) (t : Text)
    : Type 0 where
  pub has_secret : m.session_secret ≢ []
  pub session : IsSession m.codec now m.session_secret t i
  pub bare : seen ≡ none

module _ (m : JwtMiddleware) (now : ℕ) (f : Fetch) (c : JwksCache) (s : Db) (i : ℕ)
    (seen : Option Claims) where
  abbrev pub Passes : M Gate × JwksCache → Type 0
  Passes out = (out.0 s).0 ≡ ok (passed i seen)

  aborts : (status : ℕ) (msg : String) → (pure (aborted status msg) s).0 ≢ ok (passed i seen)
  unfolding pure
  aborts status msg h = cc

  found :
      (claims : Claims) (out : Result ℕ) (s' : Db)
      → (follow (looked_up claims) (ok out, s')).0 ≡ ok (passed i seen)
      → (out ≡ ok i) × (seen ≡ some claims)
  unfolding follow pure
  found claims (err e) s' h = absurd (cc)
  found claims (ok n) s' h = (cc, cc)

  resolves :
      (claims : Claims)
      → (resolve m now f claims s).0 ≡ ok (passed i seen)
      → ((m.lookup claims s).0 ≡ ok i) × (seen ≡ some claims)
  unfolding ◌>>=◌ try
  resolves claims h = found claims (m.lookup claims s).0 (m.lookup claims s).1 h

  accepted :
      (t : Text) (claims : Claims) (c' : JwksCache)
      → validate m.lib m.cfg now f t c ≡ (valid claims, c')
      → (resolve m now f claims s).0 ≡ ok (passed i seen)
      → ByJwt m now f c c' s i seen t claims
  accepted t claims c' v h =
      let r = resolves claims h in
      let g =
        validate-IsGenuine m.lib m.cfg now f t c {claims = claims}
          (ap (λ (out : Verdict Claims × JwksCache). out.0) v) in
      record {
        genuine = rw (ap (λ (out : Verdict Claims × JwksCache). out.1) v) at g;
        resolved = r.0;
        kept = r.1;
      }

  by_claims :
      (t : Text) (out : Verdict Claims × JwksCache)
      → validate m.lib m.cfg now f t c ≡ out
      → Passes (after_jwt m now f out)
      → (claims : Claims) × ByJwt m now f c (after_jwt m now f out).1 s i seen t claims
  by_claims t (invalid e, c') v h = absurd (aborts 401 "invalid token" h)
  by_claims t (valid claims, c') v h = (claims, accepted t claims c' v h)

  -- What a request that passes has shown.
  abbrev pub Shown : JwksCache → Text → Type 0
  Shown c' t = BySession m now i seen t ⊎ ((claims : Claims) × ByJwt m now f c c' s i seen t claims)

  by_answer :
      (t : Text) (answer : Sessions.Answer ℕ)
      → m.session_secret ≢ []
      → Sessions.validate_session_token m.codec now t m.session_secret ≡ answer
      → Passes (after_session m now f t c answer)
      → Shown (after_session m now f t c answer).1 t
  unfolding pure
  by_answer t (Sessions.Answer.refused e) k v h = inr (by_claims t _ refl h)
  by_answer t (Sessions.Answer.granted n) k v h =
      let same : n ≡ i = cc in
      inl (record {
        has_secret = k;
        session = rw same at ((validate-IsSession m.codec now t m.session_secret v).1);
        bare = cc;
      })

  by_secret :
      (t secret : Text)
      → m.session_secret ≡ secret
      → Passes (with_secret m now f secret t c)
      → Shown (with_secret m now f secret t c).1 t
  by_secret t [] e h = inr (by_claims t _ refl h)
  by_secret t (x ∷ xs) e h =
      by_answer t _ (λ n. absurd (cc)) (ap (λ k. Sessions.validate_session_token m.codec now t k) e)
        h

  by_bearer :
      (b : Bearer)
      → Passes (auth_bearer m now f b c)
      → (t : Text) × (b ≡ token t) × Shown (auth_bearer m now f b c).1 t
  by_bearer (unauthorized msg) h = absurd (aborts 401 msg h)
  by_bearer (token t) h = (t, refl, by_secret t m.session_secret refl h)

  -- A request passes `Auth` with an account only if it bears a token that is either a session token for
  -- that account, when a secret is configured, and then carries no claims, or a genuine token of Zitadel
  -- whose user the lookup maps to that account, and then carries its claims.
  pub auth-Shown :
      (header : Text)
      → Passes (auth m now f header c)
      → (t : Text) × (extract_bearer_token m.trim_space header ≡ token t)
        × Shown (auth m now f header c).1 t
  unfolding auth
  auth-Shown header h = by_bearer (extract_bearer_token m.trim_space header) h

  pub record IsAdmin (c' : JwksCache) (t : Text) : Type 0 where
    pub claims : Claims
    pub jwt : ByJwt m now f c c' s i seen t claims
    pub role : HasAdminRole m.cfg claims.roles

  admitted :
      (t : Text) (out : Verdict Claims × JwksCache)
      → validate m.lib m.cfg now f t c ≡ out
      → Passes (after_admin_jwt m now f out)
      → IsAdmin (after_admin_jwt m now f out).1 t
  admitted t (invalid e, c') v h = absurd (aborts 401 "invalid token" h)
  admitted t (valid claims, c') v h = elim (Bool-cases (has_admin_role m.cfg claims.roles)) [
    | inr missing ↦ absurd (aborts 403 "admin role required" (rw missing at h))
    | inl present ↦ record {
      claims = claims;
      jwt = accepted t claims c' v (rw present at h);
      role = has_admin_role-HasAdminRole m.cfg claims.roles present;
    }
  ]

  by_admin_bearer :
      (b : Bearer)
      → Passes (admin_bearer m now f b c)
      → (t : Text) × (b ≡ token t) × IsAdmin (admin_bearer m now f b c).1 t
  by_admin_bearer (unauthorized msg) h = absurd (aborts 401 msg h)
  by_admin_bearer (token t) h = (t, refl, admitted t _ refl h)

  -- A request passes `AdminAuth` with an account only if it bears a genuine token of Zitadel, one of
  -- whose roles the configuration lists as an admin role and whose user the lookup maps to that account,
  -- and then carries its claims.
  pub admin_auth-IsAdmin :
      (header : Text)
      → Passes (admin_auth m now f header c)
      → (t : Text) × (extract_bearer_token m.trim_space header ≡ token t)
        × IsAdmin (admin_auth m now f header c).1 t
  unfolding admin_auth
  admin_auth-IsAdmin header h = by_admin_bearer (extract_bearer_token m.trim_space header) h
