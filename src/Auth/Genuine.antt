-- ===== src/Auth/Genuine.antt =====
-- What it takes for a token of Zitadel to be accepted.
use lurus_identity.Base.{
  ℕ, ◌/◌, ◌≡◌, ◌≢◌, refl, ◌⊎◌, inl, inr, String, Bool, true, false, not, Option, none, some, List,
  [], ◌∷◌, ◌++◌, str_eq, eq_iff, ltb_ℤ, pos, ◌≤ℤ◌, if◌then◌else◌, arith,
}
use lurus_identity.Store.{⊤}
use lurus_identity.Text.{Text, split}
use lurus_identity.Auth.Keys.{PublicKey, Fetch, Found, JwksCache, get_key, lookup}
use lurus_identity.Auth.{
  Claims, JwtHeader, RawClaims, ValidatorConfig, JwtLib, AuthError, Verdict, valid, invalid, second,
  check, contains_string, parse_audience, judge_audience, validate_standard_claims, build_claims,
  verify_signature, finish, judge_signature, judge_key, judge_standard, stage, validate,
  validate_parts, is_zero,
}
use lurus_identity.Auth.Current.{Current, get_key-IsCurrent}
use lurus_identity.Auth.Signs.{Signs, verify_signature-Signs}

-- The claims that are checked before the signature.
pub record IsStandard (lib : JwtLib) (cfg : ValidatorConfig) (now : ℕ) (rc : RawClaims)
    : Type 0 where
  pub unexpired : pos (now / second) ≤ℤ rc.exp
  pub has_expiry : rc.exp ≢ pos 0
  pub issuer : rc.iss ≡ cfg.issuer
  pub has_issuer : rc.iss ≢ ""
  pub audience :
      (cfg.audience ≡ "")
      ⊎ ((ss : List String) × (parse_audience lib rc.aud ≡ valid ss)
          × (contains_string ss cfg.audience ≡ true))

-- The header and the claims that the first two parts of a token decode to.
pub record Decoded (lib : JwtLib) (head payload : Text) : Type 0 where
  pub header_json : Text
  pub claims_json : Text
  pub header : JwtHeader
  pub raw : RawClaims
  pub header_decodes : lib.jwk.unb64 head ≡ some header_json
  pub header_reads : lib.read_header header_json ≡ some header
  pub claims_decode : lib.jwk.unb64 payload ≡ some claims_json
  pub claims_read : lib.read_claims claims_json ≡ some raw

-- `claims` are those of `token`, which was checked when the cache was `c` and left it as `c'`.
pub record IsGenuine (lib : JwtLib) (cfg : ValidatorConfig) (now : ℕ) (f : Fetch) (c c' : JwksCache)
    (token : Text) (claims : Claims) : Type 0 where
  pub head : Text
  pub payload : Text
  pub signature : Text
  pub sig : Text
  pub key : PublicKey
  pub parts : split b'.' token ≡ head ∷ payload ∷ signature ∷ []
  pub decoded : Decoded lib head payload
  pub standard : IsStandard lib cfg now decoded.raw
  pub key_listed : lookup decoded.header.kid c'.keys ≡ some key
  pub key_current : Current lib.jwk now f c c'
  pub sig_decodes : lib.jwk.unb64 signature ≡ some sig
  pub signed : Signs lib decoded.header.alg key (head ++ b'.' ∷ payload) sig
  pub built : claims ≡ build_claims lib decoded.raw

staged :
    {A : Type 0} (c : JwksCache) (P : Verdict Claims × JwksCache → Type 0) (o : Option A)
    (e : AuthError) (go : A → Verdict Claims × JwksCache) {claims : Claims}
    → ((a : A) → o ≡ some a → (go a).0 ≡ valid claims → P (go a))
    → (stage o e c go).0 ≡ valid claims
    → P (stage o e c go)
staged c P none e go k h = absurd (cc)
staged c P (some a) e go k h = k a refl h

module _ (lib : JwtLib) (cfg : ValidatorConfig) (now : ℕ) where
  heard :
      (a : Verdict (List String)) {u : ⊤}
      → judge_audience cfg.audience a ≡ valid u
      → (ss : List String) × (a ≡ valid ss) × (contains_string ss cfg.audience ≡ true)
  heard (invalid e) h = cc
  heard (valid ss) h = (ss, refl, passed (contains_string ss cfg.audience) h)
    where
      passed : (b : Bool) → check b AuthError.audience_mismatch ≡ valid tt → b ≡ true
      passed true e = refl
      passed false e = cc

  guarded :
      {A : Type 0} (b : Bool) (e : AuthError) (m : Verdict A) {a : A}
      → (if b then invalid e else m) ≡ valid a
      → (b ≡ false) × (m ≡ valid a)
  guarded true e m h = cc
  guarded false e m h = (refl, h)

  audible :
      (b : Bool) (a : Verdict (List String)) {u : ⊤}
      → str_eq cfg.audience "" ≡ b
      → (if b then valid tt else judge_audience cfg.audience a) ≡ valid u
      → (cfg.audience ≡ "")
        ⊎ ((ss : List String) × (a ≡ valid ss) × (contains_string ss cfg.audience ≡ true))
  audible true a e h = inl ((eq_iff cfg.audience "").0 e)
  audible false a e h = inr (heard a h)

  standard :
      (rc : RawClaims) {u : ⊤}
      → validate_standard_claims lib cfg now rc ≡ valid u
      → IsStandard lib cfg now rc
  unfolding validate_standard_claims
  standard rc h =
      let expiring = guarded (is_zero rc.exp) AuthError.missing_exp _ h in
      let live = guarded (ltb_ℤ rc.exp (pos (now / second))) AuthError.expired _ expiring.1 in
      let named = guarded (str_eq rc.iss "") AuthError.missing_iss _ live.1 in
      let issued = guarded (not (str_eq rc.iss cfg.issuer)) AuthError.unexpected_issuer _ named.1 in
      record {
        unexpired = ground arith;
        has_expiry = λ e. absurd (let z = rw e at (expiring.0) in cc);
        issuer = (eq_iff rc.iss cfg.issuer).0 (ground arith);
        has_issuer = λ e. absurd (let n = (eq_iff rc.iss "").1 e in cc);
        audience = audible (str_eq cfg.audience "") _ refl issued.1;
      }

  module _ (f : Fetch) (c : JwksCache) (token : Text) (head payload signature : Text)
      (parts : split b'.' token ≡ head ∷ payload ∷ signature ∷ []) where
    finished :
        (d : Decoded lib head payload) (st : IsStandard lib cfg now d.raw) (key : PublicKey)
        (c' : JwksCache) (sig : Text) (v : Verdict ⊤) {claims : Claims}
        → lookup d.header.kid c'.keys ≡ some key
        → Current lib.jwk now f c c'
        → lib.jwk.unb64 signature ≡ some sig
        → verify_signature lib d.header.alg key (head ++ b'.' ∷ payload) sig ≡ v
        → finish lib d.raw v ≡ valid claims
        → IsGenuine lib cfg now f c c' token claims
    finished d st key c' sig (invalid e) l k s v h = absurd (cc)
    finished d st key c' sig (valid u) {claims} l k s v h = record {
      head = head;
      payload = payload;
      signature = signature;
      sig = sig;
      key = key;
      parts = parts;
      decoded = d;
      standard = st;
      key_listed = l;
      key_current = k;
      sig_decodes = s;
      signed = verify_signature-Signs lib key (head ++ b'.' ∷ payload) sig d.header.alg v;
      built = let e : claims ≡ build_claims lib d.raw = cc in e;
    }

    sealed :
        (d : Decoded lib head payload) (st : IsStandard lib cfg now d.raw) (key : PublicKey)
        (c' : JwksCache) (sig : Option Text) {claims : Claims}
        → lookup d.header.kid c'.keys ≡ some key
        → Current lib.jwk now f c c'
        → lib.jwk.unb64 signature ≡ sig
        → judge_signature lib d.header d.raw key (head ++ b'.' ∷ payload) sig ≡ valid claims
        → IsGenuine lib cfg now f c c' token claims
    sealed d st key c' none l k s h = absurd (cc)
    sealed d st key c' (some sig) l k s h = finished d st key c' sig _ l k s refl h

    keyed :
        (d : Decoded lib head payload) (st : IsStandard lib cfg now d.raw)
        (out : Found PublicKey × JwksCache) {claims : Claims}
        → get_key lib.jwk now d.header.kid f c ≡ out
        → (judge_key lib d.header d.raw (head ++ b'.' ∷ payload) signature out).0 ≡ valid claims
        → IsGenuine lib cfg now f c
            (judge_key lib d.header d.raw (head ++ b'.' ∷ payload) signature out).1
            token
            claims
    keyed d st (Found.failed e, c') g h = absurd (cc)
    keyed d st (Found.found key, c') g h =
        let known = get_key-IsCurrent lib.jwk now d.header.kid f c g in
        sealed d st key c' (lib.jwk.unb64 signature) known.0 known.1 refl h

    judged :
        (d : Decoded lib head payload) (v : Verdict ⊤) {claims : Claims}
        → validate_standard_claims lib cfg now d.raw ≡ v
        → (judge_standard lib now f d.header d.raw (head ++ b'.' ∷ payload) signature c v).0
          ≡ valid claims
        → IsGenuine lib cfg now f c
            (judge_standard lib now f d.header d.raw (head ++ b'.' ∷ payload) signature c v).1
            token
            claims
    judged d (invalid e) s h = absurd (cc)
    judged d (valid u) s h = keyed d (standard d.raw s) _ refl h

    decoding :
        {claims : Claims}
        → (validate_parts lib cfg now f c (head ∷ payload ∷ signature ∷ [])).0 ≡ valid claims
        → IsGenuine lib cfg now f c
            (validate_parts lib cfg now f c (head ∷ payload ∷ signature ∷ [])).1
            token
            claims
    decoding {claims} =
        let P =
          λ (out : Verdict Claims × JwksCache). IsGenuine lib cfg now f c out.1 token claims in
        staged c P (lib.jwk.unb64 head) _ _ λ header_json hd.
          staged c P (lib.read_header header_json) _ _ λ h hr.
            staged c P (lib.jwk.unb64 payload) _ _ λ claims_json cd.
              staged c P (lib.read_claims claims_json) _ _ λ rc cr.
                judged
                  (record {
                    header_json = header_json;
                    claims_json = claims_json;
                    header = h;
                    raw = rc;
                    header_decodes = hd;
                    header_reads = hr;
                    claims_decode = cd;
                    claims_read = cr;
                  })
                  _ refl

  in_parts :
      (f : Fetch) (c : JwksCache) (token : Text) (ps : List Text) {claims : Claims}
      → split b'.' token ≡ ps
      → (validate_parts lib cfg now f c ps).0 ≡ valid claims
      → IsGenuine lib cfg now f c (validate_parts lib cfg now f c ps).1 token claims
  in_parts f c token [] e h = absurd (cc)
  in_parts f c token (p ∷ []) e h = absurd (cc)
  in_parts f c token (p ∷ q ∷ []) e h = absurd (cc)
  in_parts f c token (p ∷ q ∷ r ∷ []) e h = decoding f c token p q r e h
  in_parts f c token (p ∷ q ∷ r ∷ x ∷ ps) e h = absurd (cc)

  -- A token is accepted only if it has three parts whose first two decode to a header and claims, the
  -- claims name the configured issuer, are not expired and are for the configured audience when there
  -- is one, and the third part decodes to a signature of the first two, under one of the six algorithms
  -- with a key of its type, where the key is listed under the header's id in a cache that is current;
  -- the claims returned are those of the token.
  pub validate-IsGenuine :
      (f : Fetch) (token : Text) (c : JwksCache) {claims : Claims}
      → (validate lib cfg now f token c).0 ≡ valid claims
      → IsGenuine lib cfg now f c (validate lib cfg now f token c).1 token claims
  unfolding validate
  validate-IsGenuine f token c h = in_parts f c token (split b'.' token) refl h
