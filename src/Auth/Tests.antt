-- ===== src/Auth/Tests.antt =====
-- Requests at the two middlewares, with a Go library that reads fixed values.
use lurus_identity.Base.{◌≡◌, refl, false, none, some, [], ◌∷◌, pos}
use lurus_identity.Text.{Text, codes, equal}
use lurus_identity.Store.{empty, ok, pure}
use lurus_identity.Store.Run.{calm}
use lurus_identity.Session as Sessions
use lurus_identity.Auth.Keys.{PublicKey, Fetch, JwkLib, JwksCache, KeyError}
use lurus_identity.Auth.{Claims, ValidatorConfig, JwtLib, AuthError, invalid, validate}
use lurus_identity.Auth.Middleware.{
  passed, aborted, token, extract_bearer_token, JwtMiddleware, auth, admin_auth,
}
use lurus_identity.Auth.Gate.{Shown, IsAdmin, auth-Shown, admin_auth-IsAdmin}

abbrev jwk_lib : JwkLib
jwk_lib = record {
  unb64 = λ s. some s;
  read_document = λ s. some (
      record {
        kid = "k2";
        kty = "RSA";
        key_use = "sig";
        n = codes "n";
        e = codes "e";
        crv = "";
        x = [];
        y = [];
      }
      ∷ []);
}

abbrev lib : JwtLib
lib = record {
  jwk = jwk_lib;
  read_header = λ s. some (record { alg = "RS256"; kid = "k1" });
  read_claims = λ s. some (record {
    sub = "u1";
    iss = "https://auth";
    aud = codes "a";
    exp = pos 9;
    email = "u@x";
    name = "U";
    zitadel_roles = "user" ∷ "admin" ∷ [];
    plain_roles = "admin" ∷ [];
  });
  read_strings = λ s. some ("app" ∷ []);
  read_string = λ s. none;
  digest = λ h s. codes "d";
  verify_pkcs1v15 = λ n e h d sig. equal d sig;
  verify_ecdsa = λ c x y d r s. false;
}

abbrev cfg : ValidatorConfig
cfg = record { issuer = "https://auth"; audience = "app"; admin_roles = "admin" ∷ [] }

abbrev codec : Sessions.Codec
codec = record {
  b64 = λ s. s;
  unb64 = λ s. none;
  hmac = λ body key. key;
  marshal = λ k. [];
  unmarshal = λ s. none;
}

abbrev middleware : JwtMiddleware
middleware = record {
  lib = lib;
  codec = codec;
  trim_space = λ s. s;
  cfg = cfg;
  session_secret = codes "s";
  lookup = λ claims. pure 7;
}

abbrev cache : JwksCache
cache = record { ttl = 10; keys = ("k1", PublicKey.rsa_key 5 3) ∷ []; fetched_at = some 0 }

abbrev claims : Claims
claims = record {
  sub = "u1";
  iss = "https://auth";
  aud = "app" ∷ [];
  email = "u@x";
  name = "U";
  roles = "user" ∷ "admin" ∷ [];
}

abbrev request : Text
request = codes "Bearer h.p.d"

passes :
    ((auth middleware 5 Fetch.unreachable request cache).0 (calm empty)).0
    ≡ ok (passed 7 (some claims))
unfolding auth pure
passes = refl

admin_passes :
    ((admin_auth middleware 5 Fetch.unreachable request cache).0 (calm empty)).0
    ≡ ok (passed 7 (some claims))
unfolding admin_auth pure
admin_passes = refl

auth-Shown_example :
    (t : Text) × (extract_bearer_token (λ s. s) request ≡ token t)
    × Shown middleware 5 Fetch.unreachable cache
        (calm empty)
        7
        (some claims)
        (auth middleware 5 Fetch.unreachable request cache).1
        t
auth-Shown_example =
    auth-Shown middleware 5 Fetch.unreachable cache (calm empty) 7 (some claims) request passes

admin_auth-IsAdmin_example :
    (t : Text) × (extract_bearer_token (λ s. s) request ≡ token t)
    × IsAdmin middleware 5 Fetch.unreachable cache
        (calm empty)
        7
        (some claims)
        (admin_auth middleware 5 Fetch.unreachable request cache).1
        t
admin_auth-IsAdmin_example =
    admin_auth-IsAdmin middleware 5 Fetch.unreachable cache (calm empty) 7 (some claims) request
      admin_passes

-- With another signature, without the scheme, and after the keys have expired and could not be fetched.
forged :
    ((auth middleware 5 Fetch.unreachable (codes "Bearer h.p.q") cache).0 (calm empty)).0
    ≡ ok (aborted 401 "invalid token")
unfolding auth pure
forged = refl

no_scheme :
    ((auth middleware 5 Fetch.unreachable (codes "Basic h.p.d") cache).0 (calm empty)).0
    ≡ ok (aborted 401 "Authorization header must use Bearer scheme")
unfolding auth pure
no_scheme = refl

stale :
    (validate lib cfg 10 Fetch.unreachable (codes "h.p.d") cache).0
    ≡ invalid (AuthError.no_signing_key KeyError.fetch_failed)
unfolding validate
stale = refl

-- A document without the key that the token names.
rotated :
    (validate lib cfg 10 (Fetch.response 200 (some (codes "j")) 10) (codes "h.p.d") cache).0
    ≡ invalid (AuthError.no_signing_key KeyError.kid_not_found)
unfolding validate
rotated = refl
