-- ===== src/Auth/Keys.antt =====
-- internal/pkg/auth/jwks.go: the public keys of Zitadel, fetched from its JWKS endpoint and kept for a
-- while. One call runs at a time; what the endpoint answers is an argument of a call. A text that
-- stands for bytes is the list of them.
use lurus_identity.Base.{
  ℕ, ◌+◌, ◌*◌, ◌%◌, ◌^◌, String, Bool, false, ◌||◌, Option, none, some, List, [], ◌∷◌, str_eq, ◌==◌,
  ltb, leb, ℤ, pos, negsuc, if◌then◌else◌,
}
use lurus_identity.Store.{⊤}
use lurus_identity.Text.{Text, equal}
use lurus_identity.Table.{limit}

pub data Hash : Type 0 where
  sha256 sha384 sha512 : Hash

pub data Curve : Type 0 where
  p256 p384 p521 : Curve

-- `rsa.PublicKey` with its modulus and exponent, `ecdsa.PublicKey` with its curve and point
pub data PublicKey : Type 0 where
  rsa_key : ℕ → ℕ → PublicKey
  ec_key : Curve → ℕ → ℕ → PublicKey

-- The field `use` is `key_use` here.
pub record JwkKey : Type 0 where
  pub kid : String
  pub kty : String
  pub key_use : String
  pub n : Text
  pub e : Text
  pub crv : String
  pub x : Text
  pub y : Text

-- What the code uses of the Go library: base64 without padding, and the JSON of a JWKS document.
pub record JwkLib : Type 0 where
  pub unb64 : Text → Option Text
  pub read_document : Text → Option (List JwkKey)

-- The answer of the endpoint: none, or a status with the body as far as it could be read, and when.
pub data Fetch : Type 0 where
  unreachable : Fetch
  response : ℕ → Option Text → ℕ → Fetch

-- A cache that was never filled has no `fetched_at`. The newest entry of a map stands first.
pub record JwksCache : Type 0 where
  pub ttl : ℕ
  pub keys : List (String × PublicKey)
  pub fetched_at : Option ℕ

pub data KeyError : Type 0 where
  fetch_failed bad_status unread_body unreadable_document kid_not_found : KeyError

pub data Found (A : Type 0) : Type 0 where
  found : A → Found A
  failed : KeyError → Found A

-- an hour, in nanoseconds
abbrev pub default_jwks_ttl : ℕ
default_jwks_ttl = 3600000000000

abbrev pub max_jwks_body_bytes : ℕ
max_jwks_body_bytes = 65536

unfoldable pub new_jwks_cache : ℤ → JwksCache
new_jwks_cache (negsuc n) = record { ttl = default_jwks_ttl; keys = []; fetched_at = none }
new_jwks_cache (pos n) = record {
  ttl = if n == 0 then default_jwks_ttl else n;
  keys = [];
  fetched_at = none;
}

unfoldable pub lookup : String → List (String × PublicKey) → Option PublicKey
lookup kid [] = none
lookup kid ((k, key) ∷ keys) = if str_eq k kid then some key else lookup kid keys

-- `new(big.Int).SetBytes(b)`, after what was read before
unfoldable pub set_bytes : ℕ → Text → ℕ
set_bytes n [] = n
set_bytes n (b ∷ bs) = set_bytes (n * 256 + b) bs

-- The low 64 bits, when they are the two's complement of a positive number.
unfoldable pub exponent : ℕ → Option ℕ
exponent v =
    let low = v % 2 ^ 64 in
    if low == 0 then none else if leb 9223372036854775808 low then none else some low

abbrev pub rsa_of : Text → Option ℕ → Option PublicKey
rsa_of n none = none
rsa_of n (some e) = some (rsa_key (set_bytes 0 n) e)

abbrev pub rsa_bytes : Option Text → Option Text → Option PublicKey
rsa_bytes none _ = none
rsa_bytes (some n) none = none
rsa_bytes (some n) (some e) = rsa_of n (exponent (set_bytes 0 e))

abbrev pub curve_of : String → Option Curve
curve_of crv =
    if str_eq crv "P-256"
    then some p256
    else if str_eq crv "P-384"
    then some p384
    else if str_eq crv "P-521"
    then some p521
    else none

abbrev pub ec_bytes : Option Curve → Option Text → Option Text → Option PublicKey
ec_bytes (some c) (some x) (some y) = some (ec_key c (set_bytes 0 x) (set_bytes 0 y))
ec_bytes _ _ _ = none

abbrev pub is_for_signing : JwkKey → Bool
is_for_signing k = str_eq k.key_use "" || str_eq k.key_use "sig"

abbrev pub with_key :
    String → Option PublicKey → List (String × PublicKey) → List (String × PublicKey)
with_key kid none keys = keys
with_key kid (some key) keys = (kid, key) ∷ keys

-- `time.Since(fetchedAt) < ttl`
abbrev pub is_fresh : ℕ → ℕ → Option ℕ → Bool
is_fresh now ttl none = false
is_fresh now ttl (some at) = ltb now (at + ttl)

abbrev pub demand : Option PublicKey → Found PublicKey
demand none = failed KeyError.kid_not_found
demand (some key) = found key

abbrev pub after_refresh : String → Found ⊤ × JwksCache → Found PublicKey × JwksCache
after_refresh kid (failed e, c) = (failed e, c)
after_refresh kid (found _, c) = (demand (lookup kid c.keys), c)

module _ (lib : JwkLib) where
  unfoldable pub parse_rsa_key : JwkKey → Option PublicKey
  unfolding exponent set_bytes
  parse_rsa_key k =
      if equal k.n [] || equal k.e [] then none else rsa_bytes (lib.unb64 k.n) (lib.unb64 k.e)

  unfoldable pub parse_ec_key : JwkKey → Option PublicKey
  unfolding set_bytes
  parse_ec_key k =
      if equal k.x [] || equal k.y []
      then none
      else ec_bytes (curve_of k.crv) (lib.unb64 k.x) (lib.unb64 k.y)

  unfoldable pub parse_jwk : JwkKey → Option PublicKey
  unfolding parse_rsa_key parse_ec_key
  parse_jwk k =
      if str_eq k.kty "RSA"
      then parse_rsa_key k
      else if str_eq k.kty "EC"
      then parse_ec_key k
      else none

  -- The loop over the document: a later key takes the place of an earlier one of its id.
  unfoldable pub collect : List (String × PublicKey) → List JwkKey → List (String × PublicKey)
  unfolding parse_jwk
  collect keys [] = keys
  collect keys (k ∷ ks) =
      collect (if is_for_signing k then with_key k.kid (parse_jwk k) keys else keys) ks

  unfoldable pub store_document : ℕ → Option (List JwkKey) → JwksCache → Found ⊤ × JwksCache
  unfolding collect
  store_document at none c = (failed KeyError.unreadable_document, c)
  store_document at (some ks) c =
      (found tt, record c { keys = collect [] ks; fetched_at = some at })

  unfoldable pub refresh : Fetch → JwksCache → Found ⊤ × JwksCache
  unfolding store_document
  refresh Fetch.unreachable c = (failed KeyError.fetch_failed, c)
  refresh (Fetch.response status none at) c =
      (failed (if status == 200 then KeyError.unread_body else KeyError.bad_status), c)
  refresh (Fetch.response status (some body) at) c =
      if status == 200
      then store_document at (lib.read_document (limit max_jwks_body_bytes body)) c
      else (failed KeyError.bad_status, c)

  abbrev pub from_cache :
      String → Fetch → JwksCache → Option PublicKey → Found PublicKey × JwksCache
  from_cache kid f c (some key) = (found key, c)
  from_cache kid f c none = after_refresh kid (refresh f c)

  unfoldable pub get_key : ℕ → String → Fetch → JwksCache → Found PublicKey × JwksCache
  unfolding lookup refresh
  get_key now kid f c =
      from_cache kid f c (if is_fresh now c.ttl c.fetched_at then lookup kid c.keys else none)
