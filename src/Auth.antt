-- ===== src/Auth.antt =====
-- internal/pkg/auth/validator.go and crypto_hash.go: tokens that Zitadel signed. The Go library's
-- JSON, Base64, digests and signature checks are parameters. Instants are nanoseconds.
pub mod Keys
pub mod Current
pub mod Signs
pub mod Genuine
pub mod Middleware
pub mod Gate
pub mod Tests
use lurus_identity.Base.{
  ℕ, ◌+◌, ◌/◌, ◌%◌, String, Bool, true, false, not, ◌||◌, Option, none, some, List, [], ◌∷◌, ◌++◌,
  ◌==◌, str_eq, ltb_ℤ, ℤ, pos, negsuc, if◌then◌else◌,
}
use lurus_identity.Store.{⊤}
use lurus_identity.Text.{Text, size, split, equal}
use lurus_identity.Table.{limit, offset}
use lurus_identity.Auth.Keys.{
  Hash, Curve, PublicKey, Fetch, JwkLib, KeyError, Found, JwksCache, set_bytes, get_key,
}

pub record Claims : Type 0 where
  pub sub : String
  pub iss : String
  pub aud : List String
  pub email : String
  pub name : String
  pub roles : List String

pub record JwtHeader : Type 0 where
  pub alg : String
  pub kid : String

-- `aud` is the raw JSON, and `zitadel_roles` the names of the map in the order in which it yields them.
pub record RawClaims : Type 0 where
  pub sub : String
  pub iss : String
  pub aud : Text
  pub exp : ℤ
  pub email : String
  pub name : String
  pub zitadel_roles : List String
  pub plain_roles : List String

pub record ValidatorConfig : Type 0 where
  pub issuer : String
  pub audience : String
  pub admin_roles : List String

-- What the code uses of the Go library, besides what it reads keys with.
pub record JwtLib : Type 0 where
  pub jwk : JwkLib
  pub read_header : Text → Option JwtHeader
  pub read_claims : Text → Option RawClaims
  pub read_strings : Text → Option (List String)
  pub read_string : Text → Option String
  pub digest : Hash → Text → Text
  -- the modulus, the exponent, the digest and the signature
  pub verify_pkcs1v15 : ℕ → ℕ → Hash → Text → Text → Bool
  -- the curve, the point, the digest, r and s
  pub verify_ecdsa : Curve → ℕ → ℕ → Text → ℕ → ℕ → Bool

pub data AuthError : Type 0 where
  malformed undecodable_header unreadable_header undecodable_payload unreadable_claims : AuthError
  missing_exp expired missing_iss unexpected_issuer unreadable_audience audience_mismatch :
      AuthError
  undecodable_signature unsupported_algorithm key_mismatch unsupported_hash : AuthError
  odd_signature invalid_signature : AuthError
  no_signing_key : KeyError → AuthError

pub data Verdict (A : Type 0) : Type 0 where
  valid : A → Verdict A
  invalid : AuthError → Verdict A

abbrev pub second : ℕ
second = 1000000000

abbrev pub is_zero : ℤ → Bool
is_zero (pos n) = n == 0
is_zero (negsuc n) = false

-- `NewValidator`
unfoldable pub new_config : ValidatorConfig → ValidatorConfig
new_config cfg = record cfg {
  admin_roles = elim cfg.admin_roles [ [] ↦ "admin" ∷ [] | r ∷ rs ↦ r ∷ rs ];
}

unfoldable pub contains_string : List String → String → Bool
contains_string [] needle = false
contains_string (s ∷ ss) needle = str_eq s needle || contains_string ss needle

-- The set of the configuration holds one of the roles.
unfoldable pub has_admin_role : ValidatorConfig → List String → Bool
unfolding contains_string
has_admin_role cfg [] = false
has_admin_role cfg (r ∷ rs) = contains_string cfg.admin_roles r || has_admin_role cfg rs

unfoldable pub hash_name_to_crypto_hash : String → Option Hash
hash_name_to_crypto_hash name =
    if str_eq name "sha256"
    then some Hash.sha256
    else if str_eq name "sha384"
    then some Hash.sha384
    else if str_eq name "sha512"
    then some Hash.sha512
    else none

-- `addRole` for each name: the roles so far, without repetition
unfoldable pub add_roles : List String → List String → List String
unfolding contains_string
add_roles roles [] = roles
add_roles roles (r ∷ rs) = add_roles (if contains_string roles r then roles else roles ++ r ∷ []) rs

abbrev pub check : Bool → AuthError → Verdict ⊤
check true e = valid tt
check false e = invalid e

abbrev pub judge_audience : String → Verdict (List String) → Verdict ⊤
judge_audience audience (invalid e) = invalid e
judge_audience audience (valid ss) = check (contains_string ss audience) AuthError.audience_mismatch

abbrev pub strings_or_none : Verdict (List String) → List String
strings_or_none (valid ss) = ss
strings_or_none (invalid e) = []

-- A stage of the decoding: on a failure nothing else happens.
abbrev pub stage :
    {A : Type 0}
    → Option A
    → AuthError
    → JwksCache
    → (A → Verdict Claims × JwksCache)
    → Verdict Claims × JwksCache
stage none e c go = (invalid e, c)
stage (some a) e c go = go a

module _ (lib : JwtLib) where
  abbrev pub one_string : Option String → Verdict (List String)
  one_string none = invalid AuthError.unreadable_audience
  one_string (some s) = valid (s ∷ [])

  abbrev pub some_strings : Text → Option (List String) → Verdict (List String)
  some_strings raw (some ss) = valid ss
  some_strings raw none = one_string (lib.read_string raw)

  unfoldable pub parse_audience : Text → Verdict (List String)
  parse_audience [] = valid []
  parse_audience (c ∷ raw) = some_strings (c ∷ raw) (lib.read_strings (c ∷ raw))

  unfoldable pub validate_standard_claims : ValidatorConfig → ℕ → RawClaims → Verdict ⊤
  unfolding parse_audience contains_string
  validate_standard_claims cfg now rc =
      if is_zero rc.exp
      then invalid AuthError.missing_exp
      else if ltb_ℤ rc.exp (pos (now / second))
      then invalid AuthError.expired
      else if str_eq rc.iss ""
      then invalid AuthError.missing_iss
      else if not (str_eq rc.iss cfg.issuer)
      then invalid AuthError.unexpected_issuer
      else if str_eq cfg.audience ""
      then valid tt
      else judge_audience cfg.audience (parse_audience rc.aud)

  unfoldable pub build_claims : RawClaims → Claims
  unfolding parse_audience add_roles
  build_claims rc = record {
    sub = rc.sub;
    iss = rc.iss;
    aud = strings_or_none (parse_audience rc.aud);
    email = rc.email;
    name = rc.name;
    roles = add_roles (add_roles [] rc.zitadel_roles) rc.plain_roles;
  }

  abbrev pub judge_rsa : ℕ → ℕ → Text → Text → Option Hash → Verdict ⊤
  judge_rsa n e digest sig none = invalid AuthError.unsupported_hash
  judge_rsa n e digest sig (some h) =
      check (lib.verify_pkcs1v15 n e h digest sig) AuthError.invalid_signature

  unfoldable pub verify_rsa : PublicKey → Text → Text → Hash → String → Verdict ⊤
  unfolding hash_name_to_crypto_hash
  verify_rsa (PublicKey.ec_key c x y) input sig new_hash name = invalid AuthError.key_mismatch
  verify_rsa (PublicKey.rsa_key n e) input sig new_hash name =
      judge_rsa n e (lib.digest new_hash input) sig (hash_name_to_crypto_hash name)

  -- The first half of the signature is r and the second half is s.
  unfoldable pub verify_ec : PublicKey → Text → Text → Hash → Verdict ⊤
  unfolding set_bytes size limit offset
  verify_ec (PublicKey.rsa_key n e) input sig new_hash = invalid AuthError.key_mismatch
  verify_ec (PublicKey.ec_key c x y) input sig new_hash =
      if not (size sig % 2 == 0)
      then invalid AuthError.odd_signature
      else (let half = size sig / 2 in
          check
            (lib.verify_ecdsa c x y (lib.digest new_hash input) (set_bytes 0 (limit half sig))
              (set_bytes 0 (offset half sig)))
            AuthError.invalid_signature)

  unfoldable pub verify_signature : String → PublicKey → Text → Text → Verdict ⊤
  unfolding verify_rsa verify_ec
  verify_signature alg key input sig =
      if str_eq alg "RS256"
      then verify_rsa key input sig Hash.sha256 "sha256"
      else if str_eq alg "RS384"
      then verify_rsa key input sig Hash.sha384 "sha384"
      else if str_eq alg "RS512"
      then verify_rsa key input sig Hash.sha512 "sha512"
      else if str_eq alg "ES256"
      then verify_ec key input sig Hash.sha256
      else if str_eq alg "ES384"
      then verify_ec key input sig Hash.sha384
      else if str_eq alg "ES512"
      then verify_ec key input sig Hash.sha512
      else invalid AuthError.unsupported_algorithm

  abbrev pub finish : RawClaims → Verdict ⊤ → Verdict Claims
  finish rc (valid _) = valid (build_claims rc)
  finish rc (invalid e) = invalid e

  abbrev pub judge_signature :
      JwtHeader → RawClaims → PublicKey → Text → Option Text → Verdict Claims
  judge_signature h rc key input none = invalid AuthError.undecodable_signature
  judge_signature h rc key input (some sig) = finish rc (verify_signature h.alg key input sig)

  -- The claims are judged before a key is asked for.
  abbrev pub judge_key :
      JwtHeader → RawClaims → Text → Text → Found PublicKey × JwksCache → Verdict Claims × JwksCache
  judge_key h rc input sig (Found.failed e, c) = (invalid (AuthError.no_signing_key e), c)
  judge_key h rc input sig (Found.found key, c) =
      (judge_signature h rc key input (lib.jwk.unb64 sig), c)

  abbrev pub judge_standard :
      ℕ
      → Fetch
      → JwtHeader
      → RawClaims
      → Text
      → Text
      → JwksCache
      → Verdict ⊤
      → Verdict Claims × JwksCache
  judge_standard now f h rc input sig c (invalid e) = (invalid e, c)
  judge_standard now f h rc input sig c (valid _) =
      judge_key h rc input sig (get_key lib.jwk now h.kid f c)

  abbrev pub validate_parts :
      ValidatorConfig → ℕ → Fetch → JwksCache → List Text → Verdict Claims × JwksCache
  validate_parts cfg now f c (head ∷ payload ∷ sig ∷ []) =
      stage (lib.jwk.unb64 head) AuthError.undecodable_header c λ header_json.
        stage (lib.read_header header_json) AuthError.unreadable_header c λ h.
          stage (lib.jwk.unb64 payload) AuthError.undecodable_payload c λ payload_json.
            stage (lib.read_claims payload_json) AuthError.unreadable_claims c λ rc.
              judge_standard now f h rc (head ++ b'.' ∷ payload) sig c
                (validate_standard_claims cfg now rc)
  validate_parts cfg now f c _ = (invalid AuthError.malformed, c)

  unfoldable pub validate :
      ValidatorConfig → ℕ → Fetch → Text → JwksCache → Verdict Claims × JwksCache
  unfolding split get_key validate_standard_claims verify_signature build_claims
  validate cfg now f token c = validate_parts cfg now f c (split b'.' token)
