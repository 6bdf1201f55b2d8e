-- ===== src/Auth/Signs.antt =====
-- When a signature is accepted.
use lurus_identity.Base.{
  ℕ, ◌/◌, ◌%◌, ◌*◌, ◌≡◌, refl, inl, inr, String, Bool, true, false, some, ◌==◌, str_eq, eq_iff,
  if◌then◌else◌, arith, Bool-cases,
}
use lurus_identity.Store.{⊤}
use lurus_identity.Text.{Text, size}
use lurus_identity.Table.{limit, offset}
use lurus_identity.Auth.Keys.{Hash, Curve, PublicKey, set_bytes}
use lurus_identity.Auth.{
  JwtLib, AuthError, Verdict, valid, check, verify_rsa, verify_ec, verify_signature,
  hash_name_to_crypto_hash,
}

abbrev pub rsa_alg : Hash → String
rsa_alg Hash.sha256 = "RS256"
rsa_alg Hash.sha384 = "RS384"
rsa_alg Hash.sha512 = "RS512"

abbrev pub ec_alg : Hash → String
ec_alg Hash.sha256 = "ES256"
ec_alg Hash.sha384 = "ES384"
ec_alg Hash.sha512 = "ES512"

-- `sig` signs `input` with `key` under the algorithm `alg`: an RSA key with an RSA algorithm, or a point
-- of a curve with an ECDSA algorithm, whose two numbers have as many bytes; the digest is the one that
-- the algorithm names.
pub data Signs (lib : JwtLib) (alg : String) (key : PublicKey) (input sig : Text) : Type 0 where
  by_rsa :
      (h : Hash) (n e : ℕ)
      → alg ≡ rsa_alg h
      → key ≡ PublicKey.rsa_key n e
      → lib.verify_pkcs1v15 n e h (lib.digest h input) sig ≡ true
      → Signs lib alg key input sig
  by_ec :
      (h : Hash) (c : Curve) (x y half : ℕ)
      → alg ≡ ec_alg h
      → key ≡ PublicKey.ec_key c x y
      → size sig ≡ 2 * half
      → lib.verify_ecdsa c x y
          (lib.digest h input)
          (set_bytes 0 (limit half sig))
          (set_bytes 0 (offset half sig))
        ≡ true
      → Signs lib alg key input sig

abbrev hash_name : Hash → String
hash_name Hash.sha256 = "sha256"
hash_name Hash.sha384 = "sha384"
hash_name Hash.sha512 = "sha512"

-- The name that each caller passes is that of its hash.
is_hash : (h : Hash) → hash_name_to_crypto_hash (hash_name h) ≡ some h
unfolding hash_name_to_crypto_hash
is_hash Hash.sha256 = refl
is_hash Hash.sha384 = refl
is_hash Hash.sha512 = refl

module _ (lib : JwtLib) (key : PublicKey) (input sig : Text) where
  checked : (b : Bool) (e : AuthError) {u : ⊤} → check b e ≡ valid u → b ≡ true
  checked true e h = refl
  checked false e h = cc

  rsa_signed :
      (alg : String) (h : Hash) (name : String) (k : PublicKey) {u : ⊤}
      → alg ≡ rsa_alg h
      → hash_name_to_crypto_hash name ≡ some h
      → key ≡ k
      → verify_rsa lib k input sig h name ≡ valid u
      → Signs lib alg key input sig
  unfolding verify_rsa
  rsa_signed alg h name (PublicKey.ec_key c x y) a i e v = absurd (cc)
  rsa_signed alg h name (PublicKey.rsa_key n x) a i e v =
      Signs.by_rsa h n x a e (checked _ _ (rw i at v))

  ec_signed :
      (alg : String) (h : Hash) (k : PublicKey) {u : ⊤}
      → alg ≡ ec_alg h
      → key ≡ k
      → verify_ec lib k input sig h ≡ valid u
      → Signs lib alg key input sig
  unfolding verify_ec
  ec_signed alg h (PublicKey.rsa_key n x) a e v = absurd (cc)
  ec_signed alg h (PublicKey.ec_key c x y) a e v = elim (Bool-cases (size sig % 2 == 0)) [
    | inr odd ↦ absurd (let v' = rw odd at v in cc)
    | inl even ↦
        let halves : size sig % 2 ≡ 0 = ground arith in
        Signs.by_ec h c x y (size sig / 2) a e (omega arith) (checked _ _ (rw even at v))
  ]

  -- One algorithm after the other.
  tried :
      (alg name : String) (m n : Verdict ⊤) {u : ⊤}
      → (alg ≡ name → m ≡ valid u → Signs lib alg key input sig)
      → (n ≡ valid u → Signs lib alg key input sig)
      → (if str_eq alg name then m else n) ≡ valid u
      → Signs lib alg key input sig
  tried alg name m n this rest v = elim (Bool-cases (str_eq alg name)) [
    | inl same ↦ this ((eq_iff alg name).0 same) (rw same at v)
    | inr other ↦ rest (rw other at v)
  ]

  pub verify_signature-Signs :
      (alg : String) {u : ⊤}
      → verify_signature lib alg key input sig ≡ valid u
      → Signs lib alg key input sig
  unfolding verify_signature
  verify_signature-Signs alg v =
      tried alg "RS256" _ _
        (λ a w. rsa_signed alg Hash.sha256 "sha256" key a (is_hash Hash.sha256) refl w)
        (tried alg "RS384" _ _
          (λ a w. rsa_signed alg Hash.sha384 "sha384" key a (is_hash Hash.sha384) refl w)
          (tried alg "RS512" _ _
            (λ a w. rsa_signed alg Hash.sha512 "sha512" key a (is_hash Hash.sha512) refl w)
            (tried alg "ES256" _ _ (λ a w. ec_signed alg Hash.sha256 key a refl w)
              (tried alg "ES384" _ _ (λ a w. ec_signed alg Hash.sha384 key a refl w)
                (tried alg "ES512" _ _ (λ a w. ec_signed alg Hash.sha512 key a refl w)
                  (λ w. absurd (cc)))))))
        v
