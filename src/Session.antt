-- ===== src/Session.antt =====
-- internal/pkg/auth/session.go. Base64, HMAC-SHA256 and the JSON of the claims are parameters. Texts
-- are lists of codes, and instants are nanoseconds.
pub mod RoundTrip
pub mod Sound
pub mod Tests
use lurus_identity.Base.{
  ℕ, ◌+◌, ◌/◌, ◌≡◌, Bool, true, false, not, ◌||◌, Option, none, some, List, [], ◌∷◌, ◌++◌, ◌==◌,
  ltb, if◌then◌else◌,
}
use lurus_identity.Text.{Text, codes, equal, split, strip, decimal, parse_int}
use lurus_identity.Text.Split.{Lacks}

pub record Claims : Type 0 where
  pub iss : Text
  pub sub : Text
  pub iat : ℕ
  pub exp : ℕ

-- What the code uses of the Go library.
pub record Codec : Type 0 where
  pub b64 : Text → Text
  pub unb64 : Text → Option Text
  pub hmac : Text → Text → Text
  pub marshal : Claims → Text
  pub unmarshal : Text → Option Claims

-- What that promises: base64 and the claims' JSON are read back, and base64 has no full stop.
pub record IsCodec (c : Codec) : Type 0 where
  pub decodes : (s : Text) → c.unb64 (c.b64 s) ≡ some s
  pub undotted : (s : Text) → Lacks b'.' (c.b64 s)
  pub reads : (k : Claims) → c.unmarshal (c.marshal k) ≡ some k

pub data SessionError : Type 0 where
  empty_secret malformed undecodable_signature invalid_signature undecodable_payload : SessionError
  unreadable_payload unexpected_issuer expired invalid_sub invalid_id : SessionError

pub data Answer (A : Type 0) : Type 0 where
  granted : A → Answer A
  refused : SessionError → Answer A

abbrev pub second : ℕ
second = 1000000000

abbrev pub session_issuer : Text
session_issuer = codes "lurus-identity"

abbrev pub sub_prefix : Text
sub_prefix = codes "lurus:"

abbrev pub header : Text
header = codes "{\"typ\":\"JWT\",\"alg\":\"HS256\"}"

abbrev pub claims_of : ℕ → ℕ → ℕ → Claims
claims_of now ttl id = record {
  iss = session_issuer;
  sub = sub_prefix ++ decimal id;
  iat = now / second;
  exp = (now + ttl) / second;
}

module _ (c : Codec) where
  abbrev pub body_of : Claims → Text
  body_of k = c.b64 header ++ b'.' ∷ c.b64 (c.marshal k)

  unfoldable pub issue_session_token : ℕ → ℕ → ℕ → Text → Answer Text
  issue_session_token now id ttl [] = Answer.refused SessionError.empty_secret
  issue_session_token now id ttl (x ∷ xs) =
      let body = body_of (claims_of now ttl id) in
      Answer.granted (body ++ b'.' ∷ c.b64 (c.hmac body (x ∷ xs)))

  abbrev pub account_in : Option ℕ → Answer ℕ
  account_in none = Answer.refused SessionError.invalid_id
  account_in (some i) = if i == 0 then Answer.refused SessionError.invalid_id else Answer.granted i

  abbrev pub subject_in : Option Text → Answer ℕ
  subject_in none = Answer.refused SessionError.invalid_sub
  subject_in (some digits) = account_in (parse_int digits)

  abbrev pub judge_claims : ℕ → Option Claims → Answer ℕ
  judge_claims now none = Answer.refused SessionError.unreadable_payload
  judge_claims now (some k) =
      if not (equal k.iss session_issuer)
      then Answer.refused SessionError.unexpected_issuer
      else if ltb k.exp (now / second)
      then Answer.refused SessionError.expired
      else subject_in (strip sub_prefix k.sub)

  abbrev pub judge_payload : ℕ → Option Text → Answer ℕ
  judge_payload now none = Answer.refused SessionError.undecodable_payload
  judge_payload now (some json) = judge_claims now (c.unmarshal json)

  abbrev pub judge_signature : ℕ → Text → Text → Text → Option Text → Answer ℕ
  judge_signature now secret head payload none = Answer.refused SessionError.undecodable_signature
  judge_signature now secret head payload (some sig) =
      if not (equal (c.hmac (head ++ b'.' ∷ payload) secret) sig)
      then Answer.refused SessionError.invalid_signature
      else judge_payload now (c.unb64 payload)

  abbrev pub judge_parts : ℕ → Text → List Text → Answer ℕ
  judge_parts now secret (head ∷ payload ∷ sig ∷ []) =
      judge_signature now secret head payload (c.unb64 sig)
  judge_parts now secret _ = Answer.refused SessionError.malformed

  unfoldable pub validate_session_token : ℕ → Text → Text → Answer ℕ
  validate_session_token now token [] = Answer.refused SessionError.empty_secret
  validate_session_token now token (x ∷ xs) = judge_parts now (x ∷ xs) (split b'.' token)
