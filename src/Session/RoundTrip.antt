-- ===== src/Session/RoundTrip.antt =====
-- Validating a token that was issued.
use mathlib.Core.List.{append_assoc}
use lurus_identity.Base.{
  ℕ, ◌+◌, ◌/◌, ◌≤◌, ◌<◌, ◌≡◌, refl, ap, ◌∙◌, false, not, some, [], ◌∷◌, ◌++◌, arith, ◌==◌, ltb,
  if◌then◌else◌,
}
use lurus_identity.Text.{Text, equal, split, decimal, max_int64}
use lurus_identity.Text.Split.{split-part, split-last, strip-append, equal_self}
use lurus_identity.Text.Decimal.{parse_int-decimal}
use lurus_identity.Session.{
  Claims, Codec, IsCodec, SessionError, Answer, second, sub_prefix, header, claims_of, body_of,
  issue_session_token, judge_claims, validate_session_token,
}

positive : (n : ℕ) → 0 < n → (n == 0) ≡ false
positive n h = ground arith

module _ (c : Codec) (laws : IsCodec c) where
  split-token :
      (k : Claims) (sig : Text)
      → split b'.' (body_of c k ++ b'.' ∷ c.b64 sig)
        ≡ c.b64 header ∷ c.b64 (c.marshal k) ∷ c.b64 sig ∷ []
  split-token k sig =
      ap (λ s. split b'.' s)
        (append_assoc (c.b64 header) (b'.' ∷ c.b64 (c.marshal k)) (b'.' ∷ c.b64 sig))
      ∙ split-part b'.' (c.b64 header) _ (laws.undotted header)
      ∙ ap (λ ps. c.b64 header ∷ ps)
          (split-part b'.' (c.b64 (c.marshal k)) _ (laws.undotted _)
            ∙ ap (λ ps. c.b64 (c.marshal k) ∷ ps) (split-last b'.' (c.b64 sig) (laws.undotted sig)))

  -- A token whose signature is `sig`.
  signed :
      (k : Claims) (now : ℕ) (x : ℕ) (xs sig : Text)
      → validate_session_token c now (body_of c k ++ b'.' ∷ c.b64 sig) (x ∷ xs) ≡ (
          if not (equal (c.hmac (body_of c k) (x ∷ xs)) sig)
          then Answer.refused SessionError.invalid_signature
          else judge_claims c now (some k))
  unfolding validate_session_token
  signed k now x xs sig =
      rw (split-token k sig)
        (rw (laws.decodes sig) (rw (laws.decodes (c.marshal k)) (rw (laws.reads k) refl)))

  accepted :
      (now issued ttl id : ℕ)
      → 0 < id
      → id ≤ max_int64
      → judge_claims c now (some (claims_of issued ttl id)) ≡ (
          if ltb ((issued + ttl) / second) (now / second)
          then Answer.refused SessionError.expired
          else Answer.granted id)
  accepted now issued ttl id h l =
      rw (strip-append sub_prefix (decimal id))
        (rw (parse_int-decimal id l) (rw (positive id h) refl))

  -- A token that was issued for an account is granted to that account until the second of its expiry has
  -- passed, and refused as expired afterwards.
  pub validate-issue :
      (issued ttl id now : ℕ) (secret : Text) {token : Text}
      → 0 < id
      → id ≤ max_int64
      → issue_session_token c issued id ttl secret ≡ Answer.granted token
      → validate_session_token c now token secret ≡ (
          if ltb ((issued + ttl) / second) (now / second)
          then Answer.refused SessionError.expired
          else Answer.granted id)
  unfolding issue_session_token
  validate-issue issued ttl id now [] h l e = absurd (cc)
  validate-issue issued ttl id now (x ∷ xs) {token} h l e =
      let k = claims_of issued ttl id in
      let sig = c.hmac (body_of c k) (x ∷ xs) in
      let same : token ≡ body_of c k ++ b'.' ∷ c.b64 sig = cc in
      ap (λ t. validate_session_token c now t (x ∷ xs)) same
      ∙ signed k now x xs sig
      ∙ rw (equal_self sig) (accepted now issued ttl id h l)

  -- With another secret, under which no text has the same HMAC, an issued token is refused.
  pub validate-other_secret :
      (issued ttl id now y : ℕ) (ys secret : Text) {token : Text}
      → ((body : Text) → equal (c.hmac body (y ∷ ys)) (c.hmac body secret) ≡ false)
      → issue_session_token c issued id ttl secret ≡ Answer.granted token
      → validate_session_token c now token (y ∷ ys) ≡ Answer.refused SessionError.invalid_signature
  unfolding issue_session_token
  validate-other_secret issued ttl id now y ys [] d e = absurd (cc)
  validate-other_secret issued ttl id now y ys (x ∷ xs) {token} d e =
      let k = claims_of issued ttl id in
      let sig = c.hmac (body_of c k) (x ∷ xs) in
      let same : token ≡ body_of c k ++ b'.' ∷ c.b64 sig = cc in
      ap (λ t. validate_session_token c now t (y ∷ ys)) same
      ∙ signed k now y ys sig
      ∙ rw (d (body_of c k)) refl
