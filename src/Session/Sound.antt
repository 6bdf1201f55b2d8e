-- ===== src/Session/Sound.antt =====
-- What it takes for a session token to be accepted.
use lurus_identity.Base.{
  ℕ, ◌/◌, ◌≤◌, ◌≢◌, ◌≡◌, refl, ap, inl, inr, Bool, true, false, not, Option, none, some, List, [],
  ◌∷◌, ◌++◌, ◌==◌, ltb, if◌then◌else◌, arith, Bool-cases,
}
use lurus_identity.Text.{Text, equal, split, strip, parse_int}
use lurus_identity.Text.Split.{equal_to}
use lurus_identity.Session.{
  Claims, Codec, SessionError, Answer, second, session_issuer, sub_prefix, account_in, subject_in,
  judge_claims, judge_payload, judge_signature, judge_parts, validate_session_token,
}

-- Three parts; the third decodes to the HMAC of the first two under the secret, and the second to
-- unexpired claims of this service for the account `i`.
pub record IsSession (c : Codec) (now : ℕ) (secret token : Text) (i : ℕ) : Type 0 where
  pub head : Text
  pub payload : Text
  pub signature : Text
  pub json : Text
  pub claims : Claims
  pub digits : Text
  pub parts : split b'.' token ≡ head ∷ payload ∷ signature ∷ []
  pub signed : c.unb64 signature ≡ some (c.hmac (head ++ b'.' ∷ payload) secret)
  pub decodes : c.unb64 payload ≡ some json
  pub reads : c.unmarshal json ≡ some claims
  pub issuer : claims.iss ≡ session_issuer
  pub unexpired : now / second ≤ claims.exp
  pub subject : strip sub_prefix claims.sub ≡ some digits
  pub account : parse_int digits ≡ some i
  pub not_zero : i ≢ 0

guarded :
    {A : Type 0} (b : Bool) (e : SessionError) (m : Answer A) {a : A}
    → (if b then Answer.refused e else m) ≡ Answer.granted a
    → (b ≡ false) × (m ≡ Answer.granted a)
guarded true e m h = cc
guarded false e m h = (refl, h)

module _ (c : Codec) (now : ℕ) where
  -- An account's number that was read.
  numbered : (o : Option ℕ) {i : ℕ} → account_in c o ≡ Answer.granted i → (o ≡ some i) × (i ≢ 0)
  numbered none h = absurd (cc)
  numbered (some n) {i} h = elim (Bool-cases (n == 0)) [
    | inl zero_id ↦ absurd (let h' = rw zero_id at h in cc)
    | inr fine ↦
        let same : n ≡ i = (let h' = rw fine at h in cc) in
        let other : n ≢ 0 = λ e. absurd (ground arith) in
        (ap (λ (k : ℕ). some k) same, rw (← same) other)
  ]

  module _ (secret token head payload signature : Text)
      (parts : split b'.' token ≡ head ∷ payload ∷ signature ∷ []) {i : ℕ} where
    named :
        (json : Text) (k : Claims) (rest : Option Text)
        → c.unb64 signature ≡ some (c.hmac (head ++ b'.' ∷ payload) secret)
        → c.unb64 payload ≡ some json
        → c.unmarshal json ≡ some k
        → k.iss ≡ session_issuer
        → now / second ≤ k.exp
        → strip sub_prefix k.sub ≡ rest
        → subject_in c rest ≡ Answer.granted i
        → IsSession c now secret token i
    named json k none s d r iss exp sub h = absurd (cc)
    named json k (some digits) s d r iss exp sub h =
        let n = numbered (parse_int digits) h in
        record {
          head = head;
          payload = payload;
          signature = signature;
          json = json;
          claims = k;
          digits = digits;
          parts = parts;
          signed = s;
          decodes = d;
          reads = r;
          issuer = iss;
          unexpired = exp;
          subject = sub;
          account = n.0;
          not_zero = n.1;
        }

    claimed :
        (json : Text) (o : Option Claims)
        → c.unb64 signature ≡ some (c.hmac (head ++ b'.' ∷ payload) secret)
        → c.unb64 payload ≡ some json
        → c.unmarshal json ≡ o
        → judge_claims c now o ≡ Answer.granted i
        → IsSession c now secret token i
    claimed json none s d r h = absurd (cc)
    claimed json (some k) s d r h =
        let issued =
          guarded (not (equal k.iss session_issuer)) SessionError.unexpected_issuer _ h in
        let live = guarded (ltb k.exp (now / second)) SessionError.expired _ issued.1 in
        named json k (strip sub_prefix k.sub) s d r (equal_to k.iss session_issuer (ground arith))
          (ground arith) refl live.1

    opened :
        (o : Option Text)
        → c.unb64 signature ≡ some (c.hmac (head ++ b'.' ∷ payload) secret)
        → c.unb64 payload ≡ o
        → judge_payload c now o ≡ Answer.granted i
        → IsSession c now secret token i
    opened none s d h = absurd (cc)
    opened (some json) s d h = claimed json (c.unmarshal json) s d refl h

    verified :
        (o : Option Text)
        → c.unb64 signature ≡ o
        → judge_signature c now secret head payload o ≡ Answer.granted i
        → IsSession c now secret token i
    verified none s h = absurd (cc)
    verified (some sig) s h =
        let body = head ++ b'.' ∷ payload in
        let matching =
          guarded (not (equal (c.hmac body secret) sig)) SessionError.invalid_signature _ h in
        let same : c.hmac body secret ≡ sig = equal_to _ sig (ground arith) in
        opened (c.unb64 payload) (rw same s) refl matching.1

  in_parts :
      (secret token : Text) (ps : List Text) {i : ℕ}
      → split b'.' token ≡ ps
      → judge_parts c now secret ps ≡ Answer.granted i
      → IsSession c now secret token i
  in_parts secret token [] e h = absurd (cc)
  in_parts secret token (p ∷ []) e h = absurd (cc)
  in_parts secret token (p ∷ q ∷ []) e h = absurd (cc)
  in_parts secret token (p ∷ q ∷ r ∷ []) e h = verified secret token p q r e (c.unb64 r) refl h
  in_parts secret token (p ∷ q ∷ r ∷ x ∷ ps) e h = absurd (cc)

  -- A session token that is accepted for an account carries the HMAC of its first two parts under the
  -- secret, which is not empty, and claims of this service for that account that are not expired.
  pub validate-IsSession :
      (token secret : Text) {i : ℕ}
      → validate_session_token c now token secret ≡ Answer.granted i
      → (secret ≢ []) × IsSession c now secret token i
  unfolding validate_session_token
  validate-IsSession token [] h = absurd (cc)
  validate-IsSession token (x ∷ xs) h =
      (λ e. absurd (cc), in_parts (x ∷ xs) token (split b'.' token) refl h)
