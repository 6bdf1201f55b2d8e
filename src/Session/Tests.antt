-- ===== src/Session/Tests.antt =====
-- A codec that keeps its promises, and tokens under it.
use lurus_identity.Base.{◌+◌, ◌-◌, ◌≡◌, refl, ap, Option, none, some, [], ◌∷◌, ◌++◌, arith}
use lurus_identity.Table.{limit, offset}
use lurus_identity.Text.{Text, codes, size}
use lurus_identity.Text.Split.{Lacks}
use lurus_identity.Session.{
  Claims, Codec, IsCodec, Answer, claims_of, body_of, issue_session_token, validate_session_token,
}
use lurus_identity.Session.RoundTrip.{validate-issue}

unfoldable pub shift_up : Text → Text
shift_up [] = []
shift_up (c ∷ s) = (c + 47) ∷ shift_up s

unfoldable pub shift_down : Text → Text
shift_down [] = []
shift_down (c ∷ s) = (c - 47) ∷ shift_down s

unfoldable pub write_claims : Claims → Text
write_claims k = k.iat ∷ k.exp ∷ size k.iss ∷ (k.iss ++ k.sub)

unfoldable pub read_claims : Text → Option Claims
read_claims (i ∷ e ∷ n ∷ s) = some (record { iss = limit n s; sub = offset n s; iat = i; exp = e })
read_claims _ = none

abbrev pub codec : Codec
codec = record {
  b64 = shift_up;
  unb64 = λ s. some (shift_down s);
  hmac = λ body key. key ++ body;
  marshal = write_claims;
  unmarshal = read_claims;
}

shift_back : (s : Text) → shift_down (shift_up s) ≡ s
unfolding shift_up shift_down
shift_back [] = refl
shift_back (c ∷ s) = ground (arith, shift_back s)

above : (s : Text) → Lacks b'.' (shift_up s)
unfolding shift_up
above [] = tt
above (c ∷ s) = (ground arith, above s)

first_part : (s r : Text) → limit (size s) (s ++ r) ≡ s
unfolding limit size
first_part [] r = refl
first_part (c ∷ s) r = ap (λ x. c ∷ x) (first_part s r)

second_part : (s r : Text) → offset (size s) (s ++ r) ≡ r
unfolding offset size
second_part [] r = refl
second_part (c ∷ s) r = second_part s r

claims_back : (k : Claims) → read_claims (write_claims k) ≡ some k
unfolding read_claims write_claims
claims_back k = rw (first_part k.iss k.sub) (rw (second_part k.iss k.sub) refl)

pub codec-IsCodec : IsCodec codec
codec-IsCodec = record {
  decodes = λ s. ap (λ (x : Text). some x) (shift_back s);
  undotted = above;
  reads = claims_back;
}

abbrev secret : Text
secret = codes "k"

abbrev token : Text
token =
    body_of codec (claims_of 0 5000000000 7)
    ++ b'.' ∷ codec.b64 (secret ++ body_of codec (claims_of 0 5000000000 7))

issued_now : issue_session_token codec 0 7 5000000000 secret ≡ Answer.granted token
unfolding issue_session_token
issued_now = refl

-- Two seconds later.
validate-issue_example : validate_session_token codec 2000000000 token secret ≡ Answer.granted 7
validate-issue_example =
    validate-issue codec codec-IsCodec 0 5000000000 7 2000000000 secret {token = token}
      (omega arith) (omega arith) issued_now
