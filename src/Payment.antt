-- ===== src/Payment.antt =====
-- internal/adapter/payment: what the providers accept as a notification of a payment. The epay and
-- Stripe libraries, HMAC and the decoding of JSON are parameters.
use lurus_identity.Base.{
  String, Bool, true, false, not, Option, none, some, List, [], ◌∷◌, str_eq, if◌then◌else◌,
}

-- What `Verify` of the epay library answers.
pub record VerifyRes : Type 0 where
  pub verify_status : Bool
  pub trade_status : String
  pub service_trade_no : String

-- `url.Values`, and the first value of each key.
abbrev pub Values : Type 0
Values = List (String × List String)

unfoldable pub flatten : Values → List (String × String)
flatten [] = []
flatten ((k, []) ∷ rest) = flatten rest
flatten ((k, v ∷ vs) ∷ rest) = (k, v) ∷ flatten rest

abbrev pub head_or_empty : List String → String
head_or_empty [] = ""
head_or_empty (v ∷ vs) = v

-- `Get` of the Go library: the first value of a key, or "".
unfoldable pub get_value : Values → String → String
get_value [] key = ""
get_value ((k, vs) ∷ rest) key =
    let later = get_value rest key in if str_eq k key then head_or_empty vs else later

-- The epay library: verification, and the status of a success.
pub record EpayClient : Type 0 where
  pub verify : List (String × String) → Option VerifyRes
  pub trade_success : String

abbrev pub epay_result : String → Option VerifyRes → Option String
epay_result success none = none
epay_result success (some r) =
    if not r.verify_status
    then none
    else if not (str_eq r.trade_status success)
    then none
    else some r.service_trade_no

-- The order number, when the callback is valid.
unfoldable pub verify_callback : EpayClient → Values → Option String
unfolding flatten
verify_callback c params = epay_result c.trade_success (c.verify (flatten params))

-- An event of the Stripe library.
pub record StripeEvent : Type 0 where
  pub id : String
  pub event_type : String
  pub client_reference_id : Option String

pub record StripeProvider : Type 0 where
  pub webhook_secret : String
  pub construct_event : String → String → String → Option StripeEvent

-- The order number, the event id and whether the webhook is valid.
abbrev pub Verified : Type 0
Verified = String × String × Bool

abbrev pub stripe_session : StripeEvent → Option String → Verified
stripe_session ev none = ("", ev.id, false)
stripe_session ev (some s) = if str_eq s "" then ("", ev.id, false) else (s, ev.id, true)

abbrev pub stripe_result : Option StripeEvent → Verified
stripe_result none = ("", "", false)
stripe_result (some ev) =
    if not (str_eq ev.event_type "checkout.session.completed")
    then ("", ev.id, true)
    else stripe_session ev ev.client_reference_id

unfoldable pub stripe_verify : StripeProvider → String → String → Verified
stripe_verify p payload sig =
    if str_eq p.webhook_secret ""
    then ("", "", false)
    else stripe_result (p.construct_event payload sig p.webhook_secret)

pub record CreemEvent : Type 0 where
  pub event_type : String
  pub order_no : String
  pub request_id : String
  pub event_id : String

-- `mac` is the HMAC in hexadecimal digits; `decode` is the JSON decoder, with "" for a field that is
-- missing.
pub record CreemProvider : Type 0 where
  pub webhook_secret : String
  pub mac : String → String → String
  pub decode : String → Option CreemEvent

abbrev pub creem_order_no : String → Option String
creem_order_no n = if str_eq n "" then none else some n

abbrev pub creem_result : Option CreemEvent → Option String
creem_result none = none
creem_result (some ev) =
    if not (str_eq ev.event_type "payment.success")
    then some ""
    else creem_order_no (if str_eq ev.order_no "" then ev.request_id else ev.order_no)

-- The order number, "" for an event of another kind, when the webhook is valid.
unfoldable pub creem_verify : CreemProvider → String → String → Option String
creem_verify p payload sig =
    if str_eq p.webhook_secret ""
    then none
    else if not (str_eq (p.mac p.webhook_secret payload) sig)
    then none
    else creem_result (p.decode payload)
