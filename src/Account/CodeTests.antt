-- ===== src/Account/CodeTests.antt =====
-- A phone whose code is another one.
use lurus_identity.Base.{◌≡◌, true, false, none, some, [], ◌∷◌}
use lurus_identity.Table.{first}
use lurus_identity.Store.{Tables, CodeKey, PendingCode, Error, err, empty}
use lurus_identity.Store.Run.{calm}
use lurus_identity.Account.Codes.{Messenger, verify_and_bind_phone}
use lurus_identity.Account.Once.{Lacks, verify_and_bind_phone-refuses}

abbrev messenger : Messenger
messenger = record {
  lower = λ s. s;
  trim = λ s. s;
  has_at_sign = λ s. false;
  sms_provider = "";
  request_reset = λ s. none;
  send_sms = λ a b. true;
  send_email = λ a b. true;
  set_password = λ a b c. true;
}

abbrev sent_code : PendingCode
sent_code = record {
  key = CodeKey.phone_verify 7 "13800138000";
  code = "123456";
  zitadel_sub = "";
  expires_at = 100;
}

abbrev waiting : Tables
waiting = record empty { pending_codes = sent_code ∷ [] }

waiting-Lacks : Lacks 20 (CodeKey.phone_verify 7 "13800138000") "654321" waiting
unfolding first
waiting-Lacks c e = let same : some sent_code ≡ some c = e in cc

verify_and_bind_phone-refuses_example :
    let out = verify_and_bind_phone messenger 20 7 "13800138000" "654321" (calm waiting) in
    ((e : Error) × (out.0 ≡ err e)) × (out.1.tables.accounts ≡ [])
verify_and_bind_phone-refuses_example =
    verify_and_bind_phone-refuses messenger 20 7 "13800138000" "654321" (calm waiting) waiting-Lacks
