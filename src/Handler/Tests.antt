-- ===== src/Handler/Tests.antt =====
-- A callback that is refused, and the same one again.
use lurus_identity.Base.{◌≡◌, refl, true, none, some, [], ◌∷◌, arith}
use lurus_identity.Table.{first}
use lurus_identity.Store.{ok, empty, draw}
use lurus_identity.Store.Run.{run, calm}
use lurus_identity.Subscription.Tests.{settings}
use lurus_identity.Payment.{Values, get_value}
use lurus_identity.Handler.Webhook.{WebhookHandler, Clock, epay_notify}
use lurus_identity.Handler.Duplicates.{IsChecked, epay_duplicate}

-- A library that refuses every callback.
abbrev handler : WebhookHandler
handler = record {
  settings = settings;
  epay = some (record { verify = λ kvs. none; trade_success = "TRADE_SUCCESS" });
  stripe = none;
  creem = none;
  deduper = record { has_redis = true; ttl = 100 };
}

abbrev clock : Clock
clock = record { marked_at = 10; paid_at = 11; activated_at = 12 }

abbrev later : Clock
later = record { marked_at = 20; paid_at = 21; activated_at = 22 }

abbrev params : Values
params = ("trade_no", "T1" ∷ []) ∷ []

checked : IsChecked handler (get_value params "trade_no")
unfolding get_value
checked = record { has_redis = refl; has_id = refl }

epay_duplicate_example :
    let t = (epay_notify handler clock params (calm empty)).1.tables in
    run (epay_notify handler later params) t ≡ (ok 200, t)
unfolding draw first
epay_duplicate_example =
    epay_duplicate handler clock later params params (calm empty) checked refl refl (omega arith)
      refl
