-- ===== src/Idempotency.antt =====
-- internal/pkg/idempotency/webhook.go: an event id is marked in Redis by SET NX with an expiry. When
-- Redis is not configured or fails, the event is processed.
use lurus_identity.Base.{
  ℕ, ◌+◌, String, Bool, true, false, ◌&&◌, not, Option, none, some, str_eq, ltb, ℤ, pos, pos_part,
  leb_ℤ, if◌then◌else◌,
}
use lurus_identity.Table.{first, insert}
use lurus_identity.Store.{
  Tables, SeenEvent, Error, Result, ok, err, M, ⊤, pure, ◌>>=◌, sql, try, raise_if,
}

-- A day, in nanoseconds.
abbrev pub default_webhook_ttl : ℕ
default_webhook_ttl = 86400000000000

-- The deduplicator: whether Redis is configured, and how long an id is kept.
pub record WebhookDeduper : Type 0 where
  pub has_redis : Bool
  pub ttl : ℕ

-- `New`
unfoldable pub new_deduper : Bool → ℤ → WebhookDeduper
new_deduper has_redis ttl = record {
  has_redis = has_redis;
  ttl = if leb_ℤ ttl (pos 0) then default_webhook_ttl else pos_part ttl;
}

abbrev pub is_marked : ℕ → String → SeenEvent → Bool
is_marked now i e = str_eq e.event_id i && ltb now e.expires_at

-- SET NX: the answer is whether the key was set.
unfoldable pub mark_event : ℕ → ℕ → String → Option SeenEvent → Tables → Result Bool × Tables
mark_event now ttl i (some _) t = (ok false, t)
mark_event now ttl i none t =
    (ok true, record t { seen = insert (record { event_id = i; expires_at = now + ttl }) t.seen })

unfoldable pub set_nx : ℕ → ℕ → String → M Bool
unfolding mark_event
set_nx now ttl i = sql (λ t. mark_event now ttl i (first (is_marked now i) t.seen) t)

unfoldable pub judge : Result Bool → M ⊤
judge (ok was_set) = raise_if (not was_set) Error.already_processed
judge (err _) = pure tt

unfoldable pub try_process : WebhookDeduper → ℕ → String → M ⊤
unfolding judge
try_process d now i =
    if not d.has_redis
    then pure tt
    else if str_eq i ""
    then pure tt
    else (do answered ← try (set_nx now d.ttl i); judge answered)
