-- ===== src/Cron/Relay.antt =====
-- internal/app/cron/outbox_relay.go, with the queries of internal/adapter/repo/outbox.go: the events
-- of the outbox are sent to NATS in batches. Each reading of the clock is an argument.
use lurus_identity.Base.{
  ℕ, ◌+◌, ◌-◌, Bool, true, false, none, some, List, [], ◌∷◌, ◌==◌, ltb, leb, if◌then◌else◌,
}
use lurus_identity.Table.{select, update, count, delete, limit}
use lurus_identity.Store.{
  OutboxEvent, Result, ok, err, M, ⊤, pure, ◌>>=◌, ◌>>◌, query, exec, sql, ignore, try,
}
use lurus_identity.Outbox.{send}

abbrev pub batch_size : ℕ
batch_size = 50

abbrev pub max_attempts : ℕ
max_attempts = 10

-- Seven days, in nanoseconds.
abbrev pub cleanup_age : ℕ
cleanup_age = 604800000000000

abbrev pub is_unpublished : OutboxEvent → Bool
is_unpublished r = elim r.published_at [ none ↦ true | some _ ↦ false ]

-- Rows are in the order of their ids.
unfoldable pub list_unpublished : ℕ → M (List OutboxEvent)
list_unpublished n = query (λ t. limit n (select is_unpublished t.outbox))

abbrev pub has_id : ℕ → OutboxEvent → Bool
has_id i r = r.id == i

abbrev pub set_published : ℕ → OutboxEvent → OutboxEvent
set_published now r = record r { published_at = some now }

unfoldable pub mark_published : ℕ → ℕ → M ⊤
mark_published now i =
    exec λ t. record t { outbox = update (has_id i) (set_published now) t.outbox }

abbrev pub one_more : OutboxEvent → OutboxEvent
one_more r = record r { attempts = r.attempts + 1 }

unfoldable pub increment_attempts : ℕ → M ⊤
increment_attempts i = exec (λ t. record t { outbox = update (has_id i) one_more t.outbox })

abbrev pub is_before : ℕ → OutboxEvent → Bool
is_before cutoff r = elim r.published_at [ none ↦ false | some at ↦ ltb at cutoff ]

unfoldable pub delete_published_before : ℕ → M ℕ
delete_published_before cutoff = sql λ t. (
  ok (count (is_before cutoff) t.outbox),
  record t { outbox = delete (is_before cutoff) t.outbox },
)

unfoldable pub publish_one : OutboxEvent → M ⊤
publish_one r = send r.payload

-- After an attempt to publish.
unfoldable pub record_attempt : ℕ → OutboxEvent → Result ⊤ → M ⊤
record_attempt now r (ok _) = ignore (mark_published now r.id)
record_attempt now r (err _) = ignore (increment_attempts r.id)

unfoldable pub relay_row : ℕ → OutboxEvent → M ⊤
unfolding record_attempt
relay_row now r =
    if leb max_attempts r.attempts
    then pure tt
    else (do sent ← try (publish_one r); record_attempt now r sent)

unfoldable pub relay_rows : (OutboxEvent → ℕ) → List OutboxEvent → M ⊤
unfolding relay_row
relay_rows clock [] = pure tt
relay_rows clock (r ∷ rs) = relay_row (clock r) r >> relay_rows clock rs

unfoldable pub relay_batch : (OutboxEvent → ℕ) → Result (List OutboxEvent) → M ⊤
unfolding relay_rows
relay_batch clock (ok rs) = relay_rows clock rs
relay_batch clock (err _) = pure tt

unfoldable pub poll_and_publish : (OutboxEvent → ℕ) → M ⊤
unfolding relay_batch
poll_and_publish clock = do rows ← try (list_unpublished batch_size); relay_batch clock rows

unfoldable pub cleanup : ℕ → M ⊤
cleanup now = ignore (delete_published_before (now - cleanup_age))
