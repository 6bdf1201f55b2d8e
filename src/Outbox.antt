-- ===== src/Outbox.antt =====
-- Events leave the service through the outbox (`Insert` of internal/adapter/repo/outbox.go) and, when
-- that fails, straight to NATS. Both are wired, as cmd/server/main.go does.
pub mod Frame
use lurus_identity.Table.{insert}
use lurus_identity.Base.{ℕ, suc, none}
use lurus_identity.Store.{Event, OutboxEvent, Result, ok, err, M, ⊤, pure, ◌>>=◌, exec, ignore, try}

abbrev pub new_row : ℕ → Event → OutboxEvent
new_row i ev = record { id = i; payload = ev; published_at = none; attempts = 0 }

unfoldable pub insert_event : Event → M ⊤
insert_event ev =
    exec λ t. record t { next_id = suc t.next_id; outbox = insert (new_row t.next_id ev) t.outbox }

-- `Publish` of the NATS publisher.
unfoldable pub send : Event → M ⊤
send ev = exec (λ t. record t { sent = insert ev t.sent })

unfoldable pub fall_back : Event → Result ⊤ → M ⊤
fall_back ev (ok _) = pure tt
fall_back ev (err _) = ignore (send ev)

unfoldable pub publish_event : Event → M ⊤
unfolding fall_back
publish_event ev = do stored ← try (insert_event ev); fall_back ev stored
