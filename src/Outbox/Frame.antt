-- ===== src/Outbox/Frame.antt =====
-- Publishing an event writes the outbox and the sent events alone.
use lurus_identity.Base.{suc, List}
use lurus_identity.Store.{Tables, Event, OutboxEvent, Result, ok, err}
use lurus_identity.Store.Keeps.{Keeps, Keeps-sql, keeps_rules}
use lurus_identity.Outbox.{insert_event, send, fall_back, publish_event}

module _ {P : Tables → Type 0}
    (frame : (t : Tables) (es : List OutboxEvent)
      → P t
      → P (record t { next_id = suc t.next_id; outbox = es }))
    (frame_sent : (t : Tables) (es : List Event) → P t → P (record t { sent = es })) where
  send-Keeps : (ev : Event) → Keeps P (send ev)
  unfolding send
  send-Keeps ev = Keeps-sql _ (λ t h. frame_sent t _ h)

  insert_event-Keeps : (ev : Event) → Keeps P (insert_event ev)
  unfolding insert_event
  insert_event-Keeps ev = Keeps-sql _ (λ t h. frame t _ h)

  fall_back-Keeps : (ev : Event) (r : Result _) → Keeps P (fall_back ev r)
  unfolding fall_back
  fall_back-Keeps ev (ok a) = search keeps_rules
  fall_back-Keeps ev (err e) = search (keeps_rules, send-Keeps)

  pub publish_event-Keeps : (ev : Event) → Keeps P (publish_event ev)
  unfolding publish_event
  publish_event-Keeps ev = search (keeps_rules, insert_event-Keeps, fall_back-Keeps)
