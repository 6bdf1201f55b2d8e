-- ===== src/Cron/RelayTests.antt =====
-- An outbox with one event that waits, and one that was given up.
use lurus_identity.Base.{◌≡◌, refl, Bool, true, false, none, List, [], ◌∷◌, arith, ◌==◌}
use lurus_identity.Table.{first, count, select, limit, offset}
use lurus_identity.Store.{Tables, Db, Event, OutboxEvent, empty}
use lurus_identity.Store.Run.{run}
use lurus_identity.Cron.Relay.{poll_and_publish}
use lurus_identity.Cron.Delivery.{IsKept, Call, after, after-IsKept}
use lurus_identity.Cron.Queue.{waiting, poll-fifo}

abbrev topup_event : Event
topup_event = record { subject = "identity.topup.completed"; account_id = 7; product_id = "" }

abbrev row_1 : OutboxEvent
row_1 = record { id = 1; payload = topup_event; published_at = none; attempts = 0 }

abbrev stored : Tables
stored = record empty { next_id = 2; outbox = row_1 ∷ [] }

abbrev of_account : Event → Bool
of_account ev = ev.account_id == 7

stored-IsKept : IsKept of_account stored
unfolding count first
stored-IsKept = record {
  keyed = (omega arith, refl, tt);
  backed = (λ e f. absurd (cc), tt);
  kept = omega arith;
}

abbrev calls : List Call
calls =
    Call.poll (λ r. 20)
    ∷ Call.sweep 700000000000000
    ∷ Call.publish topup_event
    ∷ Call.poll (λ r. 30)
    ∷ []

-- The first send fails.
abbrev troubled : Db
troubled = record { tables = stored; faults = false ∷ true ∷ [] }

after-IsKept_example : IsKept of_account (after calls troubled).tables
after-IsKept_example = after-IsKept of_account calls troubled stored-IsKept

poll-fifo_example :
    ((run (poll_and_publish (λ r. 20)) stored).1.sent ≡ topup_event ∷ [])
    × (waiting (run (poll_and_publish (λ r. 20)) stored).1 ≡ [])
unfolding select limit offset
poll-fifo_example = poll-fifo (λ r. 20) stored stored-IsKept.keyed (refl, tt)

abbrev row_2 : OutboxEvent
row_2 = record row_1 { attempts = 10 }

abbrev stuck : Tables
stuck = record empty { next_id = 2; outbox = row_2 ∷ [] }
