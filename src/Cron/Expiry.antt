-- ===== src/Cron/Expiry.antt =====
-- internal/app/cron/expiry.go.
use lurus_identity.Base.{ℕ, ◌+◌, List}
use lurus_identity.Entity.Identity.{Subscription}
use lurus_identity.Store.{Event, Result, ok, err, M, ⊤, pure, ◌>>=◌, ◌>>◌, try}
use lurus_identity.Calendar.{one_day}
use lurus_identity.Outbox.{publish_event}
use lurus_identity.Wallet.Repo.{expire_stale_pending_orders}
use lurus_identity.Subscription.Repo.{list_active_expired, list_grace_expired}
use lurus_identity.Subscription.Service.{Settings, expire, end_grace}
use lurus_identity.Cron.{Counts, each}

abbrev pub expired_event : Subscription → Event
expired_event sub = record {
  subject = "identity.subscription.expired";
  account_id = sub.account_id;
  product_id = sub.product_id;
}

unfoldable pub enter_grace : Settings → (Subscription → ℕ) → Subscription → M ⊤
enter_grace c clock sub = do expire c (clock sub) sub.id; publish_event (expired_event sub)

unfoldable pub leave_grace : Subscription → M ⊤
leave_grace sub = do end_grace sub.id; publish_event (expired_event sub)

-- Phase 3: the count of expired orders is added, a failure is logged.
unfoldable pub add_stale : Counts → Result ℕ → Counts
add_stale (done, failed) (ok n) = (done + n, failed)
add_stale (done, failed) (err _) = (done, failed)

-- Phases 2 and 3, with what phase 1 counted.
unfoldable pub after_first : ℕ → Counts → Result (List Subscription) → M Counts
unfolding leave_grace add_stale
after_first now (done, failed) (err _) = pure (done, failed)
after_first now (done, failed) (ok subs) = do
  more ← each leave_grace subs
  stale ← try (expire_stale_pending_orders now one_day)
  pure (add_stale (done + more.0, failed + more.1) stale)

unfoldable pub after_list :
    Settings → ℕ → (Subscription → ℕ) → Result (List Subscription) → M Counts
unfolding enter_grace after_first
after_list c now clock (err _) = pure (0, 0)
after_list c now clock (ok subs) = do
  counts ← each (enter_grace c clock) subs
  listed ← try (list_grace_expired now)
  after_first now counts listed

-- `runExpiry`: `now` is the database's clock in the queries.
unfoldable pub run_expiry : Settings → ℕ → (Subscription → ℕ) → M Counts
unfolding after_list
run_expiry c now clock = do listed ← try (list_active_expired now); after_list c now clock listed
