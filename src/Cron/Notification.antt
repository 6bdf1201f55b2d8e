-- ===== src/Cron/Notification.antt =====
-- internal/app/cron/notification.go, with `ListExpiring` of internal/adapter/repo/subscription.go. The
-- texts of a mail are left out; the mail server is a statement that may fail.
use lurus_identity.Base.{
  ℕ, ◌+◌, ◌*◌, Bool, false, ◌&&◌, not, Option, none, some, List, [], ◌∷◌, ◌==◌, leb, ltb,
  if◌then◌else◌,
}
use lurus_identity.Table.{first, insert, select}
use lurus_identity.Entity.Identity.{Account, Subscription, is_active}
use lurus_identity.Store.{
  ReminderKey, Result, ok, err, M, ⊤, pure, ◌>>=◌, ◌>>◌, query, exec, try, ignore,
}
use lurus_identity.Referral.{get_account}

abbrev pub hour : ℕ
hour = 3600000000000

abbrev pub minute : ℕ
minute = 60000000000

abbrev pub remind_dedupe_extra : ℕ
remind_dedupe_extra = 48 * hour

abbrev pub reminder_days : List ℕ
reminder_days = 7 ∷ 3 ∷ 1 ∷ []

abbrev pub expires_by : ℕ → Option ℕ → Bool
expires_by limit none = false
expires_by limit (some e) = leb e limit

unfoldable pub list_expiring : ℕ → ℕ → M (List Subscription)
list_expiring now hours = query λ t.
    select
      (λ (s : Subscription). is_active s.status && expires_by (now + hours * hour) s.expires_at)
      t.subscriptions

abbrev pub is_key : ℕ → ℕ → ReminderKey → Bool
is_key sub days k = k.sub_id == sub && k.days == days

abbrev pub is_live_key : ℕ → ℕ → ℕ → ReminderKey → Bool
is_live_key now sub days k = is_key sub days k && ltb now k.expires_at

unfoldable pub find_key : ℕ → ℕ → ℕ → M (Option ReminderKey)
find_key now sub days = query (λ t. first (is_live_key now sub days) t.reminders)

unfoldable pub set_key : ℕ → ℕ → ℕ → M ⊤
set_key until sub days = exec λ t. record t {
  reminders =
      insert (record { sub_id = sub; days = days; expires_at = until })
        (select (λ k. not (is_key sub days k)) t.reminders);
}

-- The key lives until two days after the expiry; or for two days, when that is less than a minute away.
unfoldable pub key_until : ℕ → ℕ → ℕ
key_until now expires =
    if ltb (expires + remind_dedupe_extra) (now + minute)
    then now + remind_dedupe_extra
    else expires + remind_dedupe_extra

unfoldable pub send_reminder : Account → Subscription → ℕ → M ⊤
send_reminder a sub days =
    exec λ t. record t {
      mails = insert (record { to = a.email; sub_id = sub.id; days = days }) t.mails;
    }

-- How many reminders were sent and skipped, and how many attempts failed.
pub record Tally : Type 0 where
  pub sent : ℕ
  pub skipped : ℕ
  pub failed : ℕ

abbrev pub add_sent : Tally → Tally
add_sent c = record c { sent = c.sent + 1 }

abbrev pub add_skipped : Tally → Tally
add_skipped c = record c { skipped = c.skipped + 1 }

abbrev pub add_failed : Tally → Tally
add_failed c = record c { failed = c.failed + 1 }

abbrev pub after_send : ℕ → ℕ → Subscription → ℕ → Tally → Result ⊤ → M Tally
after_send now expires sub days c (err _) = pure (add_failed c)
after_send now expires sub days c (ok _) =
    ignore (set_key (key_until now expires) sub.id days) >> pure (add_sent c)

abbrev pub to_account : ℕ → ℕ → Subscription → ℕ → Tally → Result (Option Account) → M Tally
to_account now expires sub days c (ok (some a)) =
    try (send_reminder a sub days) >>= after_send now expires sub days c
to_account now expires sub days c _ = pure (add_failed c)

abbrev pub unless_sent : ℕ → ℕ → Subscription → ℕ → Tally → Result (Option ReminderKey) → M Tally
unless_sent now expires sub days c (err _) = pure (add_failed c)
unless_sent now expires sub days c (ok (some _)) = pure (add_skipped c)
unless_sent now expires sub days c (ok none) =
    try (get_account sub.account_id) >>= to_account now expires sub days c

abbrev pub remind : ℕ → ℕ → Tally → Subscription → Option ℕ → M Tally
remind now days c sub none = pure c
remind now days c sub (some expires) =
    try (find_key now sub.id days) >>= unless_sent now expires sub days c

unfoldable pub remind_all : ℕ → ℕ → Tally → List Subscription → M Tally
unfolding find_key set_key send_reminder key_until
remind_all now days c [] = pure c
remind_all now days c (sub ∷ subs) = do
  c' ← remind now days c sub sub.expires_at
  remind_all now days c' subs

abbrev pub over : ℕ → ℕ → Tally → Result (List Subscription) → M Tally
over now days c (err _) = pure (add_failed c)
over now days c (ok subs) = remind_all now days c subs

unfoldable pub run_days : ℕ → Tally → List ℕ → M Tally
unfolding list_expiring remind_all
run_days now c [] = pure c
run_days now c (days ∷ rest) = do
  r ← try (list_expiring now (days * 24))
  c' ← over now days c r
  run_days now c' rest

unfoldable pub run_notifications : ℕ → M Tally
unfolding run_days
run_notifications now = run_days now (record { sent = 0; skipped = 0; failed = 0 }) reminder_days
