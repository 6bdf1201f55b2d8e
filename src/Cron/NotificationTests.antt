-- ===== src/Cron/NotificationTests.antt =====
-- A subscription that expires within the hour.
use lurus_identity.Base.{ℕ, ◌≡◌, refl, false, none, some, [], ◌∷◌}
use lurus_identity.Table.{first, select, count}
use lurus_identity.Entity.Identity.{Subscription, SubStatus}
use lurus_identity.Store.{ReminderKey, Mail, Tables, empty, pure, ◌>>=◌, try, ignore, sql}
use lurus_identity.Store.Run.{calm, run}
use lurus_identity.Referral.{get_account}
use lurus_identity.Overview.Tests.{account}
use lurus_identity.Cron.Notification.{hour, run_notifications}
use lurus_identity.Cron.Reminded.{IsReminded, run_notifications-IsReminded}

abbrev sub : Subscription
sub = record {
  id = 1;
  account_id = 7;
  product_id = "llm";
  plan_id = 2;
  status = SubStatus.active;
  started_at = some 0;
  expires_at = some 3700000000000;
  grace_until = none;
  auto_renew = false;
  payment_method = "";
  external_sub_id = "";
  renewal_attempts = 0;
  next_renewal_at = none;
}

abbrev tables : Tables
tables = record empty { accounts = account ∷ []; subscriptions = sub ∷ [] }

abbrev mail : ℕ → Mail
mail d = record { to = "u@x"; sub_id = 1; days = d }

abbrev key : ReminderKey
key = record { sub_id = 1; days = 7; expires_at = 3700000000000 }

abbrev reminded : Tables
reminded = record tables { reminders = key ∷ []; mails = mail 7 ∷ [] }

reminded-IsReminded : IsReminded hour 1 7 1 reminded
unfolding first count
reminded-IsReminded = record { key = key; live = refl; mails = refl }

run_notifications-IsReminded_example :
    IsReminded hour 1 7 1 (run_notifications hour (calm reminded)).1.tables
run_notifications-IsReminded_example =
    (run_notifications-IsReminded hour 1 7 1).at (calm reminded) reminded-IsReminded

-- The reminders of seven, three and one days are sent in one run.
all_at_once : (run (run_notifications hour) tables).1.mails ≡ mail 7 ∷ mail 3 ∷ mail 1 ∷ []
unfolding run run_notifications ◌>>=◌ try ignore sql pure first select get_account
all_at_once = refl
