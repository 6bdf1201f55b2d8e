-- ===== src/Cron/History.antt =====
-- Any sequence of calls of the subscription service and of runs of the scheduled jobs, with any
-- failing statements among them.
use lurus_identity.Base.{ℕ, String, List, [], ◌∷◌}
use lurus_identity.Entity.Identity.{Subscription}
use lurus_identity.Store.{Db, M, ⊤, pure, ◌>>◌}
use lurus_identity.Store.Keeps.{Keeps, keeps_rules}
use lurus_identity.Subscription.Service
use lurus_identity.Subscription.Service.{Settings}
use lurus_identity.Subscription.Unique.{AreUnique}
use lurus_identity.Cron.Renewal.{run_renewal}
use lurus_identity.Cron.Expiry.{run_expiry}
use lurus_identity.Cron.Unique.{
  activate-AreUnique, expire-AreUnique, end_grace-AreUnique, cancel-AreUnique,
  run_renewal-AreUnique, run_expiry-AreUnique,
}

pub data Call : Type 0 where
  activate : ℕ → ℕ → String → ℕ → String → String → Call
  expire : ℕ → ℕ → Call
  end_grace : ℕ → Call
  cancel : ℕ → String → Call
  renewal_job expiry_job : ℕ → (Subscription → ℕ) → Call

unfoldable pub perform : Settings → Call → M ⊤
perform c (Call.activate now a p plan method external) =
    Service.activate c now a p plan method external >> pure tt
perform c (Call.expire now i) = Service.expire c now i
perform c (Call.end_grace i) = Service.end_grace i
perform c (Call.cancel a p) = Service.cancel a p
perform c (Call.renewal_job now clock) = run_renewal c now clock >> pure tt
perform c (Call.expiry_job now clock) = run_expiry c now clock >> pure tt

-- The state after the calls, in turn; a call that fails is followed by the next one.
unfoldable pub after : Settings → List Call → Db → Db
after c [] s = s
after c (x ∷ xs) s = after c xs (perform c x s).1

perform-AreUnique : (c : Settings) (x : Call) → Keeps AreUnique (perform c x)
unfolding perform
perform-AreUnique c (Call.activate now a p plan method external) =
    search (keeps_rules, activate-AreUnique)
perform-AreUnique c (Call.expire now i) = expire-AreUnique c now i
perform-AreUnique c (Call.end_grace i) = end_grace-AreUnique i
perform-AreUnique c (Call.cancel a p) = cancel-AreUnique a p
perform-AreUnique c (Call.renewal_job now clock) = search (keeps_rules, run_renewal-AreUnique)
perform-AreUnique c (Call.expiry_job now clock) = search (keeps_rules, run_expiry-AreUnique)

-- Whatever activations, expirations, cancellations and runs of the renewal and expiry jobs are made
-- from a state where ids are distinct and no account has two live subscriptions of a product, whichever
-- of their statements fail, the same holds after them.
pub after-AreUnique :
    (c : Settings) (xs : List Call) (s : Db) → AreUnique s.tables → AreUnique (after c xs s).tables
unfolding after
after-AreUnique c [] s h = h
after-AreUnique c (x ∷ xs) s h =
    after-AreUnique c xs (perform c x s).1 ((perform-AreUnique c x).at s h)
