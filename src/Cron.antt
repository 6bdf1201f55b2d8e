-- ===== src/Cron.antt =====
-- The scheduled jobs of internal/app/cron. The Redis lock that lets one pod run a job at a time, the
-- ticker and the logging are left out.
pub mod Relay
pub mod Delivery
pub mod Queue
pub mod RelayTests
pub mod Renewal
pub mod Expiry
pub mod Unique
pub mod Notification
pub mod Reminded
pub mod NotificationTests
pub mod History
pub mod Tests
use lurus_identity.Base.{ℕ, ◌+◌, List, [], ◌∷◌}
use lurus_identity.Store.{Result, ok, err, M, ⊤, pure, ◌>>=◌, try}

-- The counts of a job: how many rows were processed, and how many failed.
abbrev pub Counts : Type 0
Counts = ℕ × ℕ

unfoldable pub tally : Result ⊤ → Counts → Counts
tally (ok _) (done, failed) = (done + 1, failed)
tally (err _) (done, failed) = (done, failed + 1)

-- `for _, row := range rows`: a row that fails is counted and the next one is tried.
unfoldable pub each : {A : Type 0} → (A → M ⊤) → List A → M Counts
unfolding tally
each f [] = pure (0, 0)
each f (x ∷ xs) = do r ← try (f x); rest ← each f xs; pure (tally r rest)
