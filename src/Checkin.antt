-- ===== src/Checkin.antt =====
-- internal/app/checkin_service.go and internal/adapter/repo/checkin_repo.go. A day is its number, so
-- the text of the day before a day d is d - 1. Rewards are rounded to the column's four decimals.
pub mod Bounds
pub mod Tests
use lurus_identity.Base.{
  ℕ, zero, suc, ◌+◌, ◌-◌, ◌*◌, ◌/◌, Bool, true, false, ◌&&◌, Option, none, some, List, [], ◌∷◌,
  ◌==◌, leb, ltb, ℤ, pos, if◌then◌else◌,
}
use lurus_identity.Table.{first, select, insert, order_desc, limit}
use lurus_identity.Entity.Billing.{Reference}
use lurus_identity.Entity.Identity.{Checkin}
use lurus_identity.Store.{
  Tables, Error, Result, ok, err, M, pure, ◌>>=◌, ◌>>◌, raise_if, sql, query,
}
use lurus_identity.Wallet.Repo.{TxInfo, credit}

abbrev pub on_day : ℕ → ℕ → Checkin → Bool
on_day a day c = c.account_id == a && c.checkin_date == day

-- uq_checkin_daily: one row for each account and day.
unfoldable pub insert_checkin : Checkin → Option Checkin → Tables → Result Checkin × Tables
insert_checkin c (some _) t = (err Error.unique_violation, t)
insert_checkin c none t =
    let c' = record c { id = t.next_id } in
    (ok c', record t { next_id = suc t.next_id; checkins = insert c' t.checkins })

unfoldable pub create : Checkin → M Checkin
unfolding insert_checkin
create c = sql (λ t. insert_checkin c (first (on_day c.account_id c.checkin_date) t.checkins) t)

unfoldable pub get_by_account_and_date : ℕ → ℕ → M (Option Checkin)
get_by_account_and_date a day = query (λ t. first (on_day a day) t.checkins)

-- The rows before the first gap, going back from day `prev`.
unfoldable pub streak : ℕ → List Checkin → ℕ
streak prev [] = 0
streak prev (c ∷ cs) =
    let rest = streak c.checkin_date cs in if c.checkin_date + 1 == prev then suc rest else 0

unfoldable pub streak_from : ℕ → List Checkin → ℕ
unfolding streak
streak_from day [] = 0
streak_from day (c ∷ cs) = if c.checkin_date == day then suc (streak c.checkin_date cs) else 0

-- The query of `CountConsecutive`: at most 30 rows, the latest first.
unfoldable pub recent : ℕ → ℕ → List Checkin → List Checkin
recent a day cs = limit 30 (
    order_desc (λ (c : Checkin). c.checkin_date)
      (select (λ (c : Checkin). c.account_id == a && leb c.checkin_date day) cs))

unfoldable pub count_consecutive : ℕ → ℕ → M ℕ
unfolding recent streak_from
count_consecutive a day = query (λ t. streak_from day (recent a day t.checkins))

-- The loop: a factor of 1.5 for each tier, as a fraction.
unfoldable pub multiplier : ℕ → ℕ × ℕ
multiplier zero = (1, 1)
multiplier (suc tiers) = let (n, d) = multiplier tiers in (3 * n, 2 * d)

-- A fraction of 0.0001 CNY, rounded half up.
unfoldable pub rounded : ℕ → ℕ → ℕ
rounded n d = (2 * n + d) / (2 * d)

-- 0.1 CNY times the multiplier, at most 1 CNY.
unfoldable pub calculate_checkin_reward : ℕ → ℕ
unfolding multiplier rounded
calculate_checkin_reward days =
    let (n, d) = multiplier (days / 7) in
    if ltb (10000 * d) (1000 * n) then 10000 else rounded (1000 * n) d

pub record CheckinResult : Type 0 where
  pub reward_value : ℤ
  pub consecutive_days : ℕ
  pub wallet_balance : ℤ

abbrev pub checkin_info : ℕ → TxInfo
checkin_info i = record {
  tx_type = "checkin_reward";
  reference_type = "checkin";
  reference_id = Reference.checkin i;
  product_id = "";
}

abbrev pub is_some : Option Checkin → Bool
is_some none = false
is_some (some _) = true

-- The row and the credit for a streak of `days`.
unfoldable pub pay_reward : ℕ → ℕ → ℕ → M CheckinResult
unfolding calculate_checkin_reward
pay_reward a today days = do
  let reward = pos (calculate_checkin_reward days)
  c ← create (record { id = 0; account_id = a; checkin_date = today; reward_value = reward })
  tx ← credit a reward (checkin_info c.id)
  pure
      (record { reward_value = reward; consecutive_days = days; wallet_balance = tx.balance_after })

-- `today` and `later` are two readings of the clock.
unfoldable pub do_checkin : ℕ → ℕ → ℕ → M CheckinResult
unfolding pay_reward
do_checkin today later a = do
  existing ← get_by_account_and_date a today
  raise_if (is_some existing) Error.already_checked_in
  days ← count_consecutive a (later - 1)
  pay_reward a today (days + 1)

pub record CheckinStatus : Type 0 where
  pub checked_in_today : Bool
  pub consecutive_days : ℕ

-- The streak ends today, or yesterday when there is no row for today.
abbrev pub last_day : ℕ → Bool → ℕ
last_day today true = today
last_day today false = today - 1

-- `GetStatus`, without the list of the month's rows.
unfoldable pub get_status : ℕ → ℕ → M CheckinStatus
get_status today a = do
  existing ← get_by_account_and_date a today
  days ← count_consecutive a (last_day today (is_some existing))
  pure (record { checked_in_today = is_some existing; consecutive_days = days })
