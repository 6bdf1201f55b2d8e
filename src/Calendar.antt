-- ===== src/Calendar.antt =====
-- The calendar arithmetic of internal/app/subscription_service.go: expiry dates of billing cycles.
-- A time.Time in UTC is a date with the nanoseconds since its midnight; how instants and dates
-- correspond is a parameter. Leap years and month lengths are the Go library's.
pub mod Clamp
pub mod Tests
use lurus_identity.Base.{
  ℕ, zero, suc, ◌+◌, ◌-◌, ◌*◌, ◌%◌, String, Bool, true, false, ◌&&◌, ◌||◌, not, Option, none, some,
  ◌==◌, ltb, if◌then◌else◌,
}
use lurus_identity.Entity.Identity.{BillingCycle}

pub record Date : Type 0 where
  pub year : ℕ
  pub month : ℕ
  pub day : ℕ
  pub clock : ℕ

-- The correspondence of instants (nanoseconds) and dates in UTC.
pub record Zone : Type 0 where
  pub date_of : ℕ → Date
  pub instant_of : Date → ℕ

abbrev pub one_hour : ℕ
one_hour = 3600 * 1000000000

abbrev pub one_day : ℕ
one_day = 24 * one_hour

unfoldable pub is_leap : ℕ → Bool
is_leap y = (y % 4 == 0) && (not (y % 100 == 0) || (y % 400 == 0))

-- `daysInMonth`: the day before the first of the next month
unfoldable pub days_in_month : ℕ → ℕ → ℕ
unfolding is_leap
days_in_month y m =
    if m == 2
    then (if is_leap y then 29 else 28)
    else (if (m == 4) || (m == 6) || (m == 9) || (m == 11) then 30 else 31)

-- The loop `for targetMonth > 12`, as a pair of year and month. It ends within as many rounds as
-- the month has units.
unfoldable pub carry : ℕ → ℕ → ℕ → ℕ × ℕ
carry zero y m = (y, m)
carry (suc fuel) y m = let rest = carry fuel (y + 1) (m - 12) in if ltb 12 m then rest else (y, m)

unfoldable pub add_months_clamped : Date → ℕ → Date
unfolding carry
add_months_clamped t months =
    let (y, m) = carry (t.month + months) t.year (t.month + months) in
    let last = days_in_month y m in
    record t { year = y; month = m; day = if ltb last t.day then last else t.day }

-- `AddDate(1, 0, 0)`: a 29 February that the next year lacks becomes 1 March.
unfoldable pub add_year : Date → Date
add_year t =
    if ltb (days_in_month (t.year + 1) t.month) t.day
    then record t {
      year = t.year + 1;
      month = t.month + 1;
      day = t.day - days_in_month (t.year + 1) t.month;
    }
    else record t { year = t.year + 1 }

unfoldable pub calculate_expiry : Zone → ℕ → BillingCycle → Option ℕ
calculate_expiry z from BillingCycle.weekly = some (from + 7 * one_day)
calculate_expiry z from BillingCycle.monthly =
    some (z.instant_of (add_months_clamped (z.date_of from) 1))
calculate_expiry z from BillingCycle.quarterly =
    some (z.instant_of (add_months_clamped (z.date_of from) 3))
calculate_expiry z from BillingCycle.yearly = some (z.instant_of (add_year (z.date_of from)))
calculate_expiry z from BillingCycle.forever = none
calculate_expiry z from BillingCycle.one_time = none
calculate_expiry z from (BillingCycle.other s) =
    some (z.instant_of (add_months_clamped (z.date_of from) 1))
