-- ===== src/Calendar/Clamp.antt =====
-- A month-based cycle ends on a day that exists, in the month that is meant.
use lurus_identity.Base.{
  ◌⊎◌, ℕ, zero, suc, ◌+◌, ◌-◌, ◌*◌, ◌≤◌, ◌≡◌, refl, arith, ltb, if◌then◌else◌,
}
use lurus_identity.Calendar.{Date, days_in_month, carry, add_months_clamped, add_year}

-- A date of the calendar.
pub record IsDate (t : Date) : Type 0 where
  pub month_pos : 1 ≤ t.month
  pub month_le : t.month ≤ 12
  pub day_pos : 1 ≤ t.day
  pub day_le : t.day ≤ days_in_month t.year t.month

days_in_month_bounds : (y m : ℕ) → (28 ≤ days_in_month y m) × (days_in_month y m ≤ 31)
unfolding days_in_month
days_in_month_bounds y m = ground arith

-- The loop ends with a month of the year, and keeps the count of months since year 0.
carry_lem :
    (fuel y m : ℕ)
    → 1 ≤ m
    → m ≤ fuel
    → let (y', m') = carry fuel y m in (1 ≤ m') × (m' ≤ 12) × (12 * y' + m' ≡ 12 * y + m)
unfolding carry
carry_lem zero y m h k = absurd (omega arith)
carry_lem (suc fuel) y m h k = ground (arith, carry_lem fuel (y + 1) (m - 12))

-- Adding months to a date gives a date, that many months later, at the same time of day, on the same
-- day of the month or on the last day of a shorter one.
pub add_months_clamped_lem :
    (t : Date) (n : ℕ)
    → IsDate t
    → let u = add_months_clamped t n in
      IsDate u
      × (12 * u.year + u.month ≡ 12 * t.year + t.month + n)
      × (u.clock ≡ t.clock)
      × (u.day ≡ (
          if ltb (days_in_month u.year u.month) t.day then days_in_month u.year u.month else t.day))
unfolding add_months_clamped
add_months_clamped_lem t n d =
    let (y, m) = carry (t.month + n) t.year (t.month + n) in
    let (one, twelve, months) =
      carry_lem (t.month + n) t.year (t.month + n) (omega arith) (omega arith) in
    (
      record {
        month_pos = one;
        month_le = twelve;
        day_pos = ground (arith, days_in_month_bounds y m);
        day_le = ground arith;
      },
      omega arith,
      refl,
      refl,
    )

-- One year after a date is a date of the next year: the same day, or 1 March for a 29 February that
-- the next year lacks.
pub add_year_lem :
    (t : Date)
    → IsDate t
    → let u = add_year t in
      IsDate u
      × (u.year ≡ t.year + 1)
      × ((u.month ≡ t.month) × (u.day ≡ t.day)
          ⊎ (t.month ≡ 2) × (t.day ≡ 29) × (u.month ≡ 3) × (u.day ≡ 1))
unfolding add_year days_in_month
add_year_lem t d = ground arith
