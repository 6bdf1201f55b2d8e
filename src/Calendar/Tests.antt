-- ===== src/Calendar/Tests.antt =====
-- The calendar theorems at the last days of January and February.
use lurus_identity.Base.{ℕ, ◌⊎◌, ◌+◌, ◌*◌, ◌≡◌, refl, arith, ltb, if◌then◌else◌}
use lurus_identity.Calendar.{Date, days_in_month, add_months_clamped, add_year}
use lurus_identity.Calendar.Clamp.{IsDate, add_months_clamped_lem, add_year_lem}

abbrev date : ℕ → ℕ → ℕ → Date
date y m d = record { year = y; month = m; day = d; clock = 5 }

january_31 : IsDate (date 2026 1 31)
unfolding days_in_month
january_31 = record {
  month_pos = omega arith;
  month_le = omega arith;
  day_pos = omega arith;
  day_le = omega arith;
}

february_29 : IsDate (date 2028 2 29)
unfolding days_in_month
february_29 = record {
  month_pos = omega arith;
  month_le = omega arith;
  day_pos = omega arith;
  day_le = omega arith;
}

clamped : add_months_clamped (date 2026 1 31) 1 ≡ date 2026 2 28
unfolding add_months_clamped days_in_month
clamped = refl

add_months_clamped_lem_example :
    let u = add_months_clamped (date 2026 1 31) 1 in
    IsDate u
    × (12 * u.year + u.month ≡ 12 * 2026 + 1 + 1)
    × (u.clock ≡ 5)
    × (u.day ≡ (if ltb (days_in_month u.year u.month) 31 then days_in_month u.year u.month else 31))
add_months_clamped_lem_example = add_months_clamped_lem (date 2026 1 31) 1 january_31

add_year_lem_example :
    let u = add_year (date 2028 2 29) in
    IsDate u
    × (u.year ≡ 2028 + 1)
    × ((u.month ≡ 2) × (u.day ≡ 29)
        ⊎ ((date 2028 2 29).month ≡ 2) × ((date 2028 2 29).day ≡ 29) × (u.month ≡ 3) × (u.day ≡ 1))
add_year_lem_example = add_year_lem (date 2028 2 29) february_29
