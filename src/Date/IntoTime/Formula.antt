-- ===== src/Date/IntoTime/Formula.antt =====
-- The closed formulas of `From<HttpDate> for SystemTime` count the days of the calendar.
use async_h.Base.{
  ℕ, zero, suc, ◌+◌, ◌-◌, ◌*◌, ◌/◌, ◌≤◌, ◌≡◌, refl, arith, ltb, if◌then◌else◌, ◌&&◌, ok,
}
use async_h.Date.{HttpDate, is_leap_year, seconds_in_day}
use async_h.Date.IntoTime.{leap_years, days_to_month, into_secs}
use async_h.Date.Calendar.{
  days_in_month, days_in_year, days_of_years, days_of_months, day_number, seconds_of_day, IsDate,
}

-- The value of `leap_years`, for a year after 1969.
abbrev pub leaps : ℕ → ℕ
leaps year = (year - 1 - 1968) / 4 - (year - 1 - 1900) / 100 + (year - 1 - 1600) / 400

pub leap_years-eq : (y : ℕ) → 1970 ≤ y → leap_years y ≡ ok (leaps y)
unfolding leap_years
leap_years-eq y h = ground arith

pub days_of_years-eq : (k : ℕ) → days_of_years k ≡ k * 365 + leaps (1970 + k)
unfolding days_of_years days_in_year is_leap_year
days_of_years-eq zero = omega arith
days_of_years-eq (suc k) = ground (arith, days_of_years-eq k)

-- The days before a month, with the leap day.
pub days_of_months-eq :
    (y m : ℕ)
    → 1 ≤ m
    → m ≤ 12
    → (s : ℕ) × (days_to_month m ≡ ok s)
      × (days_of_months y (m - 1) ≡ (if is_leap_year y && ltb 2 m then s + 1 else s))
unfolding days_to_month days_of_months days_in_month
days_of_months-eq y zero h k = absurd (omega arith)
days_of_months-eq y (suc zero) h k = (0, refl, ground arith)
days_of_months-eq y (suc (suc zero)) h k = (31, refl, ground arith)
days_of_months-eq y (suc (suc (suc zero))) h k = (59, refl, ground arith)
days_of_months-eq y (suc (suc (suc (suc zero)))) h k = (90, refl, ground arith)
days_of_months-eq y (suc (suc (suc (suc (suc zero))))) h k = (120, refl, ground arith)
days_of_months-eq y (suc (suc (suc (suc (suc (suc zero)))))) h k = (151, refl, ground arith)
days_of_months-eq y (suc (suc (suc (suc (suc (suc (suc zero))))))) h k = (181, refl, ground arith)
days_of_months-eq y (suc (suc (suc (suc (suc (suc (suc (suc zero)))))))) h k =
    (212, refl, ground arith)
days_of_months-eq y (suc (suc (suc (suc (suc (suc (suc (suc (suc zero))))))))) h k =
    (243, refl, ground arith)
days_of_months-eq y (suc (suc (suc (suc (suc (suc (suc (suc (suc (suc zero)))))))))) h k =
    (273, refl, ground arith)
days_of_months-eq y (suc (suc (suc (suc (suc (suc (suc (suc (suc (suc (suc zero))))))))))) h k =
    (304, refl, ground arith)
days_of_months-eq y (suc (suc (suc (suc (suc (suc (suc (suc (suc (suc (suc (suc zero)))))))))))) h
      k =
    (334, refl, ground arith)
days_of_months-eq y (suc (suc (suc (suc (suc (suc (suc (suc (suc (suc (suc (suc (suc m)))))))))))))
      h k =
    absurd (omega arith)

-- For an existing date, the conversion to seconds never panics, and is the count of days and
-- seconds that the reference calendar gives.
pub into_secs-day_number :
    (d : HttpDate) → IsDate d → into_secs d ≡ ok (day_number d * seconds_in_day + seconds_of_day d)
unfolding into_secs day_number seconds_of_day
into_secs-day_number d v =
    let (s, start, before) = days_of_months-eq d.year d.month v.month_in.0 v.month_in.1 in
    rw (leap_years-eq d.year v.year_in.0, start)
      (ground (arith, before, days_of_years-eq (d.year - 1970), v.year_in.0, v.day_in.0))
