-- ===== src/Date/Calendar.antt =====
-- A reference calendar for src/date.rs: the days of the months and years counted one by one.
pub mod Order
use async_h.Base.{ℕ, zero, suc, ◌+◌, ◌-◌, ◌*◌, ◌≤◌, ◌<◌, ◌||◌, ◌==◌, if◌then◌else◌}
use async_h.Date.{HttpDate, is_leap_year, seconds_in_day, seconds_in_hour}

unfoldable pub days_in_month : ℕ → ℕ → ℕ
unfolding is_leap_year
days_in_month y m =
    if m == 2
    then (if is_leap_year y then 29 else 28)
    else if (m == 4) || (m == 6) || (m == 9) || (m == 11)
    then 30
    else 31

unfoldable pub days_in_year : ℕ → ℕ
unfolding is_leap_year
days_in_year y = if is_leap_year y then 366 else 365

-- The days of the `k` years from 1970 on.
unfoldable pub days_of_years : ℕ → ℕ
unfolding days_in_year
days_of_years zero = 0
days_of_years (suc k) = days_of_years k + days_in_year (1970 + k)

-- The days of the first `m` months of a year.
unfoldable pub days_of_months : ℕ → ℕ → ℕ
unfolding days_in_month
days_of_months y zero = 0
days_of_months y (suc m) = days_of_months y m + days_in_month y (suc m)

-- The days from 1970-01-01 to a date.
unfoldable pub day_number : HttpDate → ℕ
unfolding days_of_years days_of_months
day_number d = days_of_years (d.year - 1970) + days_of_months d.year (d.month - 1) + (d.day - 1)

unfoldable pub seconds_of_day : HttpDate → ℕ
seconds_of_day d = d.second + d.minute * 60 + d.hour * seconds_in_hour

-- A day that exists, at a time of day that exists. The day of the week is left open.
pub record IsDate (d : HttpDate) : Type 0 where
  pub year_in : (1970 ≤ d.year) × (d.year ≤ 9999)
  pub month_in : (1 ≤ d.month) × (d.month ≤ 12)
  pub day_in : (1 ≤ d.day) × (d.day ≤ days_in_month d.year d.month)
  pub time_in : (d.hour < 24) × (d.minute < 60) × (d.second < 60)
