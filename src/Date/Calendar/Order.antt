-- ===== src/Date/Calendar/Order.antt =====
-- Different dates have different day numbers.
use async_h.Base.{ℕ, zero, suc, ◌+◌, ◌-◌, ◌≤◌, ◌<◌, ◌≡◌, sym, arith, ◌⊎◌}
use async_h.Date.{HttpDate, seconds_in_day}
use async_h.Date.IntoTime.Formula.{days_of_years-eq}
use async_h.Date.Calendar.{
  days_in_month, days_in_year, days_of_years, days_of_months, day_number, seconds_of_day, IsDate,
}

lt_or_eq : (k l : ℕ) → k < suc l → (k < l) ⊎ (k ≡ l)
lt_or_eq k l h = grind arith

years_mono : (k l : ℕ) → k < l → days_of_years k + days_in_year (1970 + k) ≤ days_of_years l
unfolding days_of_years
years_mono k zero h = absurd (omega arith)
years_mono k (suc l) h = ground (arith, lt_or_eq k l h, years_mono k l)

months_mono :
    (y m l : ℕ) → m < l → days_of_months y m + days_in_month y (suc m) ≤ days_of_months y l
unfolding days_of_months
months_mono y m zero h = absurd (omega arith)
months_mono y m (suc l) h = ground (arith, lt_or_eq m l h, months_mono y m l)

-- The same from the month itself, and from the year itself.
month_end :
    (y m l : ℕ) → 1 ≤ m → m ≤ l → days_of_months y (m - 1) + days_in_month y m ≤ days_of_months y l
month_end y m l h k =
    let e : suc (m - 1) ≡ m = omega arith in rw e at (months_mono y (m - 1) l (omega arith))

year_end :
    (y l : ℕ)
    → 1970 ≤ y
    → y < l
    → days_of_years (y - 1970) + days_in_year y ≤ days_of_years (l - 1970)
year_end y l h k =
    let e : 1970 + (y - 1970) ≡ y = omega arith in
    rw e at (years_mono (y - 1970) (l - 1970) (omega arith))

twelve_months : (y : ℕ) → days_of_months y 12 ≡ days_in_year y
unfolding days_of_months days_in_month days_in_year
twelve_months y = ground arith

-- Days of the year run below its length.
day_of_year : HttpDate → ℕ
day_of_year d = days_of_months d.year (d.month - 1) + (d.day - 1)

day_of_year-lt : (d : HttpDate) → IsDate d → day_of_year d < days_in_year d.year
unfolding day_of_year
day_of_year-lt d v =
    omega
      (arith, twelve_months d.year, month_end d.year d.month 12 v.month_in.0 v.month_in.1, v.day_in)

three_way : (a b : ℕ) → (a < b) ⊎ ((a ≡ b) ⊎ (b < a))
three_way a b = grind arith

module _ (a b : HttpDate) (va : IsDate a) (vb : IsDate b) where
  pub year-lt : a.year < b.year → day_number a < day_number b
  unfolding day_number day_of_year
  year-lt h = omega (arith, year_end a.year b.year va.year_in.0 h, day_of_year-lt a va)

  pub month-lt : a.year ≡ b.year → a.month < b.month → day_number a < day_number b
  unfolding day_number
  month-lt e h =
      rw (← e) (
        omega (arith, month_end a.year a.month (b.month - 1) va.month_in.0, va.day_in, vb.month_in))

  pub day-lt : a.year ≡ b.year → a.month ≡ b.month → a.day < b.day → day_number a < day_number b
  unfolding day_number
  day-lt e f h = rw (← e, ← f) (omega (arith, va.day_in))

  day-eq : a.year ≡ b.year → a.month ≡ b.month → day_number a ≡ day_number b → a.day ≡ b.day
  unfolding day_number
  day-eq e f h = ground (arith, va.day_in, vb.day_in)

module _ (a b : HttpDate) (va : IsDate a) (vb : IsDate b) (same : day_number a ≡ day_number b) where
  year-eq : a.year ≡ b.year
  year-eq = ground (arith, three_way a.year b.year, year-lt a b va vb, year-lt b a vb va)

  month-eq : a.month ≡ b.month
  month-eq = ground (
    arith,
    three_way a.month b.month,
    month-lt a b va vb year-eq,
    month-lt b a vb va (sym year-eq),
  )

time_eq :
    (a b : HttpDate)
    → IsDate a
    → IsDate b
    → seconds_of_day a ≡ seconds_of_day b
    → (a.hour ≡ b.hour) × (a.minute ≡ b.minute) × (a.second ≡ b.second)
unfolding seconds_of_day
time_eq a b va vb e = omega arith

-- Two existing dates with one day number, one time of day and one day of the week are equal.
pub HttpDate-eq :
    (a b : HttpDate)
    → IsDate a
    → IsDate b
    → day_number a ≡ day_number b
    → seconds_of_day a ≡ seconds_of_day b
    → a.week_day ≡ b.week_day
    → a ≡ b
HttpDate-eq a b va vb d t w =
    let y = year-eq a b va vb d in
    let m = month-eq a b va vb d in
    ground (arith, y, m, day-eq a b va vb y m d, time_eq a b va vb t)

-- Day numbers end with the year 9999, and times of day with the day.
pub day_number-lt : (d : HttpDate) → IsDate d → day_number d < 2932897
unfolding day_number day_of_year
day_number-lt d v =
    omega (
      arith,
      year_end d.year 10000 v.year_in.0,
      v.year_in,
      day_of_year-lt d v,
      days_of_years-eq 8030,
    )

pub seconds_of_day-lt : (d : HttpDate) → IsDate d → seconds_of_day d < seconds_in_day
unfolding seconds_of_day
seconds_of_day-lt d v = omega (arith, v.time_in)
