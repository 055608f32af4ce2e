-- ===== src/Date/FromTime/Exact.antt =====
-- `From<SystemTime> for HttpDate` computes the calendar date, the time of day and the day of the
-- week of every second before the year 10000.
use async_h.Base.{
  ℕ, suc, ◌+◌, ◌-◌, ◌*◌, ◌/◌, ◌%◌, ◌≤◌, ◌<◌, ◌≡◌, refl, ap, ◌∙◌, true, arith, ◌⊎◌, ◌↔◌, ok, panic,
  ◌>>=◌,
}
use async_h.Base.Int.{ℤ, ◌≤ℤ◌, pos, negsuc, ◌-ℤ◌, as_unsigned}
use async_h.Date.{
  HttpDate, is_leap_year, year_9999_seconds, seconds_in_day, seconds_in_hour, nanos_in_second,
}
use async_h.Date.Calendar.Order.{HttpDate-eq, day_number-lt, seconds_of_day-lt}
use async_h.Date.Calendar.{
  days_in_month, days_of_years, days_of_months, day_number, seconds_of_day, IsDate,
}
use async_h.Date.IntoTime.{into_system_time}
use async_h.Date.IntoTime.Formula.{leaps, days_of_years-eq, into_secs-day_number}
use async_h.Date.FromTime.{
  leapoch, qc_cycles, march_year, civil, week_day_of, from_secs, from_system_time,
}
use async_h.Date.FromTime.March.{MarchDay, march_year-MarchDay}
use async_h.Date.FromTime.Months.{
  is_next, year_of, month_of, day_of, civil-eq, leap_days, CalendarDay, civil-CalendarDay,
  year_split,
}

-- The last day of the year 9999.
abbrev last_day : ℕ
last_day = 2932896

week_day_of-eq : (n : ℕ) → week_day_of (pos n -ℤ pos leapoch) ≡ pos ((n + 3) % 7 + 1)
unfolding week_day_of ◌-ℤ◌
week_day_of-eq n = ground arith

module _ {n year r : ℕ} (m : MarchDay n year r) where
  leaps-next : 1969 ≤ year → leaps (suc year) + 89 ≡ m.q + 24 * m.c + 97 * m.k
  leaps-next h = omega (arith, m.year_is, m.in_range)

  after_1969 : (1969 ≤ year) × (r ≤ 305 → 1970 ≤ year)
  after_1969 = omega (arith, m.year_is, m.days_are, m.in_range)

  before_10000 : n ≤ last_day → (year ≤ 9999) × (306 ≤ r → year ≤ 9998)
  before_10000 h = omega (arith, m.year_is, m.days_are, m.in_range)

  leap_at_365 : r ≡ 365 → is_leap_year (suc year) ≡ true
  unfolding is_leap_year
  leap_at_365 h = ground (arith, m.year_is, m.leap_day h, m.in_range)

leaps-suc : (y : ℕ) → 1970 ≤ y → leaps (suc y) ≡ leaps y + leap_days y
unfolding is_leap_year
leaps-suc y h = ground arith

-- The date that the code computes for the day `n`, before the casts to `u8` and `u16`.
record Computed (n : ℕ) : Type 0 where
  y : ℕ
  m : ℕ
  d : ℕ
  computes : civil (march_year (qc_cycles (pos n -ℤ pos leapoch))) ≡ (pos y, m, d)
  year_in : (1970 ≤ y) × (y ≤ 9999)
  month_in : (1 ≤ m) × (m ≤ 12)
  day_in : (1 ≤ d) × (d ≤ days_in_month y m)
  number : days_of_years (y - 1970) + days_of_months y (m - 1) + (d - 1) ≡ n

module _ {n year r : ℕ} (s : MarchDay n year r) (h : n ≤ last_day) where
  year_in_range : (1970 ≤ year_of year r) × (year_of year r ≤ 9999)
  year_in_range = ground (arith, year_split year r s.in_range.3, after_1969 s, before_10000 s h)

  leap_day_exists : r ≡ 365 → is_leap_year (year_of year r) ≡ true
  leap_day_exists e = ground (arith, year_split year r s.in_range.3, leap_at_365 s e)

  calendar_day : CalendarDay (year_of year r) (month_of r) (day_of r) r (is_next r)
  calendar_day = civil-CalendarDay (year_of year r) r s.in_range.3 leap_day_exists

  -- `i` is the index of the day in its year, from January 1st.
  number_this :
      (i : ℕ) → r ≤ 305 → i ≡ r + (59 + leap_days year) → days_of_years (year - 1970) + i ≡ n
  number_this i lo e =
      let from : 1970 ≤ year = (after_1969 s).1 lo in
      omega (
        arith,
        days_of_years-eq (year - 1970),
        leaps-suc year from,
        leaps-next s,
        s.year_is,
        s.days_are,
      )

  number_next : (i : ℕ) → i + 306 ≡ r → days_of_years (suc year - 1970) + i ≡ n
  number_next i e =
      omega (
        arith,
        days_of_years-eq (suc year - 1970),
        leaps-next s,
        after_1969 s,
        s.year_is,
        s.days_are,
      )

  number_is :
      days_of_years (year_of year r - 1970)
        + days_of_months (year_of year r) (month_of r - 1)
        + (day_of r - 1)
      ≡ n
  number_is =
      let y : ℕ = year_of year r in
      let i : ℕ = days_of_months y (month_of r - 1) + (day_of r - 1) in
      ground
        (arith, year_split year r s.in_range.3, calendar_day.index, number_this i, number_next i)

computed : (n : ℕ) → n ≤ last_day → Computed n
computed n h =
    let (year, r, e, s) = march_year-MarchDay n in
    let c = calendar_day s h in
    record {
      y = year_of year r;
      m = month_of r;
      d = day_of r;
      computes = ap civil e ∙ civil-eq year r;
      year_in = year_in_range s h;
      month_in = c.month_in;
      day_in = c.day_in;
      number = number_is s h;
    }

-- `d` is the date, time of day and day of the week (1 is Monday) of a second after the epoch.
pub record IsExact (secs : ℕ) (d : HttpDate) : Type 0 where
  pub is_date : IsDate d
  pub day_is : day_number d ≡ secs / seconds_in_day
  pub time_is : seconds_of_day d ≡ secs % seconds_in_day
  pub week_day_is : d.week_day ≡ (secs / seconds_in_day + 3) % 7 + 1

module _ (secs : ℕ) (c : Computed (secs / seconds_in_day)) where
  abbrev date : HttpDate
  date = record {
    second = secs % seconds_in_day % 60;
    minute = secs % seconds_in_day % seconds_in_hour / 60;
    hour = secs % seconds_in_day / seconds_in_hour;
    day = c.d;
    month = c.m;
    year = c.y;
    week_day = (secs / seconds_in_day + 3) % 7 + 1;
  }

  day_below : c.d < 32
  unfolding days_in_month
  day_below = ground (arith, c.day_in)

  from_secs-eq : from_secs secs ≡ date
  unfolding from_secs as_unsigned
  from_secs-eq = rw (c.computes, week_day_of-eq) (ground (arith, day_below, c.month_in, c.year_in))

  date-IsExact : IsExact secs date
  unfolding day_number seconds_of_day
  date-IsExact = record {
    is_date = record {
      year_in = c.year_in;
      month_in = c.month_in;
      day_in = c.day_in;
      time_in = omega arith;
    };
    day_is = c.number;
    time_is = omega arith;
    week_day_is = refl;
  }

pub from_secs-IsExact : (secs : ℕ) → secs < year_9999_seconds → IsExact secs (from_secs secs)
from_secs-IsExact secs h =
    let c = computed (secs / seconds_in_day) (omega arith) in
    rw (from_secs-eq secs c) (date-IsExact secs c)

-- Every time from the epoch to the end of the year 9999 converts, with no panic, to its exact date.
pub from_system_time-IsExact :
    (nanos : ℕ)
    → nanos / nanos_in_second < year_9999_seconds
    → (d : HttpDate) × (from_system_time (pos nanos) ≡ ok d) × IsExact (nanos / nanos_in_second) d
unfolding from_system_time
from_system_time-IsExact nanos h =
    (from_secs (nanos / nanos_in_second), ground arith, from_secs-IsExact _ h)

-- The days of the reference calendar from 1970 to the end of the year 9999.
end_of_9999 : days_of_years 8030 * 86400 ≡ year_9999_seconds
unfolding days_of_years
end_of_9999 = refl

-- The conversion panics exactly for times before the epoch and for those from the first second on
-- that is not in the 8030 years from 1970 to 9999 of the reference calendar.
pub from_system_time_panics :
    (t : ℤ)
    → (from_system_time t ≡ panic)
      ↔ ((t ≤ℤ negsuc 0) ⊎ (pos (days_of_years 8030 * 86400 * nanos_in_second) ≤ℤ t))
unfolding from_system_time
from_system_time_panics (pos n) = ground (arith, end_of_9999)
from_system_time_panics (negsuc n) = ground (arith, end_of_9999)

-- Converting to a date and back drops the fraction of the second and nothing else.
pub into_system_time-from_system_time :
    (nanos : ℕ)
    → nanos / nanos_in_second < year_9999_seconds
    → (from_system_time (pos nanos) >>= into_system_time)
      ≡ ok (pos (nanos / nanos_in_second * nanos_in_second))
unfolding into_system_time
into_system_time-from_system_time nanos h =
    let (d, e, x) = from_system_time-IsExact nanos h in
    rw (e, into_secs-day_number d x.is_date)
      (ap (λ (s : ℕ). ok (pos (s * nanos_in_second))) (omega (arith, x.day_is, x.time_is)))

-- A date that exists, with the right day of the week, survives the conversion to a time and back.
pub from_system_time-into_system_time :
    (d : HttpDate)
    → IsDate d
    → d.week_day ≡ (day_number d + 3) % 7 + 1
    → (into_system_time d >>= from_system_time) ≡ ok d
unfolding into_system_time
from_system_time-into_system_time d v w =
    let day = day_number d in
    let s : ℕ = day * seconds_in_day + seconds_of_day d in
    let fits = day_number-lt d v in
    let time = seconds_of_day-lt d v in
    let back : s * nanos_in_second / nanos_in_second ≡ s = omega arith in
    let (e, from, x) = from_system_time-IsExact (s * nanos_in_second) (omega arith) in
    rw (into_secs-day_number d v, from)
      (ap ok (
        HttpDate-eq e d x.is_date v (omega (arith, x.day_is)) (omega (arith, x.time_is))
          (omega (arith, x.week_day_is, x.day_is, w))))
