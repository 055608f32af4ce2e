-- ===== src/Date/Seconds.antt =====
-- The conversions of src/date.rs between dates and times, as one equivalence of types: the dates of
-- the calendar, with their days of the week, and the seconds from the epoch to the end of the year
-- 9999.
use async_h.Base.{ℕ, ◌+◌, ◌*◌, ◌%◌, ◌<◌, ◌≡◌, arith, ok}
use mathlib.Core.Equiv.{IsEquiv, iso_to_equiv}
use mathlib.Core.HLevel.{Σ_prop_path}
use native.Mathlib.Bridge.{le_prop}
use async_h.Date.{HttpDate, year_9999_seconds, seconds_in_day}
use async_h.Date.Calendar.Order.{HttpDate-eq, day_number-lt, seconds_of_day-lt}
use async_h.Date.Calendar.{day_number, seconds_of_day, IsDate}
use async_h.Date.IntoTime.{into_secs}
use async_h.Date.IntoTime.Formula.{into_secs-day_number}
use async_h.Date.FromTime.{from_secs}
use async_h.Date.FromTime.Exact.{from_secs-IsExact}

abbrev pub Second : Type 0
Second = (secs : ℕ) × secs < year_9999_seconds

-- The day of the week follows from the date.
abbrev pub IsCalendarDate : HttpDate → Type 0
IsCalendarDate d = IsDate d × (d.week_day ≡ (day_number d + 3) % 7 + 1)

abbrev pub CalendarDate : Type 0
CalendarDate = (d : HttpDate) × IsCalendarDate d

IsCalendarDate-IsProp : (d : HttpDate) → IsProp (IsCalendarDate d)
IsCalendarDate-IsProp d = hlevel le_prop

from_secs-IsCalendarDate : (s : Second) → IsCalendarDate (from_secs s.0)
from_secs-IsCalendarDate (secs, h) =
    let x = from_secs-IsExact secs h in (x.is_date, omega (arith, x.week_day_is, x.day_is))

pub from_second : Second → CalendarDate
from_second s = (from_secs s.0, from_secs-IsCalendarDate s)

pub to_second : CalendarDate → Second
to_second (d, (v, w)) = (
  day_number d * seconds_in_day + seconds_of_day d,
  omega (arith, day_number-lt d v, seconds_of_day-lt d v),
)

to_second-from_second : (s : Second) → to_second (from_second s) ≡ s
unfolding from_second to_second
to_second-from_second (secs, h) =
    let x = from_secs-IsExact secs h in
    Σ_prop_path (λ n. le_prop) (omega (arith, x.day_is, x.time_is))

from_second-to_second : (c : CalendarDate) → from_second (to_second c) ≡ c
unfolding from_second to_second
from_second-to_second (d, (v, w)) =
    let x = from_secs-IsExact (to_second (d, (v, w))).0 (to_second (d, (v, w))).1 in
    let t = seconds_of_day-lt d v in
    Σ_prop_path IsCalendarDate-IsProp (
      HttpDate-eq (from_secs (to_second (d, (v, w))).0) d x.is_date v (omega (arith, x.day_is))
        (omega (arith, x.time_is)) (omega (arith, x.week_day_is, w)))

-- `From<SystemTime>` is an equivalence of types: between the seconds from the epoch to the end of
-- the year 9999 and the dates that exist with the right day of the week. Its inverse is the
-- conversion that `From<HttpDate>` computes, with no panic.
pub from_second-IsEquiv :
    IsEquiv from_second
    × ((c : CalendarDate) → into_secs c.0 ≡ ok (to_second c).0)
    × ((c : CalendarDate) → from_second (to_second c) ≡ c)
unfolding from_second to_second
from_second-IsEquiv = (
  (iso_to_equiv (record {
    fun = from_second;
    inv = to_second;
    rinv = from_second-to_second;
    linv = to_second-from_second;
  })).1,
  λ c. into_secs-day_number c.0 c.1.0,
  from_second-to_second,
)
