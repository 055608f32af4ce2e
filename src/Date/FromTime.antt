-- ===== src/Date/FromTime.antt =====
-- src/date.rs: `impl From<SystemTime> for HttpDate`. Values that the code shows to be non-negative
-- before it divides them are natural numbers here; the others are integers.
pub mod March
pub mod Months
pub mod Exact
use async_h.Base.{
  ℕ, ◌+◌, ◌-◌, ◌*◌, ◌/◌, ◌%◌, List, [], ◌∷◌, ltb, leb, ◌==◌, if◌then◌else◌, Result, ok, panic,
  ◌>>=◌,
}
use async_h.Base.Int.{ℤ, pos, negsuc, pos_part, neg_part, ◌+ℤ◌, ◌-ℤ◌, ◌*ℤ◌, ◌/ℤ◌, ◌%ℤ◌, as_unsigned}
use async_h.Date.{HttpDate, year_9999_seconds, seconds_in_day, seconds_in_hour, nanos_in_second}

abbrev pub leapoch : ℕ
leapoch = 11017

abbrev pub days_per_400y : ℕ
days_per_400y = 365 * 400 + 97

abbrev pub days_per_100y : ℕ
days_per_100y = 365 * 100 + 24

abbrev pub days_per_4y : ℕ
days_per_4y = 365 * 4 + 1

-- The 400-year cycle of a day counted from 2000-03-01, and the day within it.
pub qc_cycles : ℤ → ℤ × ℕ
unfolding ◌+ℤ◌ ◌-ℤ◌ ◌/ℤ◌ ◌%ℤ◌
qc_cycles days =
    let qc = days /ℤ days_per_400y in
    let remdays = days %ℤ days_per_400y in
    if ltb 0 (neg_part remdays)
    then (qc -ℤ pos 1, pos_part (remdays +ℤ pos days_per_400y))
    else (qc, pos_part remdays)

-- `n / size`, one less where that is `cap`.
pub cycles : ℕ → ℕ → ℕ → ℕ
cycles size cap n = if n / size == cap then n / size - 1 else n / size

abbrev pub months : List ℕ
months = 31 ∷ 30 ∷ 31 ∷ 30 ∷ 31 ∷ 31 ∷ 30 ∷ 31 ∷ 30 ∷ 31 ∷ 31 ∷ 29 ∷ []

-- The loop over `months`: the month counted from March, and the days left.
pub month_loop : List ℕ → ℕ → ℕ → ℕ × ℕ
month_loop [] month remdays = (month, remdays)
month_loop (month_len ∷ rest) month remdays =
    let later = month_loop rest (month + 1) (remdays - month_len) in
    if ltb remdays month_len then (month + 1, remdays) else later

-- The year that begins in March, and the day within it, from the 400-year cycle and its day.
pub march_year : ℤ × ℕ → ℤ × ℕ
unfolding cycles ◌+ℤ◌ ◌*ℤ◌
march_year (qc, r1) =
    let c = cycles days_per_100y 4 r1 in
    let r2 = r1 - c * days_per_100y in
    let q = cycles days_per_4y 25 r2 in
    let r3 = r2 - q * days_per_4y in
    let y = cycles 365 4 r3 in (pos (2000 + y + 4 * q + 100 * c) +ℤ pos 400 *ℤ qc, r3 - y * 365)

-- Year, month and day of the month.
pub civil : ℤ × ℕ → ℤ × ℕ × ℕ
unfolding month_loop ◌+ℤ◌
civil (year, remdays) =
    let (month, left) = month_loop months 0 remdays in
    if ltb 12 (month + 2)
    then (year +ℤ pos 1, month - 10, left + 1)
    else (year, month + 2, left + 1)

pub week_day_of : ℤ → ℤ
unfolding ◌+ℤ◌ ◌%ℤ◌
week_day_of days =
    let week_day = (pos 3 +ℤ days) %ℤ 7 in
    if leb (pos_part week_day) 0 then week_day +ℤ pos 7 else week_day

pub from_secs : ℕ → HttpDate
unfolding qc_cycles march_year civil week_day_of as_unsigned ◌-ℤ◌
from_secs secs_since_epoch =
    let days = pos (secs_since_epoch / seconds_in_day) -ℤ pos leapoch in
    let secs_of_day = secs_since_epoch % seconds_in_day in
    let (year, month, mday) = civil (march_year (qc_cycles days)) in
    record {
      second = secs_of_day % 60 % 256;
      minute = secs_of_day % seconds_in_hour / 60 % 256;
      hour = secs_of_day / seconds_in_hour % 256;
      day = mday % 256;
      month = month % 256;
      year = as_unsigned 65536 year;
      week_day = as_unsigned 256 (week_day_of days);
    }

-- `duration_since(UNIX_EPOCH).expect(…)`, then `as_secs`
pub secs_since_epoch : ℤ → Result ℕ
secs_since_epoch (pos nanos) = ok (nanos / nanos_in_second)
secs_since_epoch (negsuc n) = panic

unfoldable pub from_system_time : ℤ → Result HttpDate
unfolding from_secs secs_since_epoch
from_system_time system_time = do
  secs ← secs_since_epoch system_time
  if leb year_9999_seconds secs then panic else ok (from_secs secs)
