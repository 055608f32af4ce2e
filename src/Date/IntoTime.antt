-- ===== src/Date/IntoTime.antt =====
-- src/date.rs: `impl From<HttpDate> for SystemTime`, and the comparisons that rest on it.
-- Arithmetic that would wrap below zero is a panic, as in a build with overflow checks.
pub mod Formula
use async_h.Base.{
  ℕ, ◌+◌, ◌-◌, ◌*◌, ◌/◌, Bool, ◌&&◌, ltb, leb, ◌==◌, if◌then◌else◌, Result, ok, panic, ◌>>=◌,
}
use Prim.Native.Nat.{Ordering, compare}
use async_h.Base.Bytes.Slices.{checked_sub}
use async_h.Base.Int.{ℤ, pos}
use async_h.Date.{HttpDate, is_leap_year, seconds_in_day, seconds_in_hour, nanos_in_second}

pub leap_years : ℕ → Result ℕ
leap_years year = do
  a ← checked_sub (year - 1) 1968
  b ← checked_sub (year - 1) 1900
  c ← checked_sub (year - 1) 1600
  d ← checked_sub (a / 4) (b / 100)
  ok (d + c / 400)

unfoldable pub days_to_month : ℕ → Result ℕ
days_to_month month =
    if month == 1
    then ok 0
    else if month == 2
    then ok 31
    else if month == 3
    then ok 59
    else if month == 4
    then ok 90
    else if month == 5
    then ok 120
    else if month == 6
    then ok 151
    else if month == 7
    then ok 181
    else if month == 8
    then ok 212
    else if month == 9
    then ok 243
    else if month == 10
    then ok 273
    else if month == 11
    then ok 304
    else if month == 12
    then ok 334
    else panic

unfoldable pub into_secs : HttpDate → Result ℕ
unfolding leap_years days_to_month is_leap_year
into_secs d = do
  leaps ← leap_years d.year
  start ← days_to_month d.month
  ydays ← checked_sub (start + d.day) 1
  years ← checked_sub d.year 1970
  let ydays' = if is_leap_year d.year && ltb 2 d.month then ydays + 1 else ydays
  let days = years * 365 + leaps + ydays'
  ok (d.second + d.minute * 60 + d.hour * seconds_in_hour + days * seconds_in_day)

unfoldable pub into_system_time : HttpDate → Result ℤ
unfolding into_secs
into_system_time d = do secs ← into_secs d; ok (pos (secs * nanos_in_second))

-- `PartialEq` and `PartialOrd`
unfoldable pub eq : HttpDate → HttpDate → Result Bool
unfolding into_secs
eq a b = do x ← into_secs a; y ← into_secs b; ok (x == y)

unfoldable pub partial_cmp : HttpDate → HttpDate → Result Ordering
unfolding into_secs
partial_cmp a b = do x ← into_secs a; y ← into_secs b; ok (compare x y)
