-- ===== src/Date.antt =====
-- src/date.rs: the record `HttpDate`, its constants and its range check. The conversions are in the
-- children: FromTime and IntoTime (`SystemTime`), Parse (`FromStr`) and Display.
-- A `SystemTime` is the whole number of nanoseconds since the Unix epoch.
pub mod FromTime
pub mod IntoTime
pub mod Parse
pub mod Display
pub mod Formats
pub mod Seconds
pub mod UnitTests
pub mod Calendar
pub mod RoundTrip
pub mod Compare
pub mod Tests
use async_h.Base.{ℕ, ◌+◌, ◌%◌, Bool, not, ◌&&◌, ◌||◌, ltb, leb, ◌==◌}

abbrev pub imf_fixdate_length : ℕ
imf_fixdate_length = 29

abbrev pub rfc850_max_length : ℕ
rfc850_max_length = 23

abbrev pub asctime_length : ℕ
asctime_length = 24

abbrev pub year_9999_seconds : ℕ
year_9999_seconds = 253402300800

abbrev pub seconds_in_day : ℕ
seconds_in_day = 86400

abbrev pub seconds_in_hour : ℕ
seconds_in_hour = 3600

abbrev pub nanos_in_second : ℕ
nanos_in_second = 1_000_000_000

pub record HttpDate : Type 0 where
  pub second : ℕ
  pub minute : ℕ
  pub hour : ℕ
  pub day : ℕ
  pub month : ℕ
  pub year : ℕ
  pub week_day : ℕ

unfoldable pub is_valid : HttpDate → Bool
is_valid d =
    ltb d.second 60
    && ltb d.minute 60
    && ltb d.hour 24
    && ltb 0 d.day
    && ltb d.day 32
    && ltb 0 d.month
    && leb d.month 12
    && leb 1970 d.year
    && leb d.year 9999
    && leb 1 d.week_day
    && ltb d.week_day 8

unfoldable pub is_leap_year : ℕ → Bool
is_leap_year year = year % 4 == 0 && (not (year % 100 == 0) || year % 400 == 0)
