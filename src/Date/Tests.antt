-- ===== src/Date/Tests.antt =====
-- Runs of src/date.rs on the inputs of its unit tests, and instances of its theorems.
use async_h.Base.{
  ℕ, ◌*◌, ◌/◌, ◌≡◌, ◌↔◌, ◌⊎◌, refl, arith, ok, err, panic, ◌>>=◌, invalid_date_time, IsSafe,
}
use async_h.Base.Int.{ℤ, pos, negsuc, ◌≤ℤ◌}
use async_h.Base.Bytes.{codes}
use async_h.Date.{HttpDate, is_valid, nanos_in_second}
use async_h.Date.Parse.{parse_http_date, parsers, from_str}
use async_h.Date.Display.{fmt_http_date, fmt, week_day_name, month_name}
use async_h.Date.FromTime.{from_system_time}
use async_h.Date.IntoTime.{partial_cmp}
use async_h.Date.Calendar.{IsDate, days_of_years, days_in_month}
use async_h.Date.FromTime.Exact.{IsExact, from_system_time-IsExact, from_system_time_panics}
use async_h.Date.Parse.Obsolete.{asctime, print, from_str-print}
use async_h.Date.Formats.{print_rfc850, print_asctime}
use async_h.Date.RoundTrip.{parse_http_date-fmt_http_date, parse_http_date-IsSafe}
use async_h.Date.Compare.{chronological, partial_cmp-chronological}
use async_h.Base.Bytes.Utf8.{from_utf8}

abbrev at_secs : ℕ → ℤ
at_secs n = pos (n * nanos_in_second)

rfc_example :
    (parse_http_date (codes "Sun, 06 Nov 1994 08:49:37 GMT") ≡ ok (at_secs 784111777))
    × (parse_http_date (codes "Sunday, 06-Nov-94 08:49:37 GMT") ≡ ok (at_secs 784111777))
    × (parse_http_date (codes "Sun Nov  6 08:49:37 1994") ≡ ok (at_secs 784111777))
unfolding parsers
rfc_example = (refl, refl, refl)

fmt_example :
    (fmt_http_date (at_secs 0) ≡ ok (codes "Thu, 01 Jan 1970 00:00:00 GMT"))
    × (fmt_http_date (at_secs 1475419451) ≡ ok (codes "Sun, 02 Oct 2016 14:44:11 GMT"))
unfolding fmt_http_date fmt week_day_name month_name from_utf8 from_system_time
fmt_example = (refl, refl)

errors : parse_http_date (codes "Sun Nov 10 08:00:00 1000") ≡ err invalid_date_time
unfolding parsers
errors = refl

-- A moment of 2016-10-02, 14:44:11, and its date.
abbrev moment : ℕ
moment = 1475419451250000000

abbrev sunday : HttpDate
sunday = record {
  second = 11;
  minute = 44;
  hour = 14;
  day = 2;
  month = 10;
  year = 2016;
  week_day = 7;
}

-- The same with another day of the week.
abbrev monday : HttpDate
monday = record {
  second = 11;
  minute = 44;
  hour = 14;
  day = 2;
  month = 10;
  year = 2016;
  week_day = 1;
}

sunday-IsDate : IsDate sunday
unfolding days_in_month
sunday-IsDate = record {
  year_in = (omega arith, omega arith);
  month_in = (omega arith, omega arith);
  day_in = (omega arith, omega arith);
  time_in = (omega arith, omega arith, omega arith);
}

monday-IsDate : IsDate monday
unfolding days_in_month
monday-IsDate = record {
  year_in = (omega arith, omega arith);
  month_in = (omega arith, omega arith);
  day_in = (omega arith, omega arith);
  time_in = (omega arith, omega arith, omega arith);
}

parse_http_date-fmt_http_date_example :
    (fmt_http_date (pos moment) >>= parse_http_date)
    ≡ ok (pos (moment / nanos_in_second * nanos_in_second))
parse_http_date-fmt_http_date_example = parse_http_date-fmt_http_date moment (omega arith)

parse_http_date-IsSafe_example : IsSafe (parse_http_date (codes "Sunday, 06-Nov-94"))
parse_http_date-IsSafe_example = parse_http_date-IsSafe (codes "Sunday, 06-Nov-94")

from_system_time-IsExact_example :
    (d : HttpDate) × (from_system_time (pos moment) ≡ ok d) × IsExact (moment / nanos_in_second) d
from_system_time-IsExact_example = from_system_time-IsExact moment (omega arith)

from_system_time_panics_example :
    (from_system_time (negsuc 4) ≡ panic)
    ↔ ((negsuc 4 ≤ℤ negsuc 0) ⊎ (pos (days_of_years 8030 * 86400 * nanos_in_second) ≤ℤ negsuc 4))
from_system_time_panics_example = from_system_time_panics (negsuc 4)

from_str-print_example : (print asctime sunday >>= from_str) ≡ ok sunday
unfolding is_valid
from_str-print_example = from_str-print asctime sunday refl (omega arith)

printed_sunday :
    (print_rfc850 sunday ≡ ok (codes "Sunday, 02-Oct-16 14:44:11 GMT"))
    × (print_asctime sunday ≡ ok (codes "Sun Oct  2 14:44:11 2016"))
unfolding print_rfc850 print_asctime
printed_sunday = (refl, refl)

partial_cmp-chronological_example : partial_cmp sunday monday ≡ ok (chronological sunday monday)
partial_cmp-chronological_example =
    partial_cmp-chronological sunday monday sunday-IsDate monday-IsDate

-- The 31st of February is read as the 2nd of March.
missing_day :
    parse_http_date (codes "Wed, 31 Feb 2016 01:00:00 GMT")
    ≡ parse_http_date (codes "Wed, 02 Mar 2016 01:00:00 GMT")
unfolding parsers
missing_day = refl
