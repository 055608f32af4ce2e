-- ===== src/Date/RoundTrip.antt =====
-- `fmt_http_date` and `parse_http_date` of src/date.rs together.
use async_h.Base.{
  ℕ, ◌*◌, ◌/◌, ◌<◌, ◌≡◌, ◌∙◌, true, arith, Result, ok, err, panic, ◌>>=◌, ◌>>◌, ensure, IsSafe,
  IsSafe-bind, IsSafe-ensure, IsSafe-ok, >>-eq-ok, >>=-eq-ok, not_ascii, invalid_date_time, or_else,
}
use async_h.Base.Int.{pos}
use async_h.Base.Bytes.{Bytes, is_ascii, trim}
use async_h.Date.{HttpDate, is_valid, year_9999_seconds, nanos_in_second}
use async_h.Date.Calendar.{days_in_month}
use async_h.Date.IntoTime.{into_secs, into_system_time}
use async_h.Date.IntoTime.Formula.{leap_years-eq, days_of_months-eq}
use async_h.Date.FromTime.Exact.{
  IsExact, from_system_time-IsExact, into_system_time-from_system_time,
}
use async_h.Date.Parse.{
  parse_imf_fixdate, parse_rfc850_date, parse_asctime, from_str, parse_http_date,
}
use async_h.Date.Parse.RoundTrip.{is_valid_iff, from_str-fmt}
use async_h.Date.Parse.Safe.{parsers-IsSafe}
use async_h.Date.Display.{fmt, fmt_http_date}

-- The dates that `From<SystemTime>` computes pass `is_valid`.
pub IsExact-is_valid : {secs : ℕ} (d : HttpDate) → IsExact secs d → is_valid d ≡ true
unfolding days_in_month
IsExact-is_valid d x =
    let v = x.is_date in
    (is_valid_iff d).1 (record {
      time_in = ground (arith, v.time_in);
      day_in = ground (arith, v.day_in);
      month_in = v.month_in;
      year_in = v.year_in;
      week_day_in = omega (arith, x.week_day_is);
    })

through :
    {A B C : Type 0} (a : A) (r : Result B) (g : B → Result A) (k : A → Result C)
    → (r >>= g) ≡ ok a
    → (r >>= λ b. g b >>= k) ≡ k a
through a (ok b) g k h = rw h
through a (err e) g k h = cc
through a panic g k h = cc

-- Formatting a time from the epoch to the end of the year 9999 never panics, and parsing the text
-- gives the time back, without the fraction of its second.
pub parse_http_date-fmt_http_date :
    (nanos : ℕ)
    → nanos / nanos_in_second < year_9999_seconds
    → (fmt_http_date (pos nanos) >>= parse_http_date)
      ≡ ok (pos (nanos / nanos_in_second * nanos_in_second))
unfolding fmt_http_date parse_http_date
parse_http_date-fmt_http_date nanos h =
    let (d, e, x) = from_system_time-IsExact nanos h in
    let back = into_system_time-from_system_time nanos h in
    rw e (
      through d (fmt d) from_str into_system_time (from_str-fmt d (IsExact-is_valid d x))
      ∙ (rw e at back))

into_secs-IsSafe : (d : HttpDate) → is_valid d ≡ true → IsSafe (into_secs d)
unfolding into_secs
into_secs-IsSafe d v =
    let f = (is_valid_iff d).0 v in
    let (s, start, before) = days_of_months-eq d.year d.month f.month_in.0 f.month_in.1 in
    record {
      no_panic = rw (leap_years-eq d.year f.year_in.0, start) (ground (arith, f.day_in, f.year_in));
    }

from_str-is_valid : (s : Bytes) (d : HttpDate) → from_str s ≡ ok d → is_valid d ≡ true
unfolding from_str
from_str-is_valid s d h =
    let (_, rest) = >>-eq-ok (ensure (is_ascii s) not_ascii) _ h in
    let x = trim s in
    let parsed = or_else (parse_imf_fixdate x) (or_else (parse_rfc850_date x) (parse_asctime x)) in
    let (date, _, checked) =
      >>=-eq-ok parsed (λ date. ensure (is_valid date) invalid_date_time >> ok date) rest in
    let (valid, e) = >>-eq-ok (ensure (is_valid date) invalid_date_time) _ checked in ground arith

-- Parsing an arbitrary byte string returns a time or an error: no index is out of range, no
-- subtraction underflows, and no match is unreachable.
pub parse_http_date-IsSafe : (s : Bytes) → IsSafe (parse_http_date s)
unfolding parse_http_date from_str into_system_time
parse_http_date-IsSafe s =
    IsSafe-bind _ _
      (IsSafe-ensure (is_ascii s) _ _ λ _.
        IsSafe-bind _ _ (parsers-IsSafe (trim s))
          λ date _. IsSafe-ensure (is_valid date) _ _ λ _. IsSafe-ok date)
      λ date e.
        IsSafe-bind _ _ (into_secs-IsSafe date (from_str-is_valid s date e)) λ _ _. IsSafe-ok _
