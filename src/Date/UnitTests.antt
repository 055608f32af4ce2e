-- ===== src/Date/UnitTests.antt =====
-- The unit tests in src/date.rs, but for the one on the size of the record in memory.
use Prim.Native.String.{String}
use async_h.Base.{
  ℕ, ◌+◌, ◌*◌, ◌≡◌, refl, Bool, true, false, ◌&&◌, ◌==◌, List, [], ◌∷◌, Result, ok, err,
}
use async_h.Base.Int.{ℤ, pos}
use async_h.Base.Bytes.{Bytes, codes, equal}
use async_h.Base.Bytes.Utf8.{from_utf8}
use async_h.Date.{seconds_in_day, seconds_in_hour, nanos_in_second}
use async_h.Date.FromTime.{from_system_time}
use async_h.Date.Parse.{parse_http_date, parsers}
use async_h.Date.Display.{fmt_http_date, fmt, week_day_name, month_name}

-- `assert_eq!(UNIX_EPOCH + Duration::from_secs(secs), result.unwrap())`
abbrev is_moment : ℕ → Result ℤ → Bool
is_moment secs (ok (pos nanos)) = nanos == secs * nanos_in_second
is_moment secs _ = false

abbrev is_err : {A : Type 0} → Result A → Bool
is_err (err e) = true
is_err _ = false

abbrev is_text : Bytes → Result Bytes → Bool
is_text text (ok written) = equal written text
is_text text _ = false

abbrev parses : ℕ → String → Bool
parses secs text = is_moment secs (parse_http_date (codes text))

abbrev refuses : String → Bool
refuses text = is_err (parse_http_date (codes text))

test_rfc_example : Bool
unfolding parsers
test_rfc_example =
    let d : ℕ = 784111777 in
    parses d "Sun, 06 Nov 1994 08:49:37 GMT"
    && parses d "Sunday, 06-Nov-94 08:49:37 GMT"
    && parses d "Sun Nov  6 08:49:37 1994"

test2 : Bool
unfolding parsers
test2 =
    let d : ℕ = 1475419451 in
    parses d "Sun, 02 Oct 2016 14:44:11 GMT"
    && refuses "Sun Nov 10 08:00:00 1000"
    && refuses "Sun Nov 10 08*00:00 2000"
    && refuses "Sunday, 06-Nov-94 08+49:37 GMT"

-- Steps from the moment `d`, each with the seconds that it adds.
each_step : ℕ → List (ℕ × String) → Bool
unfolding parsers
each_step d [] = true
each_step d ((secs, text) ∷ steps) = parses (d + secs) text && each_step (d + secs) steps

test3 : Bool
unfolding each_step
test3 = each_step 0 (
    (0, "Thu, 01 Jan 1970 00:00:00 GMT")
    ∷ (seconds_in_hour, "Thu, 01 Jan 1970 01:00:00 GMT")
    ∷ (seconds_in_day, "Fri, 02 Jan 1970 01:00:00 GMT")
    ∷ (2592000, "Sun, 01 Feb 1970 01:00:00 GMT")
    ∷ (2592000, "Tue, 03 Mar 1970 01:00:00 GMT")
    ∷ (31536005, "Wed, 03 Mar 1971 01:00:05 GMT")
    ∷ (15552000, "Mon, 30 Aug 1971 01:00:05 GMT")
    ∷ (6048000, "Mon, 08 Nov 1971 01:00:05 GMT")
    ∷ (864000000, "Fri, 26 Mar 1999 01:00:05 GMT")
    ∷ [])

test_fmt : Bool
unfolding fmt_http_date fmt week_day_name month_name from_utf8 from_system_time equal
test_fmt =
    is_text (codes "Thu, 01 Jan 1970 00:00:00 GMT") (fmt_http_date (pos 0))
    && is_text (codes "Sun, 02 Oct 2016 14:44:11 GMT")
        (fmt_http_date (pos (1475419451 * nanos_in_second)))

tests_pass : (test_rfc_example ≡ true) × (test2 ≡ true) × (test3 ≡ true) × (test_fmt ≡ true)
unfolding test_rfc_example test2 test3 test_fmt
tests_pass = (refl, refl, refl, refl)
