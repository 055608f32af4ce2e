-- ===== src/Date/Parse.antt =====
-- src/date.rs: the three parsers, `FromStr` and `parse_http_date`.
pub mod Names
pub mod RoundTrip
pub mod Obsolete
pub mod Safe
use Prim.Native.String.{String}
use async_h.Base.{
  ℕ, ◌+◌, ◌-◌, List, [], ◌∷◌, ◌++◌, Bool, false, not, ◌&&◌, ltb, leb, ◌==◌, if◌then◌else◌, length,
  take, drop, Option, none, some, Error, Result, ok, err, panic, ◌>>=◌, ◌>>◌, ensure, or_else,
  ok_or, not_imf_fixdate, not_rfc850, not_rfc950, not_asctime, invalid_month, invalid_day,
  not_ascii, invalid_date_time,
}
use async_h.Base.Int.{ℤ}
use async_h.Base.Bytes.{Bytes, codes, equal, is_ascii, trim}
use async_h.Base.Bytes.Slices.{at, slice}
use async_h.Base.Bytes.Utf8.{from_utf8}
use async_h.Base.Bytes.Ints.{parse_unsigned}
use async_h.Date.{HttpDate, is_valid, imf_fixdate_length, rfc850_max_length, asctime_length}
use async_h.Date.IntoTime.{into_system_time}

-- `match s { key => value, …, _ => bail!(e) }`
unfoldable pub match_bytes : List (Bytes × ℕ) → Error → Bytes → Result ℕ
match_bytes [] e s = err e
match_bytes ((key, value) ∷ arms) e s = if equal s key then ok value else match_bytes arms e s

-- The arms for the months, with the bytes that stand around each name.
abbrev pub month_arms : String → String → List (Bytes × ℕ)
month_arms before after =
    let arm = λ (name : String). codes before ++ codes name ++ codes after in
    (arm "Jan", 1)
    ∷ (arm "Feb", 2)
    ∷ (arm "Mar", 3)
    ∷ (arm "Apr", 4)
    ∷ (arm "May", 5)
    ∷ (arm "Jun", 6)
    ∷ (arm "Jul", 7)
    ∷ (arm "Aug", 8)
    ∷ (arm "Sep", 9)
    ∷ (arm "Oct", 10)
    ∷ (arm "Nov", 11)
    ∷ (arm "Dec", 12)
    ∷ []

abbrev pub day_arms : String → List (Bytes × ℕ)
day_arms after =
    let arm = λ (name : String). codes name ++ codes after in
    (arm "Mon", 1)
    ∷ (arm "Tue", 2)
    ∷ (arm "Wed", 3)
    ∷ (arm "Thu", 4)
    ∷ (arm "Fri", 5)
    ∷ (arm "Sat", 6)
    ∷ (arm "Sun", 7)
    ∷ []

-- `from_utf8(part)?.parse()?`
unfoldable pub decode_number : ℕ → Bytes → Result ℕ
decode_number max part = do text ← from_utf8 part; parse_unsigned max text

-- The same on a slice.
pub number_at : ℕ → Bytes → ℕ → ℕ → Result ℕ
unfolding slice
number_at max s i j = do part ← slice s i j; decode_number max part

abbrev pub u8_max : ℕ
u8_max = 255

abbrev pub u16_max : ℕ
u16_max = 65535

-- The tests on the fixed bytes; a byte is read only if the length fits.
pub is_imf_fixdate : Bytes → Result Bool
unfolding slice at equal
is_imf_fixdate s = if not (length s == imf_fixdate_length) then ok false else do
  zone ← slice s 25 (length s)
  space ← at s 16
  colon ← at s 19
  colon' ← at s 22
  ok (equal zone (codes " GMT") && space == b' ' && colon == b':' && colon' == b':')

-- The struct literal, its fields in the order in which they are read.
pub imf_fields : Bytes → Result HttpDate
unfolding number_at slice
imf_fields s = do
  second ← number_at u8_max s 23 25
  minute ← number_at u8_max s 20 22
  hour ← number_at u8_max s 17 19
  day ← number_at u8_max s 5 7
  month_name ← slice s 7 12
  month ← match_bytes (month_arms " " " ") invalid_month month_name
  year ← number_at u16_max s 12 16
  day_name ← slice s 0 5
  week_day ← match_bytes (day_arms ", ") invalid_day day_name
  ok (record {
    second = second;
    minute = minute;
    hour = hour;
    day = day;
    month = month;
    year = year;
    week_day = week_day;
  })

unfoldable pub parse_imf_fixdate : Bytes → Result HttpDate
unfolding is_imf_fixdate imf_fields
parse_imf_fixdate s = do fits ← is_imf_fixdate s; ensure fits not_imf_fixdate; imf_fields s

-- The nested function `week_day`: the number of the day and what follows its name.
pub week_day_prefix : Bytes → ℕ → Bytes → Result (Option (ℕ × Bytes))
unfolding slice equal
week_day_prefix s week_day name = do
  start ← slice s 0 (length name)
  if equal start name
      then (do rest ← slice s (length name) (length s); ok (some (week_day, rest)))
      else ok none

-- The chain of `or_else` calls.
unfoldable pub first_week_day : List (Bytes × ℕ) → Bytes → Result (Option (ℕ × Bytes))
unfolding week_day_prefix
first_week_day [] s = ok none
first_week_day ((name, n) ∷ arms) s = do
  found ← week_day_prefix s n name
  elim found [ none ↦ first_week_day arms s | some r ↦ ok (some r) ]

abbrev pub long_day_arms : List (Bytes × ℕ)
long_day_arms =
    (codes "Monday, ", 1)
    ∷ (codes "Tuesday, ", 2)
    ∷ (codes "Wednesday, ", 3)
    ∷ (codes "Thursday, ", 4)
    ∷ (codes "Friday, ", 5)
    ∷ (codes "Saturday, ", 6)
    ∷ (codes "Sunday, ", 7)
    ∷ []

pub is_rfc850 : Bytes → Result Bool
unfolding slice at equal
is_rfc850 s = if not (length s == 22) then ok false else do
  colon ← at s 12
  colon' ← at s 15
  zone ← slice s 18 22
  ok (colon == b':' && colon' == b':' && equal zone (codes " GMT"))

-- The two-digit year and the struct literal.
pub rfc850_fields : ℕ → Bytes → Result HttpDate
unfolding number_at slice
rfc850_fields week_day s = do
  two_digits ← number_at u16_max s 7 9
  let year = if ltb two_digits 70 then two_digits + 2000 else two_digits + 1900
  second ← number_at u8_max s 16 18
  minute ← number_at u8_max s 13 15
  hour ← number_at u8_max s 10 12
  day ← number_at u8_max s 0 2
  month_name ← slice s 2 7
  month ← match_bytes (month_arms "-" "-") invalid_month month_name
  ok (record {
    second = second;
    minute = minute;
    hour = hour;
    day = day;
    month = month;
    year = year;
    week_day = week_day;
  })

-- `parse_rfc850_date` behind the name of the day.
unfoldable pub parse_rfc850_rest : ℕ → Bytes → Result HttpDate
unfolding is_rfc850 rfc850_fields
parse_rfc850_rest week_day s = do
  fits ← is_rfc850 s
  ensure fits not_rfc950
  rfc850_fields week_day s

unfoldable pub parse_rfc850_date : Bytes → Result HttpDate
unfolding first_week_day parse_rfc850_rest
parse_rfc850_date s = do
  ensure (leb rfc850_max_length (length s)) not_rfc850
  found ← first_week_day long_day_arms s
  (week_day, rest) ← ok_or found invalid_day
  parse_rfc850_rest week_day rest

pub is_asctime : Bytes → Result Bool
unfolding at
is_asctime s = if not (length s == asctime_length) then ok false else do
  space ← at s 10
  colon ← at s 13
  colon' ← at s 16
  space' ← at s 19
  ok (space == b' ' && colon == b':' && colon' == b':' && space' == b' ')

-- The day of the month, padded with a space.
unfoldable pub asctime_day : Bytes → Result ℕ
unfolding number_at at slice
asctime_day s = do
  x ← slice s 8 10
  first ← at x 0
  if first == b' ' then number_at u8_max x 1 2 else number_at u8_max x 0 (length x)

pub asctime_fields : Bytes → Result HttpDate
unfolding asctime_day number_at slice
asctime_fields s = do
  second ← number_at u8_max s 17 19
  minute ← number_at u8_max s 14 16
  hour ← number_at u8_max s 11 13
  day ← asctime_day s
  month_name ← slice s 4 8
  month ← match_bytes (month_arms "" " ") invalid_month month_name
  year ← number_at u16_max s 20 24
  day_name ← slice s 0 4
  week_day ← match_bytes (day_arms " ") invalid_day day_name
  ok (record {
    second = second;
    minute = minute;
    hour = hour;
    day = day;
    month = month;
    year = year;
    week_day = week_day;
  })

unfoldable pub parse_asctime : Bytes → Result HttpDate
unfolding is_asctime asctime_fields
parse_asctime s = do fits ← is_asctime s; ensure fits not_asctime; asctime_fields s

unfoldable pub from_str : Bytes → Result HttpDate
from_str s = do
  ensure (is_ascii s) not_ascii
  let x = trim s
  date ← or_else (parse_imf_fixdate x) (or_else (parse_rfc850_date x) (parse_asctime x))
  ensure (is_valid date) invalid_date_time
  ok date

unfoldable pub parse_http_date : Bytes → Result ℤ
parse_http_date s = do date ← from_str s; into_system_time date

-- What a run of the parsers computes with.
unfoldable pub parsers : Unit {0}
unfolding match_bytes decode_number parse_imf_fixdate parse_rfc850_date parse_asctime from_str
    parse_http_date is_ascii trim is_valid equal from_utf8 parse_unsigned into_system_time
parsers = tt
