-- ===== src/Date/Formats.antt =====
-- The two obsolete formats of a date (RFC 7231, section 7.1.1.1), which src/date.rs reads and does
-- not write: reference printers.
use async_h.Base.{
  ℕ, ◌+◌, ◌/◌, ◌%◌, [], ◌∷◌, ◌++◌, ◌==◌, ltb, if◌then◌else◌, Result, ok, panic, ◌>>=◌,
}
use async_h.Base.Bytes.{Bytes, codes}
use async_h.Date.{HttpDate}
use async_h.Date.Display.{week_day_name, month_name, two_digits, four_digits}

unfoldable pub long_week_day_name : ℕ → Result Bytes
long_week_day_name n =
    if n == 1
    then ok (codes "Monday")
    else if n == 2
    then ok (codes "Tuesday")
    else if n == 3
    then ok (codes "Wednesday")
    else if n == 4
    then ok (codes "Thursday")
    else if n == 5
    then ok (codes "Friday")
    else if n == 6
    then ok (codes "Saturday")
    else if n == 7
    then ok (codes "Sunday")
    else panic

abbrev pub clock : HttpDate → Bytes
clock d = two_digits d.hour ++ (b':' ∷ two_digits d.minute ++ (b':' ∷ two_digits d.second))

-- What follows the name of the day in `Sunday, 06-Nov-94 08:49:37 GMT`.
abbrev pub rfc850_rest : Bytes → HttpDate → Bytes
rfc850_rest month d =
    two_digits d.day
    ++ (b'-' ∷ month ++ (b'-' ∷ two_digits (d.year % 100) ++ (b' ' ∷ clock d ++ codes " GMT")))

unfoldable pub print_rfc850 : HttpDate → Result Bytes
unfolding long_week_day_name month_name
print_rfc850 d = do
  week_day ← long_week_day_name d.week_day
  month ← month_name d.month
  ok (week_day ++ (codes ", " ++ rfc850_rest month d))

-- `Sun Nov  6 08:49:37 1994`: a day below ten has a space in front.
abbrev pub padded : ℕ → Bytes
padded n = (if ltb n 10 then b' ' else b'0' + n / 10) ∷ (b'0' + n % 10) ∷ []

abbrev pub asctime_text : Bytes → Bytes → HttpDate → Bytes
asctime_text week_day month d =
    week_day
    ++ (b' ' ∷ month ++ (b' ' ∷ padded d.day ++ (b' ' ∷ clock d ++ (b' ' ∷ four_digits d.year))))

unfoldable pub print_asctime : HttpDate → Result Bytes
unfolding week_day_name month_name
print_asctime d = do
  week_day ← week_day_name d.week_day
  month ← month_name d.month
  ok (asctime_text week_day month d)
