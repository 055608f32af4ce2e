-- ===== src/Date/Display.antt =====
-- src/date.rs: `impl Display for HttpDate` and `fmt_http_date`.
use async_h.Base.{
  ℕ, ◌+◌, ◌/◌, ◌%◌, [], ◌∷◌, ◌++◌, ◌==◌, if◌then◌else◌, Result, ok, err, panic, ◌>>=◌,
}
use async_h.Base.Int.{ℤ}
use async_h.Base.Bytes.{Bytes, codes}
use async_h.Base.Bytes.Utf8.{from_utf8}
use async_h.Date.{HttpDate}
use async_h.Date.FromTime.{from_system_time}

unfoldable pub week_day_name : ℕ → Result Bytes
week_day_name n =
    if n == 1
    then ok (codes "Mon")
    else if n == 2
    then ok (codes "Tue")
    else if n == 3
    then ok (codes "Wed")
    else if n == 4
    then ok (codes "Thu")
    else if n == 5
    then ok (codes "Fri")
    else if n == 6
    then ok (codes "Sat")
    else if n == 7
    then ok (codes "Sun")
    else panic

unfoldable pub month_name : ℕ → Result Bytes
month_name n =
    if n == 1
    then ok (codes "Jan")
    else if n == 2
    then ok (codes "Feb")
    else if n == 3
    then ok (codes "Mar")
    else if n == 4
    then ok (codes "Apr")
    else if n == 5
    then ok (codes "May")
    else if n == 6
    then ok (codes "Jun")
    else if n == 7
    then ok (codes "Jul")
    else if n == 8
    then ok (codes "Aug")
    else if n == 9
    then ok (codes "Sep")
    else if n == 10
    then ok (codes "Oct")
    else if n == 11
    then ok (codes "Nov")
    else if n == 12
    then ok (codes "Dec")
    else panic

abbrev pub two_digits : ℕ → Bytes
two_digits n = (b'0' + n / 10) ∷ (b'0' + n % 10) ∷ []

abbrev pub four_digits : ℕ → Bytes
four_digits n =
    (b'0' + n / 1000) ∷ (b'0' + n / 100 % 10) ∷ (b'0' + n / 10 % 10) ∷ (b'0' + n % 10) ∷ []

-- The 29 bytes of `buf`: the template with the names and digits put in.
unfoldable pub buffer : Bytes → Bytes → HttpDate → Bytes
buffer week_day month d =
    week_day
    ++ (b',' ∷ b' ' ∷ [])
    ++ two_digits d.day
    ++ (b' ' ∷ [])
    ++ month
    ++ (b' ' ∷ [])
    ++ four_digits d.year
    ++ (b' ' ∷ [])
    ++ two_digits d.hour
    ++ (b':' ∷ [])
    ++ two_digits d.minute
    ++ (b':' ∷ [])
    ++ two_digits d.second
    ++ codes " GMT"

-- `Result::unwrap`
abbrev pub unwrap {ℓ} : {A : Type ℓ} → Result A → Result A
unwrap (ok a) = ok a
unwrap (err e) = panic
unwrap panic = panic

unfoldable pub fmt : HttpDate → Result Bytes
unfolding buffer
fmt d = do
  week_day ← week_day_name d.week_day
  month ← month_name d.month
  unwrap (from_utf8 (buffer week_day month d))

unfoldable pub fmt_http_date : ℤ → Result Bytes
fmt_http_date t = do d ← from_system_time t; fmt d
