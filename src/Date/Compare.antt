-- ===== src/Date/Compare.antt =====
-- `PartialEq` and `PartialOrd` of src/date.rs compare the dates and times, not the week days.
use Prim.Native.Nat.{Ordering, compare}
use async_h.Base.{◌<◌, ℕ, ◌+◌, ◌*◌, ◌≡◌, ◌↔◌, refl, ap, sym, ◌∙◌, true, arith, Result, ok}
use async_h.Date.{HttpDate, seconds_in_day}
use async_h.Date.Calendar.{IsDate, day_number, seconds_of_day}
use async_h.Date.Calendar.Order.{HttpDate-eq, seconds_of_day-lt, year-lt, month-lt, day-lt}
use async_h.Date.IntoTime.{eq, partial_cmp}
use async_h.Date.IntoTime.Formula.{into_secs-day_number}

abbrev pub without_week_day : HttpDate → HttpDate
without_week_day d = record d { week_day = 0 }

without-IsDate : (d : HttpDate) → IsDate d → IsDate (without_week_day d)
without-IsDate d v = record {
  year_in = v.year_in;
  month_in = v.month_in;
  day_in = v.day_in;
  time_in = v.time_in;
}

abbrev seconds : HttpDate → ℕ
seconds d = day_number d * seconds_in_day + seconds_of_day d

seconds-without : (d : HttpDate) → seconds (without_week_day d) ≡ seconds d
unfolding day_number seconds_of_day
seconds-without d = refl

seconds_inj :
    (a b : HttpDate) → IsDate a → IsDate b → a.week_day ≡ b.week_day → seconds a ≡ seconds b → a ≡ b
seconds_inj a b va vb w e =
    let la = seconds_of_day-lt a va in
    let lb = seconds_of_day-lt b vb in HttpDate-eq a b va vb (omega arith) (omega arith) w

-- Two dates that exist compare equal exactly when all their fields but the day of the week agree.
pub eq-without_week_day :
    (a b : HttpDate)
    → IsDate a
    → IsDate b
    → (eq a b ≡ ok true) ↔ (without_week_day a ≡ without_week_day b)
unfolding eq
eq-without_week_day a b va vb =
    rw (into_secs-day_number a va, into_secs-day_number b vb)
      (
        λ h.
            seconds_inj _ _ (without-IsDate a va) (without-IsDate b vb) refl
              (seconds-without a ∙ ground arith ∙ sym (seconds-without b)),
        λ h.
            let e : seconds a ≡ seconds b =
              sym (seconds-without a) ∙ ap seconds h ∙ seconds-without b in
            ground arith,
      )

-- `Ordering::then`
abbrev pub then_cmp : Ordering → Ordering → Ordering
then_cmp Ordering.lt later = Ordering.lt
then_cmp Ordering.eq later = later
then_cmp Ordering.gt later = Ordering.gt

-- The years are compared first, the seconds last.
unfoldable pub chronological : HttpDate → HttpDate → Ordering
chronological a b = then_cmp (compare a.year b.year) (
    then_cmp (compare a.month b.month) (
      then_cmp (compare a.day b.day) (
        then_cmp (compare a.hour b.hour)
          (then_cmp (compare a.minute b.minute) (compare a.second b.second)))))

-- An earlier time on one day.
time-lt :
    (a b : HttpDate)
    → IsDate a
    → IsDate b
    → then_cmp
        (compare a.hour b.hour)
        (then_cmp (compare a.minute b.minute) (compare a.second b.second))
      ≡ Ordering.lt
    → seconds_of_day a < seconds_of_day b
unfolding seconds_of_day
time-lt a b va vb h = ground (arith, va.time_in, vb.time_in)

same_day :
    (a b : HttpDate)
    → a.year ≡ b.year
    → a.month ≡ b.month
    → a.day ≡ b.day
    → day_number a ≡ day_number b
unfolding day_number
same_day a b y m d = rw (y, m, d) refl

chronological-lt :
    (a b : HttpDate) → IsDate a → IsDate b → chronological a b ≡ Ordering.lt → seconds a < seconds b
unfolding chronological
chronological-lt a b va vb h = ground (
  arith,
  year-lt a b va vb,
  month-lt a b va vb,
  day-lt a b va vb,
  same_day a b,
  time-lt a b va vb,
  seconds_of_day-lt a va,
  seconds_of_day-lt b vb,
)

same_time :
    (a b : HttpDate)
    → a.hour ≡ b.hour
    → a.minute ≡ b.minute
    → a.second ≡ b.second
    → seconds_of_day a ≡ seconds_of_day b
unfolding seconds_of_day
same_time a b h m s = rw (h, m, s) refl

chronological-eq : (a b : HttpDate) → chronological a b ≡ Ordering.eq → seconds a ≡ seconds b
unfolding chronological
chronological-eq a b h = ground (arith, same_day a b, same_time a b)

chronological-gt :
    (a b : HttpDate) → chronological a b ≡ Ordering.gt → chronological b a ≡ Ordering.lt
unfolding chronological
chronological-gt a b h = ground arith

-- For dates that exist, `partial_cmp` never panics and compares the years, the months, the days,
-- the hours, the minutes and the seconds, in this order.
pub partial_cmp-chronological :
    (a b : HttpDate) → IsDate a → IsDate b → partial_cmp a b ≡ ok (chronological a b)
unfolding partial_cmp
partial_cmp-chronological a b va vb =
    rw (into_secs-day_number a va, into_secs-day_number b vb) (go (chronological a b) refl)
  where
    go :
        (o : Ordering)
        → chronological a b ≡ o
        → ◌≡◌ {A = Result Ordering} (ok (compare (seconds a) (seconds b))) (ok (chronological a b))
    go Ordering.lt e = rw e (ground (arith, chronological-lt a b va vb e))
    go Ordering.eq e = rw e (ground (arith, chronological-eq a b e))
    go Ordering.gt e = rw e (ground (arith, chronological-lt b a vb va (chronological-gt a b e)))
