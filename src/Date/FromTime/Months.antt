-- ===== src/Date/FromTime/Months.antt =====
-- The loop over `months` of `From<SystemTime> for HttpDate`, against the reference calendar.
use async_h.Base.{
  ℕ, suc, ◌+◌, ◌-◌, ◌≤◌, ◌<◌, ◌≡◌, refl, Bool, true, false, arith, ltb, leb, ◌==◌, not, ◌&&◌, ◌||◌,
  every_below, every_below_sound, if◌then◌else◌, ◌⊎◌,
}
use async_h.Base.Int.{pos}
use async_h.Date.{is_leap_year}
use async_h.Date.Calendar.{days_in_month, days_of_months}
use async_h.Date.IntoTime.{days_to_month}
use async_h.Date.IntoTime.Formula.{days_of_months-eq}
use async_h.Date.FromTime.{months, month_loop, civil}

-- Counted from March: 11 and 12 are January and February of the next year.
abbrev pub is_next : ℕ → Bool
is_next r = ltb 12 ((month_loop months 0 r).0 + 2)

abbrev pub year_of : ℕ → ℕ → ℕ
year_of year r = if is_next r then suc year else year

abbrev pub month_of : ℕ → ℕ
month_of r = let m = (month_loop months 0 r).0 in if is_next r then m - 10 else m + 2

abbrev pub day_of : ℕ → ℕ
day_of r = (month_loop months 0 r).1 + 1

pub civil-eq : (year r : ℕ) → civil (pos year, r) ≡ (pos (year_of year r), month_of r, day_of r)
unfolding civil
civil-eq year r = ground arith

-- The day of the year, counted from January 1st.
abbrev pub day_index : ℕ → ℕ → ℕ
day_index y r = days_of_months y (month_of r - 1) + (day_of r - 1)

abbrev pub leap_days : ℕ → ℕ
leap_days y = if is_leap_year y then 1 else 0

-- The days before each month, from March 1st.
starts : ℕ → ℕ
starts m =
    if m == 1
    then 0
    else if m == 2
    then 31
    else if m == 3
    then 61
    else if m == 4
    then 92
    else if m == 5
    then 122
    else if m == 6
    then 153
    else if m == 7
    then 184
    else if m == 8
    then 214
    else if m == 9
    then 245
    else if m == 10
    then 275
    else if m == 11
    then 306
    else 337

abbrev month_length : ℕ → ℕ
month_length m = starts (m + 1) - starts m

-- Where the loop stops.
record Located (r m left : ℕ) : Type 0 where
  in_range : (1 ≤ m) × (m ≤ 12)
  adds_up : starts m + left ≡ r
  before_next : m < 12 → starts m + left < starts (m + 1)

is_located : ℕ → ℕ → ℕ → Bool
is_located r m left =
    leb 1 m
    && leb m 12
    && starts m + left == r
    && (not (ltb m 12) || ltb (starts m + left) (starts (m + 1)))

is_located-Located : (r m left : ℕ) → is_located r m left ≡ true → Located r m left
unfolding is_located
is_located-Located r m left h = ground arith

located_at : ℕ → Bool
unfolding is_located
located_at r = is_located r (month_loop months 0 r).0 (month_loop months 0 r).1

located_table : every_below located_at 366 ≡ true
unfolding every_below located_at month_loop starts
located_table = refl

located : (r : ℕ) → r ≤ 365 → Located r (month_loop months 0 r).0 (month_loop months 0 r).1
unfolding located_at
located r h =
    is_located-Located r _ _ (every_below_sound located_at 366 r located_table (omega arith))

-- The months from March on, in the calendar.
this_year : (y m : ℕ) → 1 ≤ m → m ≤ 10 → days_of_months y (m + 1) ≡ starts m + 59 + leap_days y
unfolding starts days_to_month
this_year y m h k = ground (arith, days_of_months-eq y (m + 2))

next_year : (y m : ℕ) → 11 ≤ m → m ≤ 12 → days_of_months y (m - 11) + 306 ≡ starts m
unfolding starts days_to_month
next_year y m h k = ground (arith, days_of_months-eq y (m - 10))

in_month :
    (y r m left : ℕ)
    → Located r m left
    → r ≤ 365
    → (r ≡ 365 → is_leap_year y ≡ true)
    → left + 1 ≤ days_in_month y (if ltb 12 (m + 2) then m - 10 else m + 2)
unfolding starts days_in_month
in_month y r m left l h leap = ground (arith, l.in_range, l.adds_up, l.before_next)

-- What the day `r` of the year that began in March is in the calendar: `y` is its year.
pub record CalendarDay (y m d r : ℕ) (next : Bool) : Type 0 where
  pub month_in : (1 ≤ m) × (m ≤ 12)
  pub day_in : (1 ≤ d) × (d ≤ days_in_month y m)
  pub index :
      days_of_months y (m - 1) + (d - 1) + (if next then 306 else 0)
      ≡ r + (if next then 0 else 59 + leap_days y)

module _ (y r m left : ℕ) (l : Located r m left) where
  index_this : m ≤ 10 → days_of_months y (m + 2 - 1) + left ≡ r + (59 + leap_days y)
  index_this h =
      let e : m + 2 - 1 ≡ m + 1 = omega arith in
      rw e (omega (arith, this_year y m l.in_range.0 h, l.adds_up))

  index_next : 11 ≤ m → days_of_months y (m - 10 - 1) + left + 306 ≡ r
  index_next h =
      let e : m - 10 - 1 ≡ m - 11 = omega arith in
      rw e (omega (arith, next_year y m h l.in_range.1, l.adds_up))

Located-CalendarDay :
    (y r m left : ℕ)
    → Located r m left
    → r ≤ 365
    → (r ≡ 365 → is_leap_year y ≡ true)
    → CalendarDay y (if ltb 12 (m + 2) then m - 10 else m + 2) (left + 1) r (ltb 12 (m + 2))
Located-CalendarDay y r m left l h leap = record {
  month_in = ground (arith, l.in_range);
  day_in = (omega arith, in_month y r m left l h leap);
  index = ground (arith, index_this y r m left l, index_next y r m left l, l.in_range);
}

pub civil-CalendarDay :
    (y r : ℕ)
    → r ≤ 365
    → (r ≡ 365 → is_leap_year y ≡ true)
    → CalendarDay y (month_of r) (day_of r) r (is_next r)
civil-CalendarDay y r h leap = Located-CalendarDay y r _ _ (located r h) h leap

-- The two parts of a year that began in March.
pub year_split :
    (y r : ℕ) → r ≤ 365 → ((r ≤ 305) × (is_next r ≡ false)) ⊎ ((306 ≤ r) × (is_next r ≡ true))
unfolding starts
year_split y r h = ground (arith, located r h)
