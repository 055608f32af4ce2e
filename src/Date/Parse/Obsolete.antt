-- ===== src/Date/Parse/Obsolete.antt =====
-- `FromStr` of src/date.rs reads the two obsolete formats back.
use async_h.Base.{
  ℕ, zero, suc, ◌+◌, ◌/◌, ◌%◌, ◌≤◌, ◌<◌, ◌≡◌, refl, ◌∙◌, [], ◌∷◌, ◌++◌, inl, inr, true, false,
  Bool-cases, ltb, leb, if◌then◌else◌, arith, none, length, ◌==◌, Result, ok, err, panic, ◌>>=◌,
  not_imf_fixdate, invalid_day,
}
use async_h.Base.Bytes.{Bytes, codes, equal, is_ascii, is_whitespace, trim_end, trim}
use async_h.Base.Bytes.Utf8.{from_utf8-ascii}
use async_h.Base.Bytes.Ints.{parse_unsigned}
use async_h.Date.{HttpDate, is_valid, rfc850_max_length}
use async_h.Date.Parse.{
  long_day_arms, first_week_day, decode_number, u8_max, u16_max, parse_imf_fixdate,
  parse_rfc850_rest, parse_rfc850_date, parse_asctime, from_str,
}
use async_h.Date.Parse.Names.{DayName, MonthName, day_named, month_named}
use async_h.Date.Parse.RoundTrip.{decode-two_digits, decode-four_digits, Fits, is_valid_iff}
use async_h.Date.Display.{two_digits}
use async_h.Date.Formats.{
  long_week_day_name, clock, padded, rfc850_rest, print_rfc850, asctime_text, print_asctime,
}

decode-short_year : (n : ℕ) → n < 100 → decode_number u16_max (two_digits n) ≡ ok n
unfolding decode_number parse_unsigned
decode-short_year n h =
    rw (from_utf8-ascii (two_digits n) (unfold is_ascii in ground arith)) (ground arith)

module _ (d : HttpDate) (f : Fits d) (m : MonthName d.month) where
  abbrev rest : Bytes
  rest = rfc850_rest (m.a ∷ m.b ∷ m.c ∷ []) d

  rest-ascii : is_ascii rest ≡ true
  unfolding is_ascii
  rest-ascii = ground (arith, f.time_in, f.day_in, f.year_in, m.ascii)

  full_year :
      d.year ≤ 2069
      → (if ltb (d.year % 100) 70 then d.year % 100 + 2000 else d.year % 100 + 1900) ≡ d.year
  full_year h = ground (arith, f.year_in)

  parse-rest : (n : ℕ) → d.week_day ≡ n → d.year ≤ 2069 → parse_rfc850_rest n rest ≡ ok d
  unfolding parse_rfc850_rest equal
  parse-rest n e h =
      rw
        (
          ← e,
          decode-short_year (d.year % 100) (omega arith),
          decode-two_digits d.second (omega (arith, f.time_in)),
          decode-two_digits d.minute (omega (arith, f.time_in)),
          decode-two_digits d.hour (omega (arith, f.time_in)),
          decode-two_digits d.day (omega (arith, f.day_in)),
          m.read_dashes,
          full_year h,
        )
        refl

  -- The text with the name of one day.
  abbrev Reads850 : ℕ → Type 0
  Reads850 n =
      (long_week_day_name n >>= λ week_day. from_str (week_day ++ (codes ", " ++ rest))) ≡ ok d

  module _ (valid : is_valid d ≡ true) (recent : d.year ≤ 2069) where
    read850 : (n : ℕ) → 1 ≤ n → n ≤ 7 → d.week_day ≡ n → Reads850 n
    unfolding long_week_day_name from_str trim is_ascii parse_imf_fixdate parse_rfc850_date equal
    read850 zero h k e = absurd (omega arith)
    read850 (suc zero) h k e = rw (rest-ascii, parse-rest 1 e recent, valid) refl
    read850 (suc (suc zero)) h k e = rw (rest-ascii, parse-rest 2 e recent, valid) refl
    read850 (suc (suc (suc zero))) h k e = rw (rest-ascii, parse-rest 3 e recent, valid) refl
    read850 (suc (suc (suc (suc zero)))) h k e = rw (rest-ascii, parse-rest 4 e recent, valid) refl
    read850 (suc (suc (suc (suc (suc zero))))) h k e =
        rw (rest-ascii, parse-rest 5 e recent, valid) refl
    read850 (suc (suc (suc (suc (suc (suc zero)))))) h k e =
        rw (rest-ascii, parse-rest 6 e recent, valid) refl
    read850 (suc (suc (suc (suc (suc (suc (suc zero))))))) h k e =
        rw (rest-ascii, parse-rest 7 e recent, valid) refl
    read850 (suc (suc (suc (suc (suc (suc (suc (suc n)))))))) h k e = absurd (omega arith)

bind-ok :
    {A B C : Type 0} (r : Result A) (g : A → B) (k : B → Result C)
    → ((r >>= λ a. ok (g a)) >>= k) ≡ (r >>= λ a. k (g a))
bind-ok (ok a) g k = refl
bind-ok (err e) g k = refl
bind-ok panic g k = refl

-- A date that passes `is_valid` and is in the years 1970 to 2069 is read back from the format of
-- RFC 850.
from_str-print_rfc850 :
    (d : HttpDate) → is_valid d ≡ true → d.year ≤ 2069 → (print_rfc850 d >>= from_str) ≡ ok d
unfolding print_rfc850
from_str-print_rfc850 d valid recent =
    let f = (is_valid_iff d).0 valid in
    let m = month_named d.month f.month_in.0 f.month_in.1 in
    rw m.named (
      bind-ok (long_week_day_name d.week_day)
        (λ week_day. week_day ++ (codes ", " ++ rfc850_rest (m.a ∷ m.b ∷ m.c ∷ []) d)) from_str
      ∙ read850 d f m valid recent d.week_day f.week_day_in.0 f.week_day_in.1 refl)

decode-one_digit : (n : ℕ) → n < 10 → decode_number u8_max ((b'0' + n % 10) ∷ []) ≡ ok n
unfolding decode_number parse_unsigned
decode-one_digit n h =
    rw (from_utf8-ascii ((b'0' + n % 10) ∷ []) (unfold is_ascii in ground arith)) (ground arith)

trim_end-last : (s : Bytes) (c : ℕ) → is_whitespace c ≡ false → trim_end (s ++ c ∷ []) ≡ s ++ c ∷ []
unfolding trim_end
trim_end-last [] c h = rw h refl
trim_end-last (x ∷ []) c h = rw (h, trim_end) refl
trim_end-last (x ∷ y ∷ s) c h = rw (trim_end-last (y ∷ s) c h) refl

-- The name of a day and a space begin none of the long names.
no_long_day :
    (a b c m n o p q r s t u v : ℕ) (rest : Bytes)
    → first_week_day long_day_arms (a ∷ b ∷ c ∷ b' ' ∷ m ∷ n ∷ o ∷ p ∷ q ∷ r ∷ s ∷ t ∷ u ∷ v ∷ rest)
      ≡ ok none
unfolding first_week_day equal
no_long_day a b c m n o p q r s t u v rest = ground arith

no_day-parse_rfc850_date :
    (s : Bytes)
    → leb rfc850_max_length (length s) ≡ true
    → first_week_day long_day_arms s ≡ ok none
    → parse_rfc850_date s ≡ err invalid_day
unfolding parse_rfc850_date
no_day-parse_rfc850_date s h e = rw (h, e) refl

module _ (d : HttpDate) (f : Fits d) (w : DayName d.week_day) (m : MonthName d.month) where
  abbrev text : Bytes
  text = asctime_text (w.a ∷ w.b ∷ w.c ∷ []) (m.a ∷ m.b ∷ m.c ∷ []) d

  text-ascii : is_ascii text ≡ true
  unfolding is_ascii
  text-ascii = ground (arith, f.time_in, f.day_in, f.year_in, w.ascii, m.ascii)

  last_digit : is_whitespace (b'0' + d.year % 10) ≡ false
  last_digit = ground arith

  text-trim : trim text ≡ text
  unfolding trim
  text-trim = rw w.no_space (
      trim_end-last
        (w.a ∷ w.b ∷ w.c ∷ b' ' ∷ m.a ∷ m.b ∷ m.c ∷ b' ' ∷ padded d.day
          ++ (b' ' ∷ clock d
              ++ (b' '
                  ∷ (b'0' + d.year / 1000)
                  ∷ (b'0' + d.year / 100 % 10)
                  ∷ (b'0' + d.year / 10 % 10)
                  ∷ [])))
        (b'0' + d.year % 10) last_digit)

  no_digit : 10 ≤ d.day → (b'0' + d.day / 10 == b' ') ≡ false
  no_digit h = ground arith

  parse-text : parse_asctime text ≡ ok d
  unfolding parse_asctime equal
  parse-text = elim (Bool-cases (ltb d.day 10)) [
    | inl small ↦
        rw
          (
            small,
            decode-one_digit d.day (ground arith),
            decode-two_digits d.second (omega (arith, f.time_in)),
            decode-two_digits d.minute (omega (arith, f.time_in)),
            decode-two_digits d.hour (omega (arith, f.time_in)),
            m.read_space,
            decode-four_digits d.year (omega (arith, f.year_in)) (omega (arith, f.year_in)),
            w.read_space,
          )
          refl
    | inr large ↦
        rw
          (
            large,
            no_digit (ground arith),
            decode-two_digits d.day (omega (arith, f.day_in)),
            decode-two_digits d.second (omega (arith, f.time_in)),
            decode-two_digits d.minute (omega (arith, f.time_in)),
            decode-two_digits d.hour (omega (arith, f.time_in)),
            m.read_space,
            decode-four_digits d.year (omega (arith, f.year_in)) (omega (arith, f.year_in)),
            w.read_space,
          )
          refl
  ]

  not_imf : parse_imf_fixdate text ≡ err not_imf_fixdate
  unfolding parse_imf_fixdate
  not_imf = refl

  not_850 : parse_rfc850_date text ≡ err invalid_day
  not_850 =
      no_day-parse_rfc850_date text refl
        (no_long_day w.a w.b w.c m.a m.b m.c b' ' _ _ b' ' _ _ b':' _)

-- A date that passes `is_valid` is read back from the format of `asctime`.
from_str-print_asctime : (d : HttpDate) → is_valid d ≡ true → (print_asctime d >>= from_str) ≡ ok d
unfolding print_asctime from_str
from_str-print_asctime d valid =
    let f = (is_valid_iff d).0 valid in
    let w = day_named d.week_day f.week_day_in.0 f.week_day_in.1 in
    let m = month_named d.month f.month_in.0 f.month_in.1 in
    rw
      (
        w.named,
        m.named,
        text-ascii d f w m,
        text-trim d f w m,
        not_imf d f w m,
        not_850 d f w m,
        parse-text d f w m,
        valid,
      )
      refl

pub data Format : Type 0 where
  rfc850 asctime : Format

abbrev pub print : Format → HttpDate → Result Bytes
print rfc850 d = print_rfc850 d
print asctime d = print_asctime d

-- A year of two digits is one from 1970 to 2069.
abbrev pub last_year : Format → ℕ
last_year rfc850 = 2069
last_year asctime = 9999

-- A date that passes `is_valid` is read back from each of the two obsolete formats: from that of
-- RFC 850, which has two digits of the year, if its year is at most 2069.
pub from_str-print :
    (format : Format) (d : HttpDate)
    → is_valid d ≡ true
    → d.year ≤ last_year format
    → (print format d >>= from_str) ≡ ok d
from_str-print rfc850 d valid in_format = from_str-print_rfc850 d valid in_format
from_str-print asctime d valid in_format = from_str-print_asctime d valid
