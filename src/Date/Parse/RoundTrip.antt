-- ===== src/Date/Parse/RoundTrip.antt =====
-- What `Display` writes, `FromStr` reads back.
use async_h.Base.{ℕ, ◌≤◌, ◌<◌, ◌≡◌, ◌↔◌, refl, [], ◌∷◌, true, arith, ok, ◌>>=◌}
use async_h.Base.Bytes.{Bytes, equal, is_ascii, trim}
use async_h.Base.Bytes.Utf8.{from_utf8-ascii}
use async_h.Base.Bytes.Ints.{parse_unsigned}
use async_h.Date.{HttpDate, is_valid}
use async_h.Date.Parse.{decode_number, u8_max, u16_max, parse_imf_fixdate, from_str}
use async_h.Date.Parse.Names.{DayName, MonthName, day_named, month_named}
use async_h.Date.Display.{two_digits, four_digits, buffer, fmt}

pub decode-two_digits : (n : ℕ) → n < 100 → decode_number u8_max (two_digits n) ≡ ok n
unfolding decode_number parse_unsigned
decode-two_digits n h =
    rw (from_utf8-ascii (two_digits n) (unfold is_ascii in ground arith)) (ground arith)

pub decode-four_digits :
    (n : ℕ) → 1000 ≤ n → n < 10000 → decode_number u16_max (four_digits n) ≡ ok n
unfolding decode_number parse_unsigned
decode-four_digits n h k =
    rw (from_utf8-ascii (four_digits n) (unfold is_ascii in ground arith)) (ground arith)

-- The fields fit the fixed-width format.
pub record Fits (d : HttpDate) : Type 0 where
  pub time_in : (d.second < 60) × (d.minute < 60) × (d.hour < 24)
  pub day_in : (1 ≤ d.day) × (d.day ≤ 31)
  pub month_in : (1 ≤ d.month) × (d.month ≤ 12)
  pub year_in : (1970 ≤ d.year) × (d.year ≤ 9999)
  pub week_day_in : (1 ≤ d.week_day) × (d.week_day ≤ 7)

pub is_valid_iff : (d : HttpDate) → (is_valid d ≡ true) ↔ Fits d
unfolding is_valid
is_valid_iff d = ground arith

module _ (d : HttpDate) (f : Fits d) (w : DayName d.week_day) (m : MonthName d.month) where
  abbrev text : Bytes
  text = buffer (w.a ∷ w.b ∷ w.c ∷ []) (m.a ∷ m.b ∷ m.c ∷ []) d

  text-ascii : is_ascii text ≡ true
  unfolding is_ascii buffer
  text-ascii = ground (arith, f.time_in, f.day_in, f.year_in, w.ascii, m.ascii)

  text-trim : trim text ≡ text
  unfolding trim buffer
  text-trim = rw w.no_space

  parse-text : parse_imf_fixdate text ≡ ok d
  unfolding parse_imf_fixdate buffer equal
  parse-text =
      rw
        (
          decode-two_digits d.second (omega (arith, f.time_in)),
          decode-two_digits d.minute (omega (arith, f.time_in)),
          decode-two_digits d.hour (omega (arith, f.time_in)),
          decode-two_digits d.day (omega (arith, f.day_in)),
          m.read,
          decode-four_digits d.year (omega (arith, f.year_in)) (omega (arith, f.year_in)),
          w.read,
        )
        refl

  fmt-text : fmt d ≡ ok text
  unfolding fmt
  fmt-text = rw (w.named, m.named, from_utf8-ascii text text-ascii)

-- A record that passes `is_valid` is written with no panic, and `FromStr` reads the text back to
-- it.
pub from_str-fmt : (d : HttpDate) → is_valid d ≡ true → (fmt d >>= from_str) ≡ ok d
unfolding from_str
from_str-fmt d v =
    let f = (is_valid_iff d).0 v in
    let w = day_named d.week_day f.week_day_in.0 f.week_day_in.1 in
    let m = month_named d.month f.month_in.0 f.month_in.1 in
    rw (fmt-text d f w m, text-ascii d f w m, text-trim d f w m, parse-text d f w m, v)
