-- ===== src/Date/Parse/Safe.antt =====
-- No input makes the parsers panic: every index and slice is in range.
use async_h.Base.{
  ℕ, ◌≤◌, ◌<◌, ◌≡◌, ◌≢◌, refl, ap, ◌∙◌, inl, inr, Bool-cases, List, [], ◌∷◌, Bool, true, false,
  arith, leb, ◌==◌, if◌then◌else◌, length, Option, none, some, Error, Result, ok, panic, ◌>>=◌,
  or_else, IsSafe, IsSafe-bind, IsSafe-ok, IsSafe-ensure, IsSafe-or_else, IsSafe-ok_or, invalid_day,
}
use async_h.Base.Bytes.{Bytes, equal}
use async_h.Base.Bytes.Slices.{at, slice, at-IsSafe, slice-IsSafe, length-slice}
use async_h.Base.Bytes.Utf8.{from_utf8, from_utf8-IsSafe}
use async_h.Base.Bytes.Ints.{parse_unsigned-IsSafe}
use async_h.Date.Parse.{
  match_bytes, decode_number, number_at, u8_max, u16_max, is_imf_fixdate, imf_fields, rfc850_fields,
  asctime_fields, parse_imf_fixdate, week_day_prefix, first_week_day, long_day_arms, is_rfc850,
  parse_rfc850_rest, parse_rfc850_date, is_asctime, asctime_day, parse_asctime,
}

match_bytes-ne-panic :
    (arms : List (Bytes × ℕ)) (e : Error) (s : Bytes) → match_bytes arms e s ≢ panic
unfolding match_bytes
match_bytes-ne-panic [] e s = ground arith
match_bytes-ne-panic ((key, value) ∷ arms) e s = ground (arith, match_bytes-ne-panic arms e s)

match_bytes-IsSafe :
    (arms : List (Bytes × ℕ)) (e : Error) (s : Bytes) → IsSafe (match_bytes arms e s)
match_bytes-IsSafe arms e s = record { no_panic = match_bytes-ne-panic arms e s }

decode_number-IsSafe : (max : ℕ) (s : Bytes) → IsSafe (decode_number max s)
unfolding decode_number
decode_number-IsSafe max s =
    IsSafe-bind (from_utf8 s) _ (from_utf8-IsSafe s) (λ text e. parse_unsigned-IsSafe max text)

number_at-IsSafe : (s : Bytes) (i j : ℕ) → i ≤ j → j ≤ length s → IsSafe (number_at u8_max s i j)
unfolding number_at
number_at-IsSafe s i j h k =
    IsSafe-bind _ _ (slice-IsSafe s i j h k) (λ p e. decode_number-IsSafe u8_max p)

IsSafe-if :
    {A : Type 0} {m k : Result A} (b : Bool) → IsSafe m → IsSafe k → IsSafe (if b then m else k)
IsSafe-if true h g = h
IsSafe-if false h g = g

module _ (s : Bytes) (n : ℕ) (l : length s ≡ n) where
  part : (i j : ℕ) → i ≤ j → j ≤ n → IsSafe (slice s i j)
  part i j h k = slice-IsSafe s i j h (omega arith)

  number : (max i j : ℕ) → i ≤ j → j ≤ n → IsSafe (number_at max s i j)
  unfolding number_at
  number max i j h k = IsSafe-bind _ _ (part i j h k) (λ p e. decode_number-IsSafe max p)

  byte : (i : ℕ) → i < n → IsSafe (at s i)
  byte i h = at-IsSafe s i (omega arith)

  lookup :
      (i j : ℕ) (arms : List (Bytes × ℕ)) (e : Error) {A : Type 0} (f : ℕ → Result A)
      → i ≤ j
      → j ≤ n
      → ((v : ℕ) → IsSafe (f v))
      → IsSafe (slice s i j >>= λ name. match_bytes arms e name >>= f)
  lookup i j arms e f h k g =
      IsSafe-bind _ _ (part i j h k)
        (λ name p. IsSafe-bind _ _ (match_bytes-IsSafe arms e name) (λ v q. g v))

  imf_fields-IsSafe : n ≡ 29 → IsSafe (imf_fields s)
  unfolding imf_fields
  imf_fields-IsSafe e = IsSafe-bind _ _ (number u8_max 23 25 (omega arith) (omega arith)) λ _ _.
      IsSafe-bind _ _ (number u8_max 20 22 (omega arith) (omega arith)) λ _ _.
        IsSafe-bind _ _ (number u8_max 17 19 (omega arith) (omega arith)) λ _ _.
          IsSafe-bind _ _ (number u8_max 5 7 (omega arith) (omega arith)) λ _ _.
            lookup 7 12 _ _ _ (omega arith) (omega arith) λ _.
              IsSafe-bind _ _ (number u16_max 12 16 (omega arith) (omega arith))
                λ _ _. lookup 0 5 _ _ _ (omega arith) (omega arith) λ _. IsSafe-ok _

  rfc850_fields-IsSafe : (d : ℕ) → n ≡ 22 → IsSafe (rfc850_fields d s)
  unfolding rfc850_fields
  rfc850_fields-IsSafe d e = IsSafe-bind _ _ (number u16_max 7 9 (omega arith) (omega arith)) λ _ _.
      IsSafe-bind _ _ (number u8_max 16 18 (omega arith) (omega arith)) λ _ _.
        IsSafe-bind _ _ (number u8_max 13 15 (omega arith) (omega arith)) λ _ _.
          IsSafe-bind _ _ (number u8_max 10 12 (omega arith) (omega arith)) λ _ _.
            IsSafe-bind _ _ (number u8_max 0 2 (omega arith) (omega arith))
              λ _ _. lookup 2 7 _ _ _ (omega arith) (omega arith) λ _. IsSafe-ok _

  asctime_day-IsSafe : n ≡ 24 → IsSafe (asctime_day s)
  unfolding asctime_day
  asctime_day-IsSafe e = IsSafe-bind _ _ (part 8 10 (omega arith) (omega arith)) λ x p.
      let two : length x ≡ 2 = length-slice s 8 10 p in
      IsSafe-bind _ _ (at-IsSafe x 0 (omega arith)) λ first _.
        IsSafe-if (first == b' ') (number_at-IsSafe x 1 2 (omega arith) (omega arith))
          (number_at-IsSafe x 0 (length x) (omega arith) (omega arith))

  asctime_fields-IsSafe : n ≡ 24 → IsSafe (asctime_fields s)
  unfolding asctime_fields
  asctime_fields-IsSafe e = IsSafe-bind _ _ (number u8_max 17 19 (omega arith) (omega arith)) λ _ _.
      IsSafe-bind _ _ (number u8_max 14 16 (omega arith) (omega arith)) λ _ _.
        IsSafe-bind _ _ (number u8_max 11 13 (omega arith) (omega arith)) λ _ _.
          IsSafe-bind _ _ (asctime_day-IsSafe e) λ _ _.
            lookup 4 8 _ _ _ (omega arith) (omega arith) λ _.
              IsSafe-bind _ _ (number u16_max 20 24 (omega arith) (omega arith))
                λ _ _. lookup 0 4 _ _ _ (omega arith) (omega arith) λ _. IsSafe-ok _

-- The shape tests: they are safe, and one that passes fixes the length.
module _ (s : Bytes) where
  is_imf_fixdate-IsSafe : IsSafe (is_imf_fixdate s)
  unfolding is_imf_fixdate
  is_imf_fixdate-IsSafe = elim (Bool-cases (length s == 29)) [
    | inl e ↦ rw e (
        let l : length s ≡ 29 = ground arith in
        IsSafe-bind _ _ (part s 29 l 25 _ (omega arith) (omega arith)) λ _ _.
          IsSafe-bind _ _ (byte s 29 l 16 (omega arith)) λ _ _.
            IsSafe-bind _ _ (byte s 29 l 19 (omega arith))
              λ _ _. IsSafe-bind _ _ (byte s 29 l 22 (omega arith)) λ _ _. IsSafe-ok _)
    | inr e ↦ rw e (IsSafe-ok _)
  ]

  length-imf : is_imf_fixdate s ≡ ok true → length s ≡ 29
  unfolding is_imf_fixdate
  length-imf h = ground arith

  parse_imf_fixdate-IsSafe : IsSafe (parse_imf_fixdate s)
  unfolding parse_imf_fixdate
  parse_imf_fixdate-IsSafe =
      IsSafe-bind _ _ is_imf_fixdate-IsSafe
        λ fits e. IsSafe-ensure fits _ _ λ t. imf_fields-IsSafe s 29 (length-imf (e ∙ ap ok t)) refl

  is_rfc850-IsSafe : IsSafe (is_rfc850 s)
  unfolding is_rfc850
  is_rfc850-IsSafe = elim (Bool-cases (length s == 22)) [
    | inl e ↦ rw e (
        let l : length s ≡ 22 = ground arith in
        IsSafe-bind _ _ (byte s 22 l 12 (omega arith)) λ _ _.
          IsSafe-bind _ _ (byte s 22 l 15 (omega arith)) λ _ _.
            IsSafe-bind _ _ (part s 22 l 18 22 (omega arith) (omega arith)) λ _ _. IsSafe-ok _)
    | inr e ↦ rw e (IsSafe-ok _)
  ]

  length-rfc850 : is_rfc850 s ≡ ok true → length s ≡ 22
  unfolding is_rfc850
  length-rfc850 h = ground arith

  parse_rfc850_rest-IsSafe : (d : ℕ) → IsSafe (parse_rfc850_rest d s)
  unfolding parse_rfc850_rest
  parse_rfc850_rest-IsSafe d = IsSafe-bind _ _ is_rfc850-IsSafe λ fits e.
      IsSafe-ensure fits _ _ λ t. rfc850_fields-IsSafe s 22 (length-rfc850 (e ∙ ap ok t)) d refl

  is_asctime-IsSafe : IsSafe (is_asctime s)
  unfolding is_asctime
  is_asctime-IsSafe = elim (Bool-cases (length s == 24)) [
    | inl e ↦ rw e (
        let l : length s ≡ 24 = ground arith in
        IsSafe-bind _ _ (byte s 24 l 10 (omega arith)) λ _ _.
          IsSafe-bind _ _ (byte s 24 l 13 (omega arith)) λ _ _.
            IsSafe-bind _ _ (byte s 24 l 16 (omega arith))
              λ _ _. IsSafe-bind _ _ (byte s 24 l 19 (omega arith)) λ _ _. IsSafe-ok _)
    | inr e ↦ rw e (IsSafe-ok _)
  ]

  length-asctime : is_asctime s ≡ ok true → length s ≡ 24
  unfolding is_asctime
  length-asctime h = ground arith

  parse_asctime-IsSafe : IsSafe (parse_asctime s)
  unfolding parse_asctime
  parse_asctime-IsSafe = IsSafe-bind _ _ is_asctime-IsSafe λ fits e.
      IsSafe-ensure fits _ _ λ t. asctime_fields-IsSafe s 24 (length-asctime (e ∙ ap ok t)) refl

  -- The names of the days are shorter than the shortest text that gets this far.
  week_day_prefix-IsSafe :
      (d : ℕ) (name : Bytes) → length name ≤ length s → IsSafe (week_day_prefix s d name)
  unfolding week_day_prefix
  week_day_prefix-IsSafe d name h =
      IsSafe-bind _ _ (slice-IsSafe s 0 (length name) (omega arith) h) λ start _.
        IsSafe-if (equal start name)
          (IsSafe-bind _ _ (slice-IsSafe s (length name) (length s) h (omega arith))
            λ rest _. IsSafe-ok _)
          (IsSafe-ok none)

abbrev Short : ℕ → List (Bytes × ℕ) → Type 0
Short n [] = Unit
Short n ((name, d) ∷ arms) = (length name ≤ n) × Short n arms

IsSafe-found :
    (found : Option (ℕ × Bytes)) (other : Result (Option (ℕ × Bytes)))
    → IsSafe other
    → IsSafe {A = Option (ℕ × Bytes)} (elim found [ none ↦ other | some r ↦ ok (some r) ])
IsSafe-found none other h = h
IsSafe-found (some r) other h = IsSafe-ok (some r)

first_week_day-IsSafe :
    (arms : List (Bytes × ℕ)) (s : Bytes) → Short (length s) arms → IsSafe (first_week_day arms s)
unfolding first_week_day
first_week_day-IsSafe [] s h = IsSafe-ok none
first_week_day-IsSafe ((name, d) ∷ arms) s h =
    IsSafe-bind _ _ (week_day_prefix-IsSafe s d name h.0)
      (λ found _. IsSafe-found found _ (first_week_day-IsSafe arms s h.1))

parse_rfc850_date-IsSafe : (s : Bytes) → IsSafe (parse_rfc850_date s)
unfolding parse_rfc850_date
parse_rfc850_date-IsSafe s = IsSafe-ensure (leb 23 (length s)) _ _ λ h.
    let long : 23 ≤ length s = ground arith in
    IsSafe-bind _ _ (first_week_day-IsSafe long_day_arms s (omega arith)) λ found _.
      IsSafe-bind _ _ (IsSafe-ok_or found invalid_day)
        λ (d, rest) _. parse_rfc850_rest-IsSafe rest d

pub parsers-IsSafe :
    (s : Bytes)
    → IsSafe (or_else (parse_imf_fixdate s) (or_else (parse_rfc850_date s) (parse_asctime s)))
parsers-IsSafe s =
    IsSafe-or_else _ _ (parse_imf_fixdate-IsSafe s)
      (IsSafe-or_else _ _ (parse_rfc850_date-IsSafe s) (parse_asctime-IsSafe s))
