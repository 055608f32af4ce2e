-- ===== src/Base/Bytes/Ints.antt =====
-- `str::parse` into an unsigned integer type of a given maximum: an optional plus sign, then at
-- least one decimal digit, with every overflow an error.
use Prim.Native.Nat.{ℕ, ◌+◌, ◌-◌, ◌*◌, ◌≤◌, ◌<◌}
use mathlib.Core.Path.{◌≡◌}
use mathlib.Core.Logic.{◌≢◌}
use mathlib.Core.Bool.{Bool, ◌&&◌}
use mathlib.Core.List.{List, [], ◌∷◌}
use native.Mathlib.Omega.{arith}
use async_h.Base.Tests.{ltb, leb, ◌==◌, if◌then◌else◌}
use async_h.Base.Results.{Result, ok, err, panic, parse_int, IsSafe}

abbrev pub is_digit : ℕ → Bool
is_digit c = leb b'0' c && leb c b'9'

unfoldable pub parse_digits : ℕ → ℕ → List ℕ → Result ℕ
parse_digits max acc [] = ok acc
parse_digits max acc (c ∷ s) =
    let rest = parse_digits max (acc * 10 + (c - b'0')) s in
    if is_digit c
    then (if ltb max (acc * 10 + (c - b'0')) then err parse_int else rest)
    else err parse_int

unfoldable pub parse_unsigned : ℕ → List ℕ → Result ℕ
unfolding parse_digits
parse_unsigned max [] = err parse_int
parse_unsigned max (c ∷ []) = parse_digits max 0 (c ∷ [])
parse_unsigned max (c ∷ d ∷ s) =
    if c == b'+' then parse_digits max 0 (d ∷ s) else parse_digits max 0 (c ∷ d ∷ s)

parse_digits-ne-panic : (max acc : ℕ) (s : List ℕ) → parse_digits max acc s ≢ panic
unfolding parse_digits
parse_digits-ne-panic max acc [] = ground arith
parse_digits-ne-panic max acc (c ∷ s) =
    ground (arith, parse_digits-ne-panic max (acc * 10 + (c - b'0')) s)

parse_unsigned-ne-panic : (max : ℕ) (s : List ℕ) → parse_unsigned max s ≢ panic
unfolding parse_unsigned
parse_unsigned-ne-panic max [] = ground arith
parse_unsigned-ne-panic max (c ∷ []) = parse_digits-ne-panic max 0 (c ∷ [])
parse_unsigned-ne-panic max (c ∷ d ∷ s) =
    ground (arith, parse_digits-ne-panic max 0 (d ∷ s), parse_digits-ne-panic max 0 (c ∷ d ∷ s))

pub parse_unsigned-IsSafe : (max : ℕ) (s : List ℕ) → IsSafe (parse_unsigned max s)
parse_unsigned-IsSafe max s = record { no_panic = parse_unsigned-ne-panic max s }

digits-le : (max acc : ℕ) (s : List ℕ) (n : ℕ) → acc ≤ max → parse_digits max acc s ≡ ok n → n ≤ max
unfolding parse_digits
digits-le max acc [] n h e = ground arith
digits-le max acc (c ∷ s) n h e = ground (arith, digits-le max (acc * 10 + (c - b'0')) s n)

-- An integer that was parsed fits its type.
pub parse_unsigned-le : (max : ℕ) (s : List ℕ) (n : ℕ) → parse_unsigned max s ≡ ok n → n ≤ max
unfolding parse_unsigned
parse_unsigned-le max [] n e = ground arith
parse_unsigned-le max (c ∷ []) n e = digits-le max 0 (c ∷ []) n (omega arith) e
parse_unsigned-le max (c ∷ d ∷ s) n e =
    ground (arith, digits-le max 0 (d ∷ s) n, digits-le max 0 (c ∷ d ∷ s) n)

-- Two bytes hold a number below 100.
pub parse_unsigned-lt-100 : (max a b n : ℕ) → parse_unsigned max (a ∷ b ∷ []) ≡ ok n → n < 100
unfolding parse_unsigned
parse_unsigned-lt-100 max a b n e = ground arith
