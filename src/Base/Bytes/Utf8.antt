-- ===== src/Base/Bytes/Utf8.antt =====
-- `std::str::from_utf8`: the table of well-formed byte sequences, read from left to right.
use Prim.Native.Nat.{ℕ, zero, suc}
use mathlib.Core.Path.{◌≡◌, refl}
use mathlib.Core.Bool.{Bool, true, false, ◌&&◌}
use mathlib.Core.List.{List, [], ◌∷◌}
use native.Mathlib.Omega.{arith}
use async_h.Base.Tests.{ltb, leb, ◌==◌, if◌then◌else◌}
use async_h.Base.Results.{Result, ok, err, utf8, IsSafe}

-- Between characters; `more n lo hi` expects `n + 1` continuation bytes, the next in [lo, hi].
pub data Expect : Type 0 where
  start : Expect
  more : ℕ → ℕ → ℕ → Expect
  invalid : Expect

abbrev within : ℕ → ℕ → ℕ → Bool
within lo hi c = leb lo c && leb c hi

unfoldable pub lead : ℕ → Expect
lead c =
    if ltb c 0x80
    then start
    else if within 0xC2 0xDF c
    then more 0 0x80 0xBF
    else if c == 0xE0
    then more 1 0xA0 0xBF
    else if c == 0xED
    then more 1 0x80 0x9F
    else if within 0xE1 0xEF c
    then more 1 0x80 0xBF
    else if c == 0xF0
    then more 2 0x90 0xBF
    else if within 0xF1 0xF3 c
    then more 2 0x80 0xBF
    else if c == 0xF4
    then more 2 0x80 0x8F
    else invalid

unfoldable pub next : Expect → ℕ → Expect
unfolding lead
next start c = lead c
next (more zero lo hi) c = if within lo hi c then start else invalid
next (more (suc n) lo hi) c = if within lo hi c then more n 0x80 0xBF else invalid
next invalid c = invalid

unfoldable pub valid_from : Expect → List ℕ → Bool
unfolding next
valid_from start [] = true
valid_from (more _ _ _) [] = false
valid_from invalid [] = false
valid_from e (c ∷ s) = valid_from (next e c) s

unfoldable pub from_utf8 : List ℕ → Result (List ℕ)
unfolding valid_from
from_utf8 s = if valid_from start s then ok s else err utf8

unfoldable pub is_ascii : List ℕ → Bool
is_ascii [] = true
is_ascii (c ∷ s) = ltb c 128 && is_ascii s

valid_from-ascii : (s : List ℕ) → is_ascii s ≡ true → valid_from start s ≡ true
unfolding valid_from is_ascii
valid_from-ascii [] h = refl
valid_from-ascii (c ∷ s) h = ground (arith, valid_from-ascii s)

pub from_utf8-ascii : (s : List ℕ) → is_ascii s ≡ true → from_utf8 s ≡ ok s
unfolding from_utf8
from_utf8-ascii s h = rw (valid_from-ascii s h)

pub from_utf8-IsSafe : (s : List ℕ) → IsSafe (from_utf8 s)
unfolding from_utf8
from_utf8-IsSafe s = record { no_panic = ground arith }
