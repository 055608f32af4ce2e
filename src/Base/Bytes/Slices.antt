-- ===== src/Base/Bytes/Slices.antt =====
-- Indexing and slicing of byte strings, with the panic out of range.
use Prim.Native.Nat.{ℕ, ◌-◌, ◌≤◌, ◌<◌}
use mathlib.Core.Path.{◌≡◌}
use mathlib.Core.Bool.{◌&&◌}
use mathlib.Core.Option.{Option, none, some}
use mathlib.Core.List.{List}
use native.Mathlib.Omega.{arith}
use async_h.Base.Tests.{leb, if◌then◌else◌}
use async_h.Base.Lists.{
  length, get_elem?, take, drop, get_elem?-of_lt, length-take, length-drop, take-all,
}
use async_h.Base.Results.{Result, ok, panic, IsSafe}

abbrev pub or_panic {ℓ} : {A : Type ℓ} → Option A → Result A
or_panic none = panic
or_panic (some a) = ok a

-- `a - b`, which panics where it would be negative
abbrev pub checked_sub : ℕ → ℕ → Result ℕ
checked_sub a b = if leb b a then ok (a - b) else panic

-- `s[i]`
unfoldable pub at : List ℕ → ℕ → Result ℕ
at s i = or_panic (get_elem? s i)

-- `&s[i..j]`
unfoldable pub slice : List ℕ → ℕ → ℕ → Result (List ℕ)
slice s i j = if leb i j && leb j (length s) then ok (take (j - i) (drop i s)) else panic

-- A slice up to the end.
pub slice-end : (s : List ℕ) (i j : ℕ) → i ≤ length s → j ≡ length s → slice s i j ≡ ok (drop i s)
unfolding slice
slice-end s i j h e =
    ground (arith, take-all (j - i) (drop i s) (omega (arith, e, length-drop i s)))

pub at-IsSafe : (s : List ℕ) (i : ℕ) → i < length s → IsSafe (at s i)
unfolding at
at-IsSafe s i h = record { no_panic = ground (arith, get_elem?-of_lt s i h) }

pub slice-IsSafe : (s : List ℕ) (i j : ℕ) → i ≤ j → j ≤ length s → IsSafe (slice s i j)
unfolding slice
slice-IsSafe s i j h k = record { no_panic = ground arith }

pub length-slice : (s : List ℕ) (i j : ℕ) {p : List ℕ} → slice s i j ≡ ok p → length p ≡ j - i
unfolding slice
length-slice s i j {p} h = ground (arith, length-take (j - i) (drop i s), length-drop i s)
