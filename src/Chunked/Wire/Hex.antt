-- ===== src/Chunked/Wire/Hex.antt =====
-- The digits that `{:X}` writes are read back to the number, and are as few as possible.
use native.Mathlib.Nat.{pow-suc}
use async_h.Base.{
  ℕ, zero, suc, ◌+◌, ◌*◌, ◌/◌, ◌%◌, ◌^◌, ◌≤◌, ◌<◌, ◌≡◌, ◌∙◌, [], ◌∷◌, ◌++◌, some, arith, ltb,
  length, length-append, Bool-cases, Option-cases, ap, inl, inr,
}
use async_h.Base.Bytes.{Bytes}
use async_h.Chunked.Wire.{
  u64_max, hex_digit, push_digit, size_value, upper_digit, hex_digits, to_hex,
}

hex_digit-upper : (v : ℕ) → v < 16 → hex_digit (upper_digit v) ≡ some v
unfolding hex_digit
hex_digit-upper v h = ground arith

size_value-concat :
    (acc : ℕ) (s : Bytes) (n v : ℕ)
    → v < 16
    → size_value acc s ≡ some n
    → n * 16 + v ≤ u64_max
    → size_value acc (s ++ upper_digit v ∷ []) ≡ some (n * 16 + v)
unfolding size_value
size_value-concat acc [] n v h e k = unfold push_digit in ground (arith, hex_digit-upper v h)
size_value-concat acc (c ∷ s) n v h e k = elim (Option-cases (push_digit acc c)) [
  | inl p ↦ absurd (cc (rw (p, size_value) at e))
  | inr (acc', p) ↦ rw (p, size_value) (size_value-concat acc' s n v h (rw (p, size_value) at e) k)
]

size_value-hex_digits :
    (fuel n : ℕ) → n < 16 ^ fuel → n ≤ u64_max → size_value 0 (hex_digits fuel n) ≡ some n
unfolding hex_digits
size_value-hex_digits zero n h k = unfold size_value in ap some (omega arith)
size_value-hex_digits (suc fuel) n h k = elim (Bool-cases (ltb n 16)) [
  | inl one ↦ rw one (unfold size_value push_digit in ground (arith, hex_digit-upper n))
  | inr more ↦
      let shorter : n / 16 < 16 ^ fuel = omega (arith, pow-suc 16 fuel) in
      let whole : n / 16 * 16 + n % 16 ≡ n = omega arith in
      rw more (
        size_value-concat 0 _ (n / 16) (n % 16) (omega arith)
          (size_value-hex_digits fuel (n / 16) shorter (omega arith)) (omega arith)
        ∙ ap some whole)
]

pub size_value-to_hex : (n : ℕ) → n ≤ u64_max → size_value 0 (to_hex n) ≡ some n
unfolding to_hex
size_value-to_hex n h = size_value-hex_digits 16 n (omega arith) h

-- A number below 16 ^ k has at most k digits.
pub length-hex_digits : (fuel k n : ℕ) → n < 16 ^ suc k → length (hex_digits fuel n) ≤ suc k
unfolding hex_digits
length-hex_digits zero k n h = omega arith
length-hex_digits (suc fuel) zero n h = ground arith
length-hex_digits (suc fuel) (suc k) n h = ground (
  arith,
  length-append (hex_digits fuel (n / 16)) (upper_digit (n % 16) ∷ []),
  length-hex_digits fuel k (n / 16),
  pow-suc 16 (suc k),
)

pub length-to_hex : (k n : ℕ) → n < 16 ^ suc k → length (to_hex n) ≤ suc k
unfolding to_hex
length-to_hex = length-hex_digits 16
