-- ===== src/Head/Suffix.antt =====
-- The test of the end of a head looks at the last bytes of what was read, and does not panic.
use async_h.Base.{
  ℕ, suc, ◌+◌, ◌-◌, ◌<◌, ◌≡◌, refl, ap, Bool, false, inl, inr, Bool-cases, ok, arith, leb, length,
  length-drop, drop,
}
use async_h.Base.Bytes.{Bytes, equal, equal_iff}
use async_h.Base.Bytes.Slices.{slice-end}
use async_h.Head.{ends_in}

-- Whether the last bytes are these.
unfoldable pub has_suffix : Bytes → Bytes → Bool
unfolding equal
has_suffix end s = equal (drop (length s - length end) s) end

short-has_suffix : (end s : Bytes) → length s < length end → has_suffix end s ≡ false
unfolding has_suffix
short-has_suffix end s h = elim (Bool-cases (equal (drop (length s - length end) s) end)) [
  | inl e ↦ absurd (
      omega (
        arith,
        ap length ((equal_iff (drop (length s - length end) s) end).0 e),
        length-drop (length s - length end) s,
      ))
  | inr e ↦ e
]

pub ends_in-has_suffix :
    (end s : Bytes) (idx n : ℕ)
    → length s ≡ suc idx
    → length end ≡ suc n
    → ends_in s idx n end ≡ ok (has_suffix end s)
unfolding ends_in has_suffix
ends_in-has_suffix end s idx n h k = elim (Bool-cases (leb n idx)) [
  | inl e ↦
      let same : idx - n ≡ length s - length end = omega (arith, h, k) in
      rw (e, slice-end s (idx - n) (idx + 1) (omega (arith, h)) (omega (arith, h)), same) refl
  | inr e ↦ rw (e, short-has_suffix end s (ground (arith, h, k))) refl
]
