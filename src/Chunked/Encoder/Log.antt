-- ===== src/Chunked/Encoder/Log.antt =====
-- An exact logarithm that `max_bytes_to_read` of src/chunked/encoder.rs can be run with.
use async_h.Base.{
  ℕ, zero, suc, ◌-◌, ◌^◌, ◌≤◌, ◌<◌, ◌≡◌, arith, leb, if◌then◌else◌, Bool-cases, inl, inr,
}
use async_h.Chunked.Encoder.Frame.{IsExact}

-- The least `k` up to `bound` with `m ≤ 16 ^ k`.
unfoldable pub ceil_log16_up_to : ℕ → ℕ → ℕ
ceil_log16_up_to zero m = zero
ceil_log16_up_to (suc k) m =
    let less = ceil_log16_up_to k m in if leb m (16 ^ k) then less else suc k

ceil_log16_up_to-IsExact :
    (k m : ℕ)
    → 2 ≤ m
    → m ≤ 16 ^ k
    → (m ≤ 16 ^ ceil_log16_up_to k m) × (16 ^ (ceil_log16_up_to k m - 1) < m)
unfolding ceil_log16_up_to
ceil_log16_up_to-IsExact zero m two h = (h, absurd (omega arith))
ceil_log16_up_to-IsExact (suc k) m two h = elim (Bool-cases (leb m (16 ^ k))) [
  | inl small ↦ rw small (ceil_log16_up_to-IsExact k m two (ground arith))
  | inr large ↦
      let e : suc k - 1 ≡ k = omega arith in
      let below : 16 ^ k < m = ground arith in rw large (h, rw e below)
]

abbrev pub ceil_log16 : ℕ → ℕ
ceil_log16 m = ceil_log16_up_to 12 m

pub exact : IsExact ceil_log16
exact = record {
  above = λ m two h. (ceil_log16_up_to-IsExact 12 m two (omega arith)).0;
  below = λ m two h. (ceil_log16_up_to-IsExact 12 m two (omega arith)).1;
}
