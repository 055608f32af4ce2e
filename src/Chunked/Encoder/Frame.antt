-- ===== src/Chunked/Encoder/Frame.antt =====
-- The framing of `ChunkedEncoder` fits the buffer, and is one chunk of the format.
use native.Mathlib.Nat.{pow-suc}
use async_h.Base.{
  ℕ, zero, suc, ◌+◌, ◌-◌, ◌^◌, ◌≤◌, ◌<◌, ◌≡◌, refl, ap, sym, ◌∙◌, true, List, [], ◌∷◌, ◌++◌, arith,
  leb, length, take, drop, length-append, length-take, take-append, drop-append, take-append-drop,
  append_assoc,
}
use async_h.Base.Bytes.{Bytes}
use async_h.Io.{ready}
use async_h.Chunked.Wire.{cr, lf, to_hex}
use async_h.Chunked.Wire.Hex.{length-to_hex}
use async_h.Chunked.Encoder.{start_line, copy_from_slice, copy_within, max_bytes_to_read, frame}

-- `ceil_log16` is the exact ceiling of the logarithm to base 16 of buffer lengths up to 2 ^ 48.
pub record IsExact (ceil_log16 : ℕ → ℕ) : Type 0 where
  pub above : (m : ℕ) → 2 ≤ m → m < 2 ^ 48 → m ≤ 16 ^ ceil_log16 m
  pub below : (m : ℕ) → 2 ≤ m → m < 2 ^ 48 → 16 ^ (ceil_log16 m - 1) < m

-- One chunk: the size, the data, and the line ends.
abbrev pub chunk : Bytes → Bytes
chunk bytes = to_hex (length bytes) ++ (cr ∷ lf ∷ []) ++ bytes ++ (cr ∷ lf ∷ [])

suc-le-pow : (k : ℕ) → suc k ≤ 16 ^ k
suc-le-pow zero = omega arith
suc-le-pow (suc k) = omega (arith, suc-le-pow k, pow-suc 16 k)

framing-fits : (m k n : ℕ) → m ≤ 16 ^ suc k → 16 ^ k < m → n ≤ m - suc k → n + length (to_hex n) ≤ m
framing-fits m k n hi lo h =
    omega (arith, length-to_hex k n (omega (arith, suc-le-pow k)), suc-le-pow k)

-- `k` is the logarithm of `m`: positive, and less than `m`.
room :
    (m k : ℕ)
    → 2 ≤ m
    → m ≤ 16 ^ k
    → 16 ^ (k - 1) < m
    → (1 ≤ m - k) × ((n : ℕ) → n ≤ m - k → n + length (to_hex n) ≤ m)
room m zero h hi lo = absurd (omega arith)
room m (suc k) h hi lo =
    let e : suc k - 1 ≡ k = omega arith in
    let lo' : 16 ^ k < m = rw e at lo in
    (omega (arith, suc-le-pow k), λ n. framing-fits m k n hi lo')

module _ (ceil_log16 : ℕ → ℕ) (exact : IsExact ceil_log16) where
  is_ready :
      (buf_len : ℕ)
      → 6 ≤ buf_len
      → max_bytes_to_read ceil_log16 buf_len ≡ ready (buf_len - 4 - ceil_log16 (buf_len - 4))
  unfolding max_bytes_to_read
  is_ready buf_len six = ground arith

  pub ready-fits :
      (buf_len n : ℕ)
      → buf_len < 2 ^ 48
      → max_bytes_to_read ceil_log16 buf_len ≡ ready n
      → (1 ≤ n) × ((bytes : ℕ) → bytes ≤ n → bytes + length (to_hex bytes) + 4 ≤ buf_len)
  unfolding max_bytes_to_read
  ready-fits buf_len n k e =
      let m : ℕ = buf_len - 4 in
      let six : 6 ≤ buf_len = ground arith in
      let n_is : n ≡ m - ceil_log16 m = ground arith in
      let (one, all) =
        room m (ceil_log16 m) (omega arith) (exact.above m (omega arith) (omega arith))
          (exact.below m (omega arith) (omega arith)) in
      (omega arith, λ bytes h. omega (arith, all bytes (omega arith)))

  -- With an exact logarithm, for a buffer of at least six and fewer than 2^48 bytes, the number of
  -- bytes to read is computed with no panic and is at least one, and whatever number of bytes up to
  -- it are read, they and their framing fit the buffer.
  pub max_bytes_to_read-fits :
      (buf_len : ℕ)
      → 6 ≤ buf_len
      → buf_len < 2 ^ 48
      → (n : ℕ) × (max_bytes_to_read ceil_log16 buf_len ≡ ready n)
        × (1 ≤ n)
        × ((bytes : ℕ) → bytes ≤ n → bytes + length (to_hex bytes) + 4 ≤ buf_len)
  max_bytes_to_read-fits buf_len six short =
      let n : ℕ = buf_len - 4 - ceil_log16 (buf_len - 4) in
      let found = is_ready buf_len six in
      let (one, all) = ready-fits buf_len n short found in (n, found, one, all)

split_at {ℓ} :
    {A : Type ℓ} (i : ℕ) (xs : List A)
    → i ≤ length xs
    → (front : List A) × (back : List A) × (xs ≡ front ++ back) × (length front ≡ i)
split_at i xs h =
    (take i xs, drop i xs, sym (take-append-drop i xs), omega (arith, length-take i xs))

copy_from_slice-middle :
    (front old back src : Bytes) (i : ℕ)
    → i ≡ length front
    → length old ≡ length src
    → copy_from_slice (front ++ (old ++ back)) i src ≡ ready (front ++ (src ++ back))
unfolding copy_from_slice
copy_from_slice-middle front old back src i e h =
    let whole = append_assoc front old back in
    let t = take-append front (old ++ back) i e in
    let l = length-append front old in
    let l' = length-append (front ++ old) back in
    let d = drop-append (front ++ old) back (i + length src) (omega arith) in
    let fits : leb (i + length src) (length (front ++ (old ++ back))) ≡ true =
      ground (arith, ap length whole) in
    rw (fits, t, ← whole, d) (ap ready (append_assoc front src back))

-- The framing on a buffer that is cut where its three copies write.
module _ (bytes tail front mid old back : Bytes) (start : Bytes) (l : length front ≡ length start)
    (m : length mid ≡ length bytes) (cut : bytes ++ tail ≡ front ++ (mid ++ (old ++ back))) where
  moved :
      copy_within (bytes ++ tail) (length bytes) (length start)
      ≡ ready (front ++ (bytes ++ (old ++ back)))
  unfolding copy_within
  moved =
      let fits : leb (length bytes) (length (bytes ++ tail)) ≡ true =
        ground (arith, length-append bytes tail) in
      rw (fits, take-append bytes tail (length bytes) refl, cut)
        (copy_from_slice-middle front mid (old ++ back) bytes (length start) (sym l) m)

  headed :
      copy_from_slice (front ++ (bytes ++ (old ++ back))) 0 start
      ≡ ready (start ++ (bytes ++ (old ++ back)))
  headed = copy_from_slice-middle [] front (bytes ++ (old ++ back)) start 0 refl l

  ended :
      length old ≡ 2
      → copy_from_slice
          (start ++ (bytes ++ (old ++ back)))
          (length bytes + length start + 2 - 2)
          (cr ∷ lf ∷ [])
        ≡ ready (start ++ bytes ++ (cr ∷ lf ∷ []) ++ back)
  ended o = rw (← append_assoc start bytes (old ++ back)) (
      copy_from_slice-middle (start ++ bytes) old back (cr ∷ lf ∷ []) _
        (omega (arith, length-append start bytes)) o
      ∙ ap ready (sym (append_assoc (start ++ bytes) (cr ∷ lf ∷ []) back)))

pub length-chunk :
    (bytes : Bytes) → length (chunk bytes) ≡ length bytes + length (start_line (length bytes)) + 2
unfolding start_line
length-chunk bytes =
    let start : Bytes = to_hex (length bytes) ++ (cr ∷ lf ∷ []) in
    omega (arith, length-append (start ++ bytes) (cr ∷ lf ∷ []), length-append start bytes)

frame-cut :
    (bytes tail front mid old back : Bytes)
    → length front ≡ length (start_line (length bytes))
    → length mid ≡ length bytes
    → length old ≡ 2
    → bytes ++ tail ≡ front ++ (mid ++ (old ++ back))
    → frame (bytes ++ tail) (length bytes) ≡ ready (chunk bytes ++ back, length (chunk bytes))
unfolding frame
frame-cut bytes tail front mid old back l m o cut =
    let start = start_line (length bytes) in
    rw
      (
        moved bytes tail front mid old back start l m cut,
        headed bytes tail front mid old back start l m cut,
        ended bytes tail front mid old back start l m cut o,
        length-chunk bytes,
      )
      (unfold start_line in refl)

-- Framing in place, where there is room for it: the front of the buffer becomes one chunk, and the
-- buffer keeps its length.
pub frame-chunk :
    (bytes tail : Bytes)
    → length bytes + length (to_hex (length bytes)) + 4 ≤ length (bytes ++ tail)
    → (back : Bytes) × (frame (bytes ++ tail) (length bytes)
        ≡ ready (chunk bytes ++ back, length (chunk bytes)))
      × (length (chunk bytes ++ back) ≡ length (bytes ++ tail))
unfolding start_line
frame-chunk bytes tail h =
    let n = length bytes in
    let eol : Bytes = cr ∷ lf ∷ [] in
    let l = length-append (to_hex n) eol in
    let (front, b1, cut1, l1) = split_at (length (start_line n)) (bytes ++ tail) (omega arith) in
    let s1 = length-append front b1 in
    let (mid, b2, cut2, l2) = split_at n b1 (omega (arith, ap length cut1)) in
    let s2 = length-append mid b2 in
    let (old, back, cut3, l3) = split_at 2 b2 (omega (arith, ap length cut1, ap length cut2)) in
    let s3 = length-append old back in
    let cut = cut1 ∙ ap (λ (b : Bytes). front ++ b) (cut2 ∙ ap (λ (b : Bytes). mid ++ b) cut3) in
    (
      back,
      frame-cut bytes tail front mid old back l1 l2 l3 cut,
      omega (
        arith,
        length-chunk bytes,
        length-append (chunk bytes) back,
        ap length cut1,
        ap length cut2,
        ap length cut3,
      ),
    )
