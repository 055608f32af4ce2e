-- ===== src/Chunked/Decoder/Sound/Chunks.antt =====
-- The rounds of src/chunked/decoder.rs in the states of a chunk, on bytes of any kind.
use async_h.Base.{
  ℕ, ◌+◌, ◌*◌, ◌<◌, ◌≡◌, refl, ap, subst, ◌∙◌, true, false, [], ◌∷◌, Option, some, inl, inr,
  Option-cases, Bool-cases, arith, ◌==◌, ltb, if◌then◌else◌, length,
}
use async_h.Base.Bytes.{Bytes}
use async_h.Io.{Read, Stream}
use async_h.Chunked.Wire.{cr, lf, u64_max, hex_digit, push_digit, size_value, last, sized}
use async_h.Chunked.Decoder.{
  Trailing, State, chunk_size, chunk_size_expect_lf, chunk_body, chunk_body_expect_cr,
  chunk_body_expect_lf, trailers, ChunkedDecoder, on_size_byte, expect, step_in,
}
use async_h.Chunked.Decoder.Rounds.{decoder, measure}
use async_h.Chunked.Decoder.Sound.{IsValid, HoldsIn, Sound, byte_then}

one_more :
    (size b digit : ℕ)
    → hex_digit b ≡ some digit
    → ltb u64_max (size * 16 + digit) ≡ false
    → push_digit size b ≡ some (size * 16 + digit)
unfolding push_digit
one_more size b digit h z = ground arith

size_value-digit :
    (size b size' : ℕ) (digits : Bytes) {total : ℕ}
    → push_digit size b ≡ some size'
    → size_value size' digits ≡ some total
    → size_value size (b ∷ digits) ≡ some total
unfolding size_value
size_value-digit size b size' digits e value = rw (e, size_value) value

module _ {Trailers Sender Sending R : Type 0} (ext : Trailing Trailers Sender Sending) (io : Read R)
    (stream : Stream io) where
  -- `expect_byte`: another state behind a byte that is the expected one.
  expect-Sound :
      (n : ℕ) (d : ChunkedDecoder R Sender Sending) (byte b : ℕ) (next : State Sending) (inner : R)
      → stream.rest d.inner ≡ b ∷ stream.rest inner
      → (b ≡ byte
          → IsValid ext (record d { inner = inner; state = next })
            × ((p : Bytes)
                → HoldsIn ext next d.size (stream.rest inner) p
                → HoldsIn ext d.state d.size (stream.rest d.inner) p)
            × (measure ext io stream (record d { inner = inner; state = next })
                < measure ext io stream d))
      → Sound ext io stream d n (expect byte next (record d { inner = inner }) b)
  unfolding expect
  expect-Sound n d byte b next inner cut go = elim (Bool-cases (b == byte)) [
    | inl same ↦ rw same (go (ground arith))
    | inr other ↦ rw other tt
  ]

  module _ (inner : R) (size n : ℕ) (sender : Option Sender) where
    pub body_cr-Sound :
        IsValid ext (decoder inner chunk_body_expect_cr size sender)
        → Sound ext io stream
            (decoder inner chunk_body_expect_cr size sender)
            n
            (step_in ext io chunk_body_expect_cr (decoder inner chunk_body_expect_cr size sender) n)
    unfolding step_in
    body_cr-Sound v =
        byte_then ext io stream n (decoder inner chunk_body_expect_cr size sender)
          (expect cr chunk_body_expect_lf) v
          λ inner' b cut.
            expect-Sound n (decoder inner chunk_body_expect_cr size sender) cr b
              chunk_body_expect_lf inner' cut
              λ e. (
                record { size_fits = v.size_fits; state_fits = v.state_fits; sender = v.sender },
                λ p h. (h.0, cut ∙ (λ i. e i ∷ h.1 i), h.2),
                omega (arith, ap length cut),
              )

    pub body_lf-Sound :
        IsValid ext (decoder inner chunk_body_expect_lf size sender)
        → Sound ext io stream
            (decoder inner chunk_body_expect_lf size sender)
            n
            (step_in ext io chunk_body_expect_lf (decoder inner chunk_body_expect_lf size sender) n)
    unfolding step_in
    body_lf-Sound v =
        byte_then ext io stream n (decoder inner chunk_body_expect_lf size sender)
          (expect lf chunk_size) v
          λ inner' b cut.
            expect-Sound n (decoder inner chunk_body_expect_lf size sender) lf b chunk_size inner'
              cut
              λ e. (
                record { size_fits = v.size_fits; state_fits = tt; sender = v.sender },
                λ p h.
                    let (digits, w, total, value, whole, after) = h in
                    let value' : size_value 0 digits ≡ some total =
                      subst (λ s. size_value s digits ≡ some total) v.state_fits value in
                    (
                      stream.rest inner',
                      cut ∙ ap (λ (x : ℕ). x ∷ stream.rest inner') e,
                      sized digits w total value' whole after,
                    ),
                omega (arith, ap length cut),
              )

    -- After the line end of a size: the trailer part, or a chunk's data.
    pub size_lf-Sound :
        IsValid ext (decoder inner chunk_size_expect_lf size sender)
        → Sound ext io stream
            (decoder inner chunk_size_expect_lf size sender)
            n
            (step_in ext io chunk_size_expect_lf (decoder inner chunk_size_expect_lf size sender) n)
    unfolding step_in
    size_lf-Sound v =
        byte_then ext io stream n (decoder inner chunk_size_expect_lf size sender) _ v
          λ inner' b cut. next inner' b cut
      where
        next :
            (inner' : R) (b : ℕ)
            → stream.rest inner ≡ b ∷ stream.rest inner'
            → Sound ext io stream (decoder inner chunk_size_expect_lf size sender) n (
                expect lf
                  (if size == 0 then trailers [] else chunk_body)
                  (decoder inner' chunk_size_expect_lf size sender)
                  b)
        next inner' b cut = elim (Bool-cases (size == 0)) [
          | inl z ↦ rw z (
              expect-Sound n (decoder inner chunk_size_expect_lf size sender) lf b (trailers [])
                inner' cut
                λ e. (
                  record { size_fits = v.size_fits; state_fits = omega arith; sender = v.sender },
                  λ p h. (
                    stream.rest inner',
                    cut ∙ ap (λ (x : ℕ). x ∷ stream.rest inner') e,
                    last (ground arith) h.0 h.1,
                  ),
                  omega (arith, ap length cut),
                ))
          | inr z ↦ rw z (
              expect-Sound n (decoder inner chunk_size_expect_lf size sender) lf b chunk_body inner'
                cut
                λ e. (
                  record { size_fits = v.size_fits; state_fits = ground arith; sender = v.sender },
                  λ p h. (stream.rest inner', cut ∙ ap (λ (x : ℕ). x ∷ stream.rest inner') e, h),
                  omega (arith, ap length cut),
                ))
        ]

    -- A byte of a size: one more digit, or the carriage return behind the digits.
    size_byte-Sound :
        IsValid ext (decoder inner chunk_size size sender)
        → (inner' : R) (b : ℕ) → stream.rest inner ≡ b ∷ stream.rest inner'
        → Sound ext io stream
            (decoder inner chunk_size size sender)
            n
            (on_size_byte (decoder inner' chunk_size size sender) b)
    unfolding on_size_byte
    size_byte-Sound v inner' b cut = elim (Option-cases (hex_digit b)) [
      | inl h ↦ elim (Bool-cases (b == cr)) [
        | inl z ↦
            rw (h, z, on_size_byte)
              (
                record { size_fits = v.size_fits; state_fits = tt; sender = v.sender },
                λ p k. ([], k.0, size, no_digits, cut ∙ first z k.1, k.2),
                omega (arith, ap length cut),
              )
        | inr z ↦ rw (h, z, on_size_byte) tt
      ]
      | inr (digit, h) ↦ elim (Bool-cases (ltb u64_max (size * 16 + digit))) [
        | inl z ↦ rw (h, z, on_size_byte) tt
        | inr z ↦
            rw (h, z, on_size_byte)
              (
                record { size_fits = ground arith; state_fits = tt; sender = v.sender },
                λ p k. (
                  b ∷ k.0,
                  k.1,
                  k.2,
                  size_value-digit size b (size * 16 + digit) k.0 (one_more size b digit h z) k.3,
                  cut ∙ ap (λ (w : Bytes). b ∷ w) k.4,
                  k.5,
                ),
                omega (arith, ap length cut),
              )
      ]
    ]
      where
        no_digits : size_value size [] ≡ some size
        no_digits = unfold size_value in refl

        first :
            {w : Bytes}
            → (b == cr) ≡ true
            → stream.rest inner' ≡ lf ∷ w
            → b ∷ stream.rest inner' ≡ cr ∷ lf ∷ w
        first z e i = same z i ∷ e i
          where
            same : (b == cr) ≡ true → b ≡ cr
            same z = ground arith

    pub size-Sound :
        IsValid ext (decoder inner chunk_size size sender)
        → Sound ext io stream
            (decoder inner chunk_size size sender)
            n
            (step_in ext io chunk_size (decoder inner chunk_size size sender) n)
    unfolding step_in
    size-Sound v =
        byte_then ext io stream n (decoder inner chunk_size size sender) on_size_byte v
          (size_byte-Sound v)
