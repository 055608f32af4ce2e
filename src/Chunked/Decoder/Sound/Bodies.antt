-- ===== src/Chunked/Decoder/Sound/Bodies.antt =====
-- The round of src/chunked/decoder.rs that reads the data of a chunk, on bytes of any kind.
use async_h.Base.{
  ℕ, ◌-◌, ◌≤◌, ◌<◌, ◌≡◌, refl, sym, ap, ◌∙◌, false, [], ◌∷◌, ◌++◌, Option, inl, inr, Bool-cases,
  arith, ◌==◌, ltb, length, min, append_assoc, length-append,
}
use async_h.Base.Bytes.{Bytes}
use async_h.Io.{Read, Stream}
use async_h.Chunked.Wire.{AfterSize, last, chunk}
use async_h.Chunked.Decoder.{Trailing, chunk_body, chunk_body_expect_cr, on_body, step_in}
use async_h.Chunked.Decoder.Rounds.{decoder}
use async_h.Chunked.Decoder.Sound.{BeginsTrailer, IsValid, HoldsIn, Sound, read_then}

module _ {Trailers Sender Sending R : Type 0} (ext : Trailing Trailers Sender Sending) (io : Read R)
    (stream : Stream io) where
  module _ (inner : R) (size n : ℕ) (sender : Option Sender) where
    -- More data in front of what is left of a chunk.
    longer :
        (bytes : Bytes) (inner' : R) (p : Bytes)
        → stream.rest inner ≡ bytes ++ stream.rest inner'
        → 0 < size - length bytes
        → AfterSize (BeginsTrailer ext) (size - length bytes) (stream.rest inner') p
        → AfterSize (BeginsTrailer ext) size (stream.rest inner) (bytes ++ p)
    longer bytes inner' p cut more (last z e t) = absurd (omega arith)
    longer bytes inner' p cut more (chunk tail w' p' l positive whole out message) =
        chunk (bytes ++ tail) w' p' (omega (arith, length-append bytes tail)) (omega arith)
          (cut ∙ ap (λ (w : Bytes). bytes ++ w) whole ∙ sym (append_assoc bytes tail _))
          (ap (λ (w : Bytes). bytes ++ w) out ∙ sym (append_assoc bytes tail p')) message

    -- The end of a chunk's data.
    whole_chunk :
        (bytes : Bytes) (inner' : R) (p : Bytes)
        → stream.rest inner ≡ bytes ++ stream.rest inner'
        → 0 < size
        → length bytes ≡ size
        → HoldsIn ext chunk_body_expect_cr size (stream.rest inner') p
        → AfterSize (BeginsTrailer ext) size (stream.rest inner) (bytes ++ p)
    whole_chunk bytes inner' p cut positive l (w', e, message) =
        chunk bytes w' p l positive (cut ∙ ap (λ (w : Bytes). bytes ++ w) e) refl message

    on_body-Sound :
        IsValid ext (decoder inner chunk_body size sender)
        → (inner' : R) (bytes : Bytes) → stream.rest inner ≡ bytes ++ stream.rest inner'
        → length bytes ≤ min n (min size 18446744073709551615)
        → Sound ext io stream
            (decoder inner chunk_body size sender)
            n
            (on_body (decoder inner' chunk_body size sender) bytes)
    unfolding on_body
    on_body-Sound v inner' [] cut short = let fits : ltb size 0 ≡ false = ground arith in rw fits tt
    on_body-Sound v inner' (x ∷ bytes) cut short =
        let fits : ltb size (length (x ∷ bytes)) ≡ false = ground arith in
        let some_read : (length (x ∷ bytes) == 0) ≡ false = ground arith in
        elim (Bool-cases (size - length (x ∷ bytes) == 0)) [
          | inl z ↦
              rw (fits, some_read, z)
                (
                  record {
                    size_fits = omega (arith, v.size_fits);
                    state_fits = ground arith;
                    sender = v.sender;
                  },
                  λ p h. whole_chunk (x ∷ bytes) inner' p cut v.state_fits (ground arith) h,
                  omega arith,
                  λ h. absurd (cc h),
                )
          | inr z ↦
              rw (fits, some_read, z)
                (
                  record {
                    size_fits = omega (arith, v.size_fits);
                    state_fits = ground arith;
                    sender = v.sender;
                  },
                  λ p h. longer (x ∷ bytes) inner' p cut (ground arith) h,
                  omega arith,
                  λ h. absurd (cc h),
                )
        ]

    pub body-Sound :
        IsValid ext (decoder inner chunk_body size sender)
        → Sound ext io stream
            (decoder inner chunk_body size sender)
            n
            (step_in ext io chunk_body (decoder inner chunk_body size sender) n)
    unfolding step_in
    body-Sound v =
        read_then ext io stream n (min n (min size 18446744073709551615))
          (decoder inner chunk_body size sender)
          (io.poll_read inner (min n (min size 18446744073709551615))) on_body
          (stream.serves inner (min n (min size 18446744073709551615))) v
          λ inner' bytes cut short stop. on_body-Sound v inner' bytes cut short
