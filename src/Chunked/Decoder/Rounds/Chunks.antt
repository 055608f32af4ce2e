-- ===== src/Chunked/Decoder/Rounds/Chunks.antt =====
-- The rounds of src/chunked/decoder.rs in the states of a chunk: its size, its data, and their line
-- ends.
use async_h.Base.{
  ℕ, suc, ◌+◌, ◌-◌, ◌≤◌, ◌<◌, ◌≡◌, refl, sym, ap, subst, ◌∙◌, true, false, [], ◌∷◌, ◌++◌, Option,
  some, Option-cases, inl, inr, arith, ◌==◌, ltb, if◌then◌else◌, length, min, append_assoc,
  append-cut, length-append,
}
use async_h.Base.Bytes.{Bytes}
use async_h.Io.{Read, Stream}
use async_h.Chunked.Wire.{
  cr, lf, hex_digit, push_digit, size_value, AfterSize, last, chunk, IsChunked, sized,
}
use async_h.Chunked.Decoder.{
  Trailing, chunk_size, chunk_size_expect_lf, chunk_body, chunk_body_expect_cr,
  chunk_body_expect_lf, trailers, ChunkedDecoder, continue, on_size_byte, expect, on_body, step_in,
}
use async_h.Chunked.Decoder.Owes.{IsTrailer, OwesIn, HasSender, Owes}
use async_h.Chunked.Decoder.Rounds.{decoder, measure, After, read_then, byte_then}

on_size_byte-cr :
    {R Sender Sending : Type 0} (d : ChunkedDecoder R Sender Sending)
    → on_size_byte d cr ≡ continue (record d { state = chunk_size_expect_lf })
unfolding on_size_byte hex_digit
on_size_byte-cr d = refl

on_size_byte-digit :
    {R Sender Sending : Type 0} (d : ChunkedDecoder R Sender Sending) (c size : ℕ)
    → push_digit d.size c ≡ some size
    → on_size_byte d c ≡ continue (record d { size = size })
unfolding on_size_byte push_digit
on_size_byte-digit d c size e = elim (Option-cases (hex_digit c)) [
  | inl h ↦ ground arith
  | inr (v, h) ↦ ground arith
]

first_digit :
    (size c : ℕ) (digits : Bytes) {total : ℕ}
    → size_value size (c ∷ digits) ≡ some total
    → (size' : ℕ) × (push_digit size c ≡ some size')
unfolding size_value
first_digit size c digits e = elim (Option-cases (push_digit size c)) [
  | inl h ↦ absurd (cc (rw (h, size_value) at e))
  | inr found ↦ found
]

module _ {Trailers Sender Sending R : Type 0} (ext : Trailing Trailers Sender Sending) (io : Read R)
    (stream : Stream io) where
  module _ (inner : R) (size n : ℕ) (sender : Option Sender) (p : Bytes) where
    pub body_cr-After :
        Owes ext stream (decoder inner chunk_body_expect_cr size sender) p
        → After ext io stream
            (measure ext io stream (decoder inner chunk_body_expect_cr size sender))
            n
            p
            (step_in ext io chunk_body_expect_cr (decoder inner chunk_body_expect_cr size sender) n)
    unfolding step_in expect
    body_cr-After o =
        let (w, e, zero_size, message) = o.owes in
        byte_then ext io stream n p _ cr (lf ∷ w) _ o e λ inner' e'. (
          record { owes = (w, e', zero_size, message); sender = o.sender },
          omega (arith, ap length e, ap length e'),
        )

    pub body_lf-After :
        Owes ext stream (decoder inner chunk_body_expect_lf size sender) p
        → After ext io stream
            (measure ext io stream (decoder inner chunk_body_expect_lf size sender))
            n
            p
            (step_in ext io chunk_body_expect_lf (decoder inner chunk_body_expect_lf size sender) n)
    unfolding step_in expect
    body_lf-After o =
        let (w, e, zero_size, message) = o.owes in
        byte_then ext io stream n p _ lf w _ o e λ inner' e'. (
          record { owes = next_chunk zero_size e' message; sender = o.sender },
          omega (arith, ap length e, ap length e'),
        )
      where
        next_chunk :
            {w : Bytes} {inner' : R}
            → size ≡ 0
            → stream.rest inner' ≡ w
            → IsChunked (IsTrailer ext) w p
            → OwesIn ext chunk_size size (stream.rest inner') p
        next_chunk z e (sized digits wire' total value cut after) =
            (digits, wire', total, rw z value, e ∙ cut, after)

    pub size_lf-After :
        Owes ext stream (decoder inner chunk_size_expect_lf size sender) p
        → After ext io stream
            (measure ext io stream (decoder inner chunk_size_expect_lf size sender))
            n
            p
            (step_in ext io chunk_size_expect_lf (decoder inner chunk_size_expect_lf size sender) n)
    unfolding step_in expect
    size_lf-After o =
        let (w, e, after) = o.owes in
        byte_then ext io stream n p _ lf w _ o e
          λ inner' e'. after_size inner' w e' (omega (arith, ap length e)) after
      where
        after_size :
            (inner' : R) (w : Bytes)
            → stream.rest inner' ≡ w
            → suc (length w) ≤ length (stream.rest inner)
            → AfterSize (IsTrailer ext) size w p
            → After ext io stream (length (stream.rest inner) + 3) n p (
                expect lf
                  (if size == 0 then trailers [] else chunk_body)
                  (decoder inner' chunk_size_expect_lf size sender)
                  lf)
        after_size inner' w e short (last z none_left t) =
            let test : (size == 0) ≡ true = ground arith in
            rw test (
              record { owes = (none_left, rw e t, λ h. absurd (h refl)); sender = o.sender },
              omega (arith, ap length e),
            )
        after_size inner' w e short (chunk bytes w' p' l positive cut whole message) =
            let test : (size == 0) ≡ false = ground arith in
            rw test (
              record {
                owes = (positive, rw e (chunk bytes w' p' l positive cut whole message));
                sender = o.sender;
              },
              omega (arith, ap length e),
            )

    pub size-After :
        Owes ext stream (decoder inner chunk_size size sender) p
        → After ext io stream
            (measure ext io stream (decoder inner chunk_size size sender))
            n
            p
            (step_in ext io chunk_size (decoder inner chunk_size size sender) n)
    unfolding step_in size_value
    size-After o =
        let (digits, w, total, value, cut, after) = o.owes in go digits w total value cut after
      where
        go :
            (digits w : Bytes) (total : ℕ)
            → size_value size digits ≡ some total
            → stream.rest inner ≡ digits ++ (cr ∷ lf ∷ w)
            → AfterSize (IsTrailer ext) total w p
            → After ext io stream
                (measure ext io stream (decoder inner chunk_size size sender))
                n
                p
                (step_in ext io chunk_size (decoder inner chunk_size size sender) n)
        go [] w total value cut after =
            byte_then ext io stream n p _ cr (lf ∷ w) on_size_byte o cut λ inner' e'.
              rw (on_size_byte-cr (decoder inner' chunk_size size sender)) (
                record {
                  owes = (w, e', subst (λ t. AfterSize (IsTrailer ext) t w p) (ground arith) after);
                  sender = o.sender;
                },
                omega (arith, ap length cut, ap length e'),
              )
        go (c ∷ digits) w total value cut after =
            byte_then ext io stream n p _ c (digits ++ (cr ∷ lf ∷ w)) on_size_byte o cut
              λ inner' e'.
                let (size', next) = first_digit size c digits value in
                rw (on_size_byte-digit (decoder inner' chunk_size size sender) c size' next) (
                  record {
                    owes = (digits, w, total, (rw (next, size_value) at value), e', after);
                    sender = o.sender;
                  },
                  omega (arith, ap length cut, ap length e'),
                )

    -- Part of a chunk's data is read, and `more` of it is still to come.
    part_of_chunk :
        (inner' : R) (bytes more w' p' : Bytes)
        → 0 < length bytes
        → length bytes ≤ n
        → length bytes + length more ≡ size
        → stream.rest inner' ≡ more ++ (cr ∷ lf ∷ w')
        → p ≡ bytes ++ (more ++ p')
        → HasSender ext chunk_body sender
        → IsChunked (IsTrailer ext) w' p'
        → After ext io stream
            (measure ext io stream (decoder inner chunk_body size sender))
            n
            p
            (on_body (decoder inner' chunk_body size sender) bytes)
    unfolding on_body
    part_of_chunk inner' bytes [] w' p' positive short l e whole s message =
        let fits : ltb size (length bytes) ≡ false = ground arith in
        let some_read : (length bytes == 0) ≡ false = ground arith in
        let none_left : (size - length bytes == 0) ≡ true = ground arith in
        rw (fits, some_read, none_left)
          (
            p',
            whole,
            record { owes = (w', e, omega arith, message); sender = s },
            short,
            λ h. absurd (omega (arith, ap length h)),
          )
    part_of_chunk inner' bytes (x ∷ xs) w' p' positive short l e whole s message =
        let fits : ltb size (length bytes) ≡ false = ground arith in
        let some_read : (length bytes == 0) ≡ false = ground arith in
        let some_left : (size - length bytes == 0) ≡ false = ground arith in
        rw (fits, some_read, some_left)
          (
            (x ∷ xs) ++ p',
            whole,
            record {
              owes = (omega arith, chunk (x ∷ xs) w' p' (omega arith) (omega arith) e refl message);
              sender = s;
            },
            short,
            λ h. absurd (omega (arith, ap length h)),
          )

    pub body-After :
        0 < n
        → Owes ext stream (decoder inner chunk_body size sender) p
        → After ext io stream
            (measure ext io stream (decoder inner chunk_body size sender))
            n
            p
            (step_in ext io chunk_body (decoder inner chunk_body size sender) n)
    unfolding step_in
    body-After room o = go o.owes.1
      where
        go :
            AfterSize (IsTrailer ext) size (stream.rest inner) p
            → After ext io stream
                (measure ext io stream (decoder inner chunk_body size sender))
                n
                p
                (step_in ext io chunk_body (decoder inner chunk_body size sender) n)
        go (last z none_left t) = absurd (omega (arith, o.owes.0))
        go (chunk bytes₀ w' p' l positive cut whole message) =
            let m : ℕ = min n (min size 18446744073709551615) in
            read_then ext io stream (length (stream.rest inner) + 3) n m p (stream.rest inner)
              (decoder inner chunk_body size sender) (io.poll_read inner m) on_body
              (stream.serves inner m)
              (λ inner' same. record { owes = rw same o.owes; sender = o.sender })
              λ inner' bytes cut' short stop.
                let (more, front, back) =
                  append-cut bytes (stream.rest inner') bytes₀ (cr ∷ lf ∷ w') (sym cut' ∙ cut)
                    (omega arith) in
                let sum = length-append bytes more in
                let whole' =
                  whole ∙ ap (λ (b : Bytes). b ++ p') front ∙ append_assoc bytes more p' in
                let got : 0 < length bytes = some_bytes bytes l positive cut stop in
                part_of_chunk inner' bytes more w' p' got (omega arith)
                  (omega (arith, ap length front)) back whole' o.sender message
          where
            some_bytes :
                (bytes : Bytes)
                → length bytes₀ ≡ size
                → 0 < size
                → stream.rest inner ≡ bytes₀ ++ (cr ∷ lf ∷ w')
                → (bytes ≡ [] → 0 < min n (min size 18446744073709551615) → stream.rest inner ≡ [])
                → 0 < length bytes
            some_bytes [] l positive cut stop = absurd (
                omega (
                  arith,
                  ap length (sym cut ∙ stop refl (omega arith)),
                  length-append bytes₀ (cr ∷ lf ∷ w'),
                ))
            some_bytes (b ∷ bytes) l positive cut stop = omega arith
