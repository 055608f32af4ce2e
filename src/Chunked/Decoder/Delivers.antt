-- ===== src/Chunked/Decoder/Delivers.antt =====
-- `ChunkedDecoder::poll_read` delivers the payload: each call returns a further part of it, or is
-- pending, and the end of the payload is reported once the trailers are sent.
use async_h.Base.{ℕ, zero, suc, ◌<◌, refl, Option, arith}
use async_h.Base.Bytes.{Bytes}
use async_h.Io.{Read, Stream}
use async_h.Chunked.Wire.{IsChunked, sized}
use async_h.Chunked.Decoder.{
  Trailing, State, chunk_size, chunk_size_expect_lf, chunk_body, chunk_body_expect_cr,
  chunk_body_expect_lf, trailers, trailer_sending, done, ChunkedDecoder, new, Flow, continue,
  return, step_in, step, poll_read,
}
use async_h.Chunked.Decoder.Owes.{IsTrailer, Owes}
use async_h.Chunked.Decoder.Rounds.{decoder, measure, Delivers, After}
use async_h.Chunked.Decoder.Rounds.Chunks.{
  size-After, size_lf-After, body-After, body_cr-After, body_lf-After,
}
use async_h.Chunked.Decoder.Rounds.Trailers.{trailers-After, sending-After}

module _ {Trailers Sender Sending R : Type 0} (ext : Trailing Trailers Sender Sending) (io : Read R)
    (stream : Stream io) where
  module _ (inner : R) (size n : ℕ) (sender : Option Sender) (p : Bytes) where
    -- One round, in any state.
    step-After :
        0 < n
        → (state : State Sending) → Owes ext stream (decoder inner state size sender) p
        → After ext io stream
            (measure ext io stream (decoder inner state size sender))
            n
            p
            (step_in ext io state (decoder inner state size sender) n)
    unfolding step_in
    step-After room chunk_size o = size-After ext io stream inner size n sender p o
    step-After room chunk_size_expect_lf o = size_lf-After ext io stream inner size n sender p o
    step-After room chunk_body o = body-After ext io stream inner size n sender p room o
    step-After room chunk_body_expect_cr o = body_cr-After ext io stream inner size n sender p o
    step-After room chunk_body_expect_lf o = body_lf-After ext io stream inner size n sender p o
    step-After room (trailers buf) o = trailers-After ext io stream inner size n sender p buf o
    step-After room (trailer_sending sending) o =
        sending-After ext io stream inner size n sender p sending o
    step-After room done o = (p, refl, o, omega arith, λ h. (o.owes, refl))

  -- Over a stream on which no read fails, for a decoder that owes a payload:
  -- a call on a buffer that is not empty, with fuel for each byte to come and three rounds more,
  -- ends; it returns the next part of the payload, or is pending and owes the same. It returns no
  -- bytes only at the end of the payload, in the state `Done`.
  pub poll_read-Delivers :
      (fuel n : ℕ) (d : ChunkedDecoder R Sender Sending) (p : Bytes)
      → 0 < n
      → measure ext io stream d < fuel
      → Owes ext stream d p
      → Delivers ext io stream n p (poll_read ext io fuel d n)
  unfolding poll_read
  poll_read-Delivers zero n d p room enough o = absurd (omega arith)
  poll_read-Delivers (suc fuel) n d p room enough o =
      go (λ d' less o'. poll_read-Delivers fuel n d' p room less o') (step ext io d n)
        (step-After d.inner d.size n d.trailer_sender p room d.state o)
    where
      go :
          ((d' : ChunkedDecoder R Sender Sending)
            → measure ext io stream d' < fuel
            → Owes ext stream d' p
            → Delivers ext io stream n p (poll_read ext io fuel d' n))
          → (f : Flow (ChunkedDecoder R Sender Sending))
          → After ext io stream (measure ext io stream d) n p f
          → Delivers ext io stream n p (elim f [
            | continue d' ↦ poll_read ext io fuel d' n
            | return d' outcome ↦ (d', outcome)
          ])
      go again (continue d') (o', less) = again d' (omega arith) o'
      go again (return d' outcome) h = h

  -- A new decoder owes the whole payload of the message that its stream holds.
  pub new-Owes :
      (inner : R) (sender : Sender) (p : Bytes)
      → IsChunked (IsTrailer ext) (stream.rest inner) p
      → Owes ext stream (new inner sender) p
  unfolding new
  new-Owes inner sender p (sized digits wire' size value cut after) = record {
    owes = (digits, wire', size, value, cut, after);
    sender = (sender, refl);
  }
