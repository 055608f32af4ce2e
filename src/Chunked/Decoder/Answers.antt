-- ===== src/Chunked/Decoder/Answers.antt =====
-- `ChunkedDecoder::poll_read` on a stream of any bytes: it ends without a panic, and what it
-- accepts is in the chunked format.
use async_h.Base.{ℕ, zero, suc, ◌<◌, refl, Option, [], ◌++◌, arith}
use async_h.Base.Bytes.{Bytes}
use async_h.Io.{Poll, ready, failed, pending, panic, out_of_fuel, Read, Stream}
use async_h.Chunked.Decoder.{
  Trailing, State, chunk_size, chunk_size_expect_lf, chunk_body, chunk_body_expect_cr,
  chunk_body_expect_lf, trailers, trailer_sending, done, ChunkedDecoder, new, Flow, continue,
  return, step_in, step, poll_read,
}
use async_h.Chunked.Decoder.Rounds.{decoder, measure}
use async_h.Chunked.Decoder.Sound.{ParsesWithin, IsValid, Reads, Answers, Sound}
use async_h.Chunked.Decoder.Sound.Chunks.{size-Sound, size_lf-Sound, body_cr-Sound, body_lf-Sound}
use async_h.Chunked.Decoder.Sound.Bodies.{body-Sound}
use async_h.Chunked.Decoder.Sound.Trailers.{trailers-Sound, sending-Sound}

module _ {Trailers Sender Sending R : Type 0} (ext : Trailing Trailers Sender Sending)
    (within : ParsesWithin ext) (io : Read R) (stream : Stream io) where
  -- One round, in any state.
  step-Sound :
      (inner : R) (size n : ℕ) (sender : Option Sender) (state : State Sending)
      → IsValid ext (decoder inner state size sender)
      → Sound ext io stream
          (decoder inner state size sender)
          n
          (step_in ext io state (decoder inner state size sender) n)
  unfolding step_in
  step-Sound inner size n sender chunk_size v = size-Sound ext io stream inner size n sender v
  step-Sound inner size n sender chunk_size_expect_lf v =
      size_lf-Sound ext io stream inner size n sender v
  step-Sound inner size n sender chunk_body v = body-Sound ext io stream inner size n sender v
  step-Sound inner size n sender chunk_body_expect_cr v =
      body_cr-Sound ext io stream inner size n sender v
  step-Sound inner size n sender chunk_body_expect_lf v =
      body_lf-Sound ext io stream inner size n sender v
  step-Sound inner size n sender (trailers buf) v =
      trailers-Sound ext io stream inner size n sender buf v within
  step-Sound inner size n sender (trailer_sending sending) v =
      sending-Sound ext io stream inner size n sender sending v
  step-Sound inner size n sender done v = (v, λ p e. e, omega arith, λ _. refl)

  -- What holds of the rest of a call holds of the call, after a round that goes on.
  earlier-Answers :
      (n : ℕ) (d d' : ChunkedDecoder R Sender Sending)
      (r : ChunkedDecoder R Sender Sending × Poll Bytes)
      → Reads ext io stream d [] d'
      → Answers ext io stream d' n r
      → Answers ext io stream d n r
  earlier-Answers n d d' (e, ready bytes) back (v, reads, short, stop) =
      (v, λ p h. back (bytes ++ p) (reads p h), short, stop)
  earlier-Answers n d d' (e, pending) back (v, reads) = (v, λ p h. back p (reads p h))
  earlier-Answers n d d' (e, failed err) back a = tt
  earlier-Answers n d d' (e, panic) back a = absurd a
  earlier-Answers n d d' (e, out_of_fuel) back a = absurd a

  -- Over a stream of any bytes on which no read fails, with a header parser that reads no further
  -- than its input, a valid decoder, and fuel for each byte to come and three rounds more: a call
  -- ends without a panic; it fails, or the decoder stays valid and what was read since is what the
  -- chunked format has there; it returns no more than the buffer holds, and no bytes only when it
  -- is done.
  pub poll_read-Answers :
      (fuel n : ℕ) (d : ChunkedDecoder R Sender Sending)
      → measure ext io stream d < fuel
      → IsValid ext d
      → Answers ext io stream d n (poll_read ext io fuel d n)
  unfolding poll_read
  poll_read-Answers zero n d enough v = absurd (omega arith)
  poll_read-Answers (suc fuel) n d enough v =
      go (λ d' less v'. poll_read-Answers fuel n d' less v') (step ext io d n)
        (step-Sound d.inner d.size n d.trailer_sender d.state v)
    where
      go :
          ((d' : ChunkedDecoder R Sender Sending)
            → measure ext io stream d' < fuel
            → IsValid ext d'
            → Answers ext io stream d' n (poll_read ext io fuel d' n))
          → (f : Flow (ChunkedDecoder R Sender Sending)) → Sound ext io stream d n f
          → Answers ext io stream d n (elim f [
            | continue d' ↦ poll_read ext io fuel d' n
            | return d' outcome ↦ (d', outcome)
          ])
      go again (continue d') (v', back, less) =
          earlier-Answers n d d' (poll_read ext io fuel d' n) back (again d' (omega arith) v')
      go again (return d' outcome) h = h

pub new-IsValid :
    {Trailers Sender Sending R : Type 0} (ext : Trailing Trailers Sender Sending) (inner : R)
    (sender : Sender)
    → IsValid ext (new inner sender)
unfolding new
new-IsValid ext inner sender = record {
  size_fits = omega arith;
  state_fits = tt;
  sender = (sender, refl);
}
