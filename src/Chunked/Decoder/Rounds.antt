-- ===== src/Chunked/Decoder/Rounds.antt =====
-- What one round of the loop of `ChunkedDecoder::poll_read` does to the payload that the decoder
-- owes.
pub mod Chunks
pub mod Trailers
use async_h.Base.{
  ℕ, zero, suc, ◌+◌, ◌-◌, ◌≤◌, ◌<◌, ◌≡◌, ◌≢◌, refl, sym, ap, subst, ◌∙◌, Bool, true, false, [], ◌∷◌,
  ◌++◌, Option, some, Option-cases, inl, inr, arith, ◌==◌, ltb, if◌then◌else◌, length, min,
  append-nil, append_assoc, append-cut, length-append,
}
use async_h.Base.Bytes.{Bytes}
use async_h.Io.{Poll, ready, failed, pending, panic, out_of_fuel, Read, Stream, Serves}
use async_h.Chunked.Wire.{
  cr, lf, hex_digit, push_digit, size_value, AfterSize, last, chunk, IsChunked, sized,
}
use async_h.Chunked.Decoder.{
  partial, complete, Trailing, State, chunk_size, chunk_size_expect_lf, chunk_body,
  chunk_body_expect_cr, chunk_body_expect_lf, trailers, trailer_sending, done, ChunkedDecoder, new,
  Flow, continue, return, on_ready, one_byte, on_size_byte, expect, on_body, send_trailers,
  insert_all, on_parsed, on_trailers, on_polled, step_in, step, poll_read, trailers_size,
}
use async_h.Chunked.Decoder.Owes.{IsTrailer, absent, block, OwesIn, HasSender, Owes}

-- How far a state is from the end, beyond the bytes to come.
abbrev pub rank : {Sending : Type 0} → State Sending → ℕ
rank (trailers buf) = 2
rank (trailer_sending sending) = 1
rank done = 0
rank _ = 3

abbrev pub decoder :
    {R Sender Sending : Type 0}
    → R
    → State Sending
    → ℕ
    → Option Sender
    → ChunkedDecoder R Sender Sending
decoder inner state size sender = record {
  inner = inner;
  state = state;
  size = size;
  trailer_sender = sender;
}

module _ {Trailers Sender Sending R : Type 0} (ext : Trailing Trailers Sender Sending) (io : Read R)
    (stream : Stream io) where
  abbrev pub measure : ChunkedDecoder R Sender Sending → ℕ
  measure d = length (stream.rest d.inner) + rank d.state

  -- The outcome of a call with `p` still to deliver, on a buffer of length `n`.
  abbrev pub Delivers : ℕ → Bytes → ChunkedDecoder R Sender Sending × Poll Bytes → Type 0
  Delivers n p (d, ready bytes) =
      (p' : Bytes) × (p ≡ bytes ++ p')
      × Owes ext stream d p'
      × (length bytes ≤ n)
      × (bytes ≡ [] → (p ≡ []) × (d.state ≡ done))
  Delivers n p (d, pending) = Owes ext stream d p
  Delivers n p (d, failed e) = ⊥
  Delivers n p (d, panic) = ⊥
  Delivers n p (d, out_of_fuel) = ⊥

  -- The same after one round.
  abbrev pub After : ℕ → ℕ → Bytes → Flow (ChunkedDecoder R Sender Sending) → Type 0
  After bound n p (continue d) = Owes ext stream d p × (measure d < bound)
  After bound n p (return d outcome) = Delivers n p (d, outcome)

  -- A round that begins with a read.
  pub read_then :
      (bound n m : ℕ) (p before : Bytes) (d : ChunkedDecoder R Sender Sending) (o : R × Poll Bytes)
      (k : ChunkedDecoder R Sender Sending → Bytes → Flow (ChunkedDecoder R Sender Sending))
      → Serves stream.rest before m o
      → ((inner : R) → stream.rest inner ≡ before → Owes ext stream (record d { inner = inner }) p)
      → ((inner : R) (bytes : Bytes)
          → before ≡ bytes ++ stream.rest inner
          → length bytes ≤ m
          → (bytes ≡ [] → 0 < m → before ≡ [])
          → After bound n p (k (record d { inner = inner }) bytes))
      → After bound n p (on_ready d o k)
  read_then bound n m p before d (inner, ready bytes) k s wait go = go inner bytes s.0 s.1 s.2
  read_then bound n m p before d (inner, pending) k s wait go = wait inner s
  read_then bound n m p before d (inner, failed e) k s wait go = absurd s
  read_then bound n m p before d (inner, panic) k s wait go = absurd s
  read_then bound n m p before d (inner, out_of_fuel) k s wait go = absurd s

  -- A round that begins with the read of one byte.
  pub byte_then :
      (n : ℕ) (p : Bytes) (d : ChunkedDecoder R Sender Sending) (b : ℕ) (w : Bytes)
      (k : ChunkedDecoder R Sender Sending → ℕ → Flow (ChunkedDecoder R Sender Sending))
      → Owes ext stream d p
      → stream.rest d.inner ≡ b ∷ w
      → ((inner : R)
          → stream.rest inner ≡ w
          → After (measure d) n p (k (record d { inner = inner }) b))
      → After (measure d) n p (on_ready d (io.poll_read d.inner 1) (one_byte k))
  byte_then n p d b w k o e go =
      read_then (measure d) n 1 p (stream.rest d.inner) d _ (one_byte k) (stream.serves d.inner 1)
        (λ inner same. record { owes = rw same o.owes; sender = o.sender })
        λ inner bytes cut short stop.
          one inner bytes (sym e ∙ cut) short (λ h. sym e ∙ stop h (omega arith))
    where
      one :
          (inner : R) (bytes : Bytes)
          → b ∷ w ≡ bytes ++ stream.rest inner
          → length bytes ≤ 1
          → (bytes ≡ [] → b ∷ w ≡ [])
          → After (measure d) n p (one_byte k (record d { inner = inner }) bytes)
      one inner [] cut short stop = absurd (cc (stop refl))
      one inner (x ∷ []) cut short stop =
          subst (λ y. After (measure d) n p (k (record d { inner = inner }) y)) (ground arith)
            (go inner (ground arith))
      one inner (x ∷ y ∷ rest) cut short stop = absurd (omega arith)
