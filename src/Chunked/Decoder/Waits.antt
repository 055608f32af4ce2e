-- ===== src/Chunked/Decoder/Waits.antt =====
-- `ChunkedDecoder::poll_read` when it is pending: who wakes the task that reads.
use async_h.Base.{
  ℕ, zero, suc, ◌≡◌, refl, sym, subst, ap, arith, Bool, true, false, not, ◌⊎◌, inl, inr, Option,
  some, none, [], ◌∷◌, ◌++◌, ◌==◌, if◌then◌else◌, length, get_elem?,
}
use async_h.Base.Bytes.{Bytes}
use async_h.Io.{Poll, ready, failed, pending, panic, out_of_fuel, Read}
use async_h.Chunked.Wire.{cr, lf}
use async_h.Chunked.Decoder.{
  Parsed, partial, invalid, complete, Trailing, State, chunk_size, chunk_size_expect_lf, chunk_body,
  chunk_body_expect_cr, chunk_body_expect_lf, trailers, trailer_sending, done, ChunkedDecoder, Flow,
  continue, return, on_ready, one_byte, on_size_byte, expect, on_body, send_trailers, unexpected_at,
  on_parsed, on_trailers, on_polled, insert_all, step_in, step, poll_read,
}

-- After a read that is pending, the reader keeps the waker of the task.
abbrev pub OnPending : {R : Type 0} → (R → Type 0) → R × Poll Bytes → Type 0
OnPending Registered (r, pending) = Registered r
OnPending Registered (r, ready bytes) = Unit
OnPending Registered (r, failed e) = Unit
OnPending Registered (r, panic) = Unit
OnPending Registered (r, out_of_fuel) = Unit

module _ {Trailers Sender Sending : Type 0} (ext : Trailing Trailers Sender Sending) where
  -- The other ways in which a call waits: for more of the trailers, which it has asked no reader
  -- for, and for the channel, which was polled.
  abbrev pub Parks : State Sending → Type 0
  Parks (trailers buf) = ext.parse_headers buf ≡ partial
  Parks (trailer_sending sending) = (before : Sending) × (ext.poll before ≡ (sending, false))
  Parks chunk_size = ⊥
  Parks chunk_size_expect_lf = ⊥
  Parks chunk_body = ⊥
  Parks chunk_body_expect_cr = ⊥
  Parks chunk_body_expect_lf = ⊥
  Parks done = ⊥

module _ {Trailers Sender Sending R : Type 0} (ext : Trailing Trailers Sender Sending)
    (Registered : R → Type 0) where
  -- What holds of a call, or of a round, that returns `pending`.
  abbrev Waits : ChunkedDecoder R Sender Sending × Poll Bytes → Type 0
  Waits (d, o) = o ≡ pending → Registered d.inner ⊎ Parks ext d.state

  abbrev RoundWaits : Flow (ChunkedDecoder R Sender Sending) → Type 0
  RoundWaits (continue d) = Unit
  RoundWaits (return d o) = Waits (d, o)

  abbrev Goes : Flow (ChunkedDecoder R Sender Sending) → Type 0
  Goes f = (d : ChunkedDecoder R Sender Sending) → f ≡ return d pending → ⊥

  pending-RoundWaits :
      (f : Flow (ChunkedDecoder R Sender Sending))
      → ((d : ChunkedDecoder R Sender Sending)
          → f ≡ return d pending
          → Registered d.inner ⊎ Parks ext d.state)
      → RoundWaits f
  pending-RoundWaits (continue d) h = tt
  pending-RoundWaits (return d o) h = λ e. h d (ap (return d) e)

  Goes-RoundWaits : (f : Flow (ChunkedDecoder R Sender Sending)) → Goes f → RoundWaits f
  Goes-RoundWaits f h = pending-RoundWaits f (λ d e. absurd (h d e))

  on_ready-RoundWaits :
      (d : ChunkedDecoder R Sender Sending) (o : R × Poll Bytes)
      (k : ChunkedDecoder R Sender Sending → Bytes → Flow (ChunkedDecoder R Sender Sending))
      → OnPending Registered o
      → ((d' : ChunkedDecoder R Sender Sending) (bytes : Bytes) → RoundWaits (k d' bytes))
      → RoundWaits (on_ready d o k)
  on_ready-RoundWaits d (r, ready bytes) k h rest = rest (record d { inner = r }) bytes
  on_ready-RoundWaits d (r, pending) k h rest = λ e. inl h
  on_ready-RoundWaits d (r, failed why) k h rest = λ e. cc
  on_ready-RoundWaits d (r, panic) k h rest = λ e. cc
  on_ready-RoundWaits d (r, out_of_fuel) k h rest = λ e. cc

  one_byte-RoundWaits :
      (k : ChunkedDecoder R Sender Sending → ℕ → Flow (ChunkedDecoder R Sender Sending))
      → ((d : ChunkedDecoder R Sender Sending) (byte : ℕ) → Goes (k d byte))
      → (d : ChunkedDecoder R Sender Sending) (bytes : Bytes) → RoundWaits (one_byte k d bytes)
  one_byte-RoundWaits k h d [] = λ e. cc
  one_byte-RoundWaits k h d (byte ∷ []) = Goes-RoundWaits (k d byte) (h d byte)
  one_byte-RoundWaits k h d (byte ∷ more ∷ rest) = λ e. cc

  on_size_byte-Goes : (d : ChunkedDecoder R Sender Sending) (byte : ℕ) → Goes (on_size_byte d byte)
  unfolding on_size_byte
  on_size_byte-Goes d byte d' e = ground arith

  expect-Goes :
      (byte : ℕ) (next : State Sending) (d : ChunkedDecoder R Sender Sending) (b : ℕ)
      → Goes (expect byte next d b)
  unfolding expect
  expect-Goes byte next d b d' e = ground arith

  on_body-Goes : (d : ChunkedDecoder R Sender Sending) (bytes : Bytes) → Goes (on_body d bytes)
  unfolding on_body
  on_body-Goes d bytes d' e = ground arith

  send_trailers-Goes :
      (t : Trailers) (d : ChunkedDecoder R Sender Sending) → Goes (send_trailers ext t d)
  unfolding send_trailers
  send_trailers-Goes t d d' e = ground arith

  unexpected_at-Goes :
      (d : ChunkedDecoder R Sender Sending) (byte : Option ℕ) → Goes (unexpected_at ext d byte)
  unexpected_at-Goes d none d' e = cc
  unexpected_at-Goes d (some byte) d' e = cc

  if-Goes :
      (b : Bool) (x y : Flow (ChunkedDecoder R Sender Sending))
      → Goes x
      → Goes y
      → Goes (if b then x else y)
  if-Goes true x y h k = h
  if-Goes false x y h k = k

  -- A round on the trailers returns `pending` only where the parser wants more.
  on_parsed-pending :
      (d d' : ChunkedDecoder R Sender Sending) (buf : Bytes) (p : Parsed)
      → on_parsed ext d buf p ≡ return d' pending
      → (p ≡ partial) × (d' ≡ d)
  unfolding on_parsed
  on_parsed-pending d d' buf invalid e = cc
  on_parsed-pending d d' buf partial e = ground arith
  on_parsed-pending d d' buf (complete offset headers) e = absurd (
      if-Goes (not (offset == length buf)) (unexpected_at ext d (get_elem? buf offset))
        (send_trailers ext (insert_all ext ext.new headers) d)
        (unexpected_at-Goes d (get_elem? buf offset))
        (send_trailers-Goes (insert_all ext ext.new headers) d) d' e)

  on_trailers-pending :
      (before : Bytes) (d d' : ChunkedDecoder R Sender Sending) (bytes : Bytes)
      → on_trailers ext before d bytes ≡ return d' pending
      → (ext.parse_headers (before ++ bytes) ≡ partial)
        × (d' ≡ record d { state = trailers (before ++ bytes) })
  unfolding on_trailers
  on_trailers-pending before d d' bytes e = ground (
    arith,
    send_trailers-Goes ext.new (record d { state = trailers (before ++ bytes) }) d',
    on_parsed-pending (record d { state = trailers (before ++ bytes) }) d' (before ++ bytes)
        (ext.parse_headers (before ++ bytes)),
  )

  on_trailers-RoundWaits :
      (before : Bytes) (d : ChunkedDecoder R Sender Sending) (bytes : Bytes)
      → RoundWaits (on_trailers ext before d bytes)
  on_trailers-RoundWaits before d bytes =
      pending-RoundWaits (on_trailers ext before d bytes) λ d' e.
        let (wants_more, same) = on_trailers-pending before d d' bytes e in
        inr (subst (λ x. Parks ext x.state) (sym same) wants_more)

  on_polled-RoundWaits :
      (d : ChunkedDecoder R Sender Sending) (before : Sending) (p : Sending × Bool)
      → ext.poll before ≡ p
      → RoundWaits (on_polled ext d p)
  on_polled-RoundWaits d before (sending, true) e = tt
  on_polled-RoundWaits d before (sending, false) e = λ _. inr (before, e)

  module _ (io : Read R)
      (registers : (r : R) (n : ℕ) → OnPending Registered (io.poll_read r n)) where
    step-RoundWaits :
        (s : State Sending) (d : ChunkedDecoder R Sender Sending) (n : ℕ)
        → RoundWaits (step_in ext io s d n)
    unfolding step_in
    step-RoundWaits chunk_size d n =
        on_ready-RoundWaits d _ _ (registers d.inner 1)
          (one_byte-RoundWaits on_size_byte on_size_byte-Goes)
    step-RoundWaits chunk_size_expect_lf d n =
        on_ready-RoundWaits d _ _ (registers d.inner 1) (one_byte-RoundWaits _ (expect-Goes lf _))
    step-RoundWaits chunk_body d n =
        on_ready-RoundWaits d _ _ (registers d.inner _)
          (λ d' bytes. Goes-RoundWaits (on_body d' bytes) (on_body-Goes d' bytes))
    step-RoundWaits chunk_body_expect_cr d n =
        on_ready-RoundWaits d _ _ (registers d.inner 1) (one_byte-RoundWaits _ (expect-Goes cr _))
    step-RoundWaits chunk_body_expect_lf d n =
        on_ready-RoundWaits d _ _ (registers d.inner 1) (one_byte-RoundWaits _ (expect-Goes lf _))
    step-RoundWaits (trailers buf) d n =
        on_ready-RoundWaits d _ _ (registers d.inner _) (on_trailers-RoundWaits buf)
    step-RoundWaits (trailer_sending sending) d n = on_polled-RoundWaits d sending _ refl
    step-RoundWaits done d n = λ e. cc

    rounds-Waits :
        (fuel n : ℕ) (d : ChunkedDecoder R Sender Sending) → Waits (poll_read ext io fuel d n)
    unfolding poll_read
    rounds-Waits zero n d = λ e. cc
    rounds-Waits (suc fuel) n d =
        go (rounds-Waits fuel n) (step ext io d n) (step-RoundWaits d.state d n)
      where
        go :
            ((d' : ChunkedDecoder R Sender Sending) → Waits (poll_read ext io fuel d' n))
            → (f : Flow (ChunkedDecoder R Sender Sending)) → RoundWaits f
            → Waits (elim f [
              | continue d' ↦ poll_read ext io fuel d' n
              | return d' outcome ↦ (d', outcome)
            ])
        go again (continue d') h = again d'
        go again (return d' o) h = h

    -- Over a reader that keeps the waker of each read that is pending, whatever it reads, a call
    -- of the decoder that is pending leaves the waker with the reader, or with the channel of the
    -- trailers, which it has just polled; or else it has read a part of the trailers, of which the
    -- parser wants more.
    pub poll_read-Waits :
        (fuel n : ℕ) (d : ChunkedDecoder R Sender Sending)
        → (poll_read ext io fuel d n).1 ≡ pending
        → Registered (poll_read ext io fuel d n).0.inner
          ⊎ Parks ext (poll_read ext io fuel d n).0.state
    poll_read-Waits fuel n d h = rounds-Waits fuel n d h
