-- ===== src/Chunked/Decoder/Sound.antt =====
-- What one round of the loop of `ChunkedDecoder::poll_read` tells of the bytes it has read,
-- whatever they are: the fields stay valid, and the bytes fit the chunked format as far as they are
-- accepted.
pub mod Chunks
pub mod Bodies
pub mod Trailers
use async_h.Base.{
  ℕ, ◌+◌, ◌-◌, ◌≤◌, ◌<◌, ◌≡◌, refl, sym, subst, ◌∙◌, List, [], ◌∷◌, ◌++◌, some, arith, length,
}
use async_h.Base.Bytes.{Bytes}
use async_h.Io.{Poll, ready, failed, pending, panic, out_of_fuel, Read, Stream, Serves}
use async_h.Chunked.Wire.{cr, lf, u64_max, size_value, AfterSize, IsChunked}
use async_h.Chunked.Decoder.{
  complete, Trailing, State, chunk_size, chunk_size_expect_lf, chunk_body, chunk_body_expect_cr,
  chunk_body_expect_lf, trailers, trailer_sending, done, ChunkedDecoder, Flow, continue, return,
  on_ready, one_byte, trailers_size,
}
use async_h.Chunked.Decoder.Owes.{HasSender}
use async_h.Chunked.Decoder.Rounds.{measure}

-- What the decoder takes for a trailer part: nothing, as at the end of the stream, or bytes that
-- begin with a header block which the header parser completes at its end and which fits the buffer.
pub data BeginsTrailer {Trailers Sender Sending : Type 0} (ext : Trailing Trailers Sender Sending)
    (wire : Bytes) : Type 0 where
  absent : wire ≡ [] → BeginsTrailer ext wire
  block :
      (front back : Bytes) (headers : List (Bytes × Bytes))
      → wire ≡ front ++ back
      → length front ≤ trailers_size
      → ext.parse_headers front ≡ complete (length front) headers
      → BeginsTrailer ext wire

-- The header parser reads no further than its input.
abbrev pub ParsesWithin :
    {Trailers Sender Sending : Type 0} → Trailing Trailers Sender Sending → Type 0
ParsesWithin ext =
    (buf : Bytes) (offset : ℕ) (headers : List (Bytes × Bytes))
    → ext.parse_headers buf ≡ complete offset headers
    → offset ≤ length buf

-- What the size, or the buffer of the trailers, is in a state.
abbrev pub StateFits : {Sending : Type 0} → State Sending → ℕ → Type 0
StateFits chunk_body size = 0 < size
StateFits chunk_body_expect_cr size = size ≡ 0
StateFits chunk_body_expect_lf size = size ≡ 0
StateFits (trailers buf) size = length buf ≤ trailers_size
StateFits _ size = Unit

module _ {Trailers Sender Sending : Type 0} (ext : Trailing Trailers Sender Sending) where
  pub record IsValid {R : Type 0} (d : ChunkedDecoder R Sender Sending) : Type 0 where
    pub size_fits : d.size ≤ u64_max
    pub state_fits : StateFits d.state d.size
    pub sender : HasSender ext d.state d.trailer_sender

  -- From a state and a size on, `wire` is read as the payload `p`.
  abbrev pub HoldsIn : State Sending → ℕ → Bytes → Bytes → Type 0
  HoldsIn chunk_size size wire p =
      (digits wire' : Bytes) × (total : ℕ) × (size_value size digits ≡ some total)
      × (wire ≡ digits ++ (cr ∷ lf ∷ wire'))
      × AfterSize (BeginsTrailer ext) total wire' p
  HoldsIn chunk_size_expect_lf size wire p =
      (wire' : Bytes) × (wire ≡ lf ∷ wire') × AfterSize (BeginsTrailer ext) size wire' p
  HoldsIn chunk_body size wire p = AfterSize (BeginsTrailer ext) size wire p
  HoldsIn chunk_body_expect_cr size wire p =
      (wire' : Bytes) × (wire ≡ cr ∷ lf ∷ wire') × IsChunked (BeginsTrailer ext) wire' p
  HoldsIn chunk_body_expect_lf size wire p =
      (wire' : Bytes) × (wire ≡ lf ∷ wire') × IsChunked (BeginsTrailer ext) wire' p
  HoldsIn (trailers buf) size wire p = (p ≡ []) × BeginsTrailer ext (buf ++ wire)
  HoldsIn (trailer_sending sending) size wire p = p ≡ []
  HoldsIn done size wire p = p ≡ []

module _ {Trailers Sender Sending R : Type 0} (ext : Trailing Trailers Sender Sending) (io : Read R)
    (stream : Stream io) where
  abbrev pub Holds : ChunkedDecoder R Sender Sending → Bytes → Type 0
  Holds d p = HoldsIn ext d.state d.size (stream.rest d.inner) p

  -- What is read from `d'` on is, with `bytes` before it, read from `d` on.
  abbrev pub Reads :
      ChunkedDecoder R Sender Sending → Bytes → ChunkedDecoder R Sender Sending → Type 0
  Reads d bytes d' = (p : Bytes) → Holds d' p → Holds d (bytes ++ p)

  -- The outcome of a call from `d`, on a buffer of length `n`.
  abbrev pub Answers :
      ChunkedDecoder R Sender Sending → ℕ → ChunkedDecoder R Sender Sending × Poll Bytes → Type 0
  Answers d n (d', ready bytes) =
      IsValid ext d' × Reads d bytes d' × (length bytes ≤ n) × (bytes ≡ [] → d'.state ≡ done)
  Answers d n (d', pending) = IsValid ext d' × Reads d [] d'
  Answers d n (d', failed e) = Unit
  Answers d n (d', panic) = ⊥
  Answers d n (d', out_of_fuel) = ⊥

  -- The same after one round.
  abbrev pub Sound :
      ChunkedDecoder R Sender Sending → ℕ → Flow (ChunkedDecoder R Sender Sending) → Type 0
  Sound d n (continue d') =
      IsValid ext d' × Reads d [] d' × (measure ext io stream d' < measure ext io stream d)
  Sound d n (return d' outcome) = Answers d n (d', outcome)

  -- A round that begins with a read.
  pub read_then :
      (n m : ℕ) (d : ChunkedDecoder R Sender Sending) (o : R × Poll Bytes)
      (k : ChunkedDecoder R Sender Sending → Bytes → Flow (ChunkedDecoder R Sender Sending))
      → Serves stream.rest (stream.rest d.inner) m o
      → IsValid ext d
      → ((inner : R) (bytes : Bytes)
          → stream.rest d.inner ≡ bytes ++ stream.rest inner
          → length bytes ≤ m
          → (bytes ≡ [] → 0 < m → stream.rest d.inner ≡ [])
          → Sound d n (k (record d { inner = inner }) bytes))
      → Sound d n (on_ready d o k)
  read_then n m d (inner, ready bytes) k s v go = go inner bytes s.0 s.1 s.2
  read_then n m d (inner, pending) k s v go = (
    record { size_fits = v.size_fits; state_fits = v.state_fits; sender = v.sender },
    λ p h. subst (λ w. HoldsIn ext d.state d.size w p) s h,
  )
  read_then n m d (inner, failed e) k s v go = absurd s
  read_then n m d (inner, panic) k s v go = absurd s
  read_then n m d (inner, out_of_fuel) k s v go = absurd s

  -- A round that begins with the read of one byte.
  pub byte_then :
      (n : ℕ) (d : ChunkedDecoder R Sender Sending)
      (k : ChunkedDecoder R Sender Sending → ℕ → Flow (ChunkedDecoder R Sender Sending))
      → IsValid ext d
      → ((inner : R) (b : ℕ)
          → stream.rest d.inner ≡ b ∷ stream.rest inner
          → Sound d n (k (record d { inner = inner }) b))
      → Sound d n (on_ready d (io.poll_read d.inner 1) (one_byte k))
  byte_then n d k v go =
      read_then n 1 d (io.poll_read d.inner 1) (one_byte k) (stream.serves d.inner 1) v
        λ inner bytes cut short stop. one inner bytes cut short
    where
      one :
          (inner : R) (bytes : Bytes)
          → stream.rest d.inner ≡ bytes ++ stream.rest inner
          → length bytes ≤ 1
          → Sound d n (one_byte k (record d { inner = inner }) bytes)
      one inner [] cut short = tt
      one inner (x ∷ []) cut short = go inner x cut
      one inner (x ∷ y ∷ rest) cut short = absurd (omega arith)
