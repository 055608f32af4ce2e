-- ===== src/Chunked/Decoder/Owes.antt =====
-- What a decoder still owes its reader: the payload of the chunked message whose remaining bytes
-- its inner stream holds.
use async_h.Base.{ℕ, ◌≤◌, ◌<◌, ◌≡◌, ◌≢◌, List, [], ◌∷◌, ◌++◌, Option, some, length}
use async_h.Base.Bytes.{Bytes}
use async_h.Io.{Read, Stream}
use async_h.Chunked.Wire.{cr, lf, size_value, AfterSize, IsChunked}
use async_h.Chunked.Decoder.{
  partial, complete, Trailing, State, chunk_size, chunk_size_expect_lf, chunk_body,
  chunk_body_expect_cr, chunk_body_expect_lf, trailers, trailer_sending, done, ChunkedDecoder,
  trailers_size,
}

-- A trailer part: nothing, as at the end of the stream, or a header block that fits the decoder's
-- buffer, which the header parser completes at its end and not before.
pub data IsTrailer {Trailers Sender Sending : Type 0} (ext : Trailing Trailers Sender Sending)
    (wire : Bytes) : Type 0 where
  absent : wire ≡ [] → IsTrailer ext wire
  block :
      (headers : List (Bytes × Bytes))
      → length wire ≤ trailers_size
      → ext.parse_headers wire ≡ complete (length wire) headers
      → ((a b : Bytes) → wire ≡ a ++ b → a ≢ [] → b ≢ [] → ext.parse_headers a ≡ partial)
      → IsTrailer ext wire

module _ {Trailers Sender Sending : Type 0} (ext : Trailing Trailers Sender Sending) where
  -- In each state, with a size and the bytes still to come.
  abbrev pub OwesIn : State Sending → ℕ → Bytes → Bytes → Type 0
  OwesIn chunk_size size wire p =
      (digits wire' : Bytes) × (total : ℕ) × (size_value size digits ≡ some total)
      × (wire ≡ digits ++ (cr ∷ lf ∷ wire'))
      × AfterSize (IsTrailer ext) total wire' p
  OwesIn chunk_size_expect_lf size wire p =
      (wire' : Bytes) × (wire ≡ lf ∷ wire') × AfterSize (IsTrailer ext) size wire' p
  OwesIn chunk_body size wire p = (0 < size) × AfterSize (IsTrailer ext) size wire p
  OwesIn chunk_body_expect_cr size wire p =
      (wire' : Bytes) × (wire ≡ cr ∷ lf ∷ wire') × (size ≡ 0) × IsChunked (IsTrailer ext) wire' p
  OwesIn chunk_body_expect_lf size wire p =
      (wire' : Bytes) × (wire ≡ lf ∷ wire') × (size ≡ 0) × IsChunked (IsTrailer ext) wire' p
  OwesIn (trailers buf) size wire p =
      (p ≡ []) × IsTrailer ext (buf ++ wire) × (buf ≢ [] → wire ≢ [])
  OwesIn (trailer_sending sending) size wire p = p ≡ []
  OwesIn done size wire p = p ≡ []

  -- The sender is there until it is used.
  abbrev pub HasSender : State Sending → Option Sender → Type 0
  HasSender (trailer_sending sending) sender = Unit
  HasSender done sender = Unit
  HasSender _ sender = (s : Sender) × (sender ≡ some s)

  module _ {R : Type 0} {io : Read R} (stream : Stream io) where
    pub record Owes (d : ChunkedDecoder R Sender Sending) (p : Bytes) : Type 0 where
      pub owes : OwesIn d.state d.size (stream.rest d.inner) p
      pub sender : HasSender d.state d.trailer_sender
