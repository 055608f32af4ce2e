-- ===== src/Chunked/Tests.antt =====
-- Runs of src/chunked, and instances of its theorems, with a stream that is a list of bytes and is
-- never pending, and a header parser that knows the empty header block only.
use async_h.Base.{ℕ, ◌+◌, ◌≤◌, ◌≡◌, refl, false, List, [], ◌∷◌, arith, length, replicate}
use async_h.Base.Bytes.{Bytes, codes}
use async_h.Io.{ready}
use async_h.Io.Samples.{bytes_io, bytes_stream}
use async_h.Chunked.Samples.{ext, wire, wire-IsChunked}
use async_h.Chunked.Wire.{cr, lf, to_hex, IsChunked}
use async_h.Chunked.Encoder.{ChunkedEncoder, frame, max_bytes_to_read, encoder}
use async_h.Chunked.Encoder as Encoder
use async_h.Chunked.Encoder.Frame.{max_bytes_to_read-fits}
use async_h.Chunked.Encoder.Emits.{Writes, poll_read-Writes, emit, emit-IsChunked}
use async_h.Chunked.Decoder.{Parsed, partial, complete, Trailing, new}
use async_h.Chunked.Decoder as Decoder
use async_h.Chunked.Encoder.Log.{ceil_log16, ceil_log16_up_to, exact}
use async_h.Chunked.Decoder.Sound.{ParsesWithin, BeginsTrailer, Answers}
use async_h.Chunked.Decoder.Answers.{poll_read-Answers, new-IsValid}
use async_h.Chunked.RoundTrip.Accepts.{drain-IsChunked}
use async_h.Chunked.RoundTrip.Ends.{answers, drain-done}
use async_h.Chunked.RoundTrip.{drain, drain-emit, ParsesEmpty}
use async_h.Chunked.Decoder.Rounds.{Delivers}
use async_h.Chunked.Decoder.Delivers.{poll_read-Delivers, new-Owes}

-- The six lengths of the unit test in src/chunked/encoder.rs: 6, 7, 20, 22, 260 and 262.
max_bytes_example :
    (max_bytes_to_read ceil_log16 6 ≡ ready 1)
    × (max_bytes_to_read ceil_log16 7 ≡ ready 2)
    × (max_bytes_to_read ceil_log16 20 ≡ ready 15)
    × (max_bytes_to_read ceil_log16 22 ≡ ready 16)
    × (max_bytes_to_read ceil_log16 260 ≡ ready 254)
    × (max_bytes_to_read ceil_log16 262 ≡ ready 255)
unfolding max_bytes_to_read ceil_log16_up_to
max_bytes_example = (refl, refl, refl, refl, refl, refl)

abbrev body : Bytes
body = codes "Wikipedia in chunks."

abbrev bufs : List Bytes
bufs = replicate 20 0 ∷ replicate 6 0 ∷ replicate 30 0 ∷ replicate 8 0 ∷ []

emit_example :
    (emit ceil_log16 bytes_io (record { reader = codes "Wikipedia"; done = false }) bufs).1
    ≡ codes "9\r\nWikipedia\r\n0\r\n\r\n"
unfolding encoder emit ceil_log16_up_to
emit_example = refl

max_bytes_to_read-fits_example :
    (n : ℕ) × (max_bytes_to_read ceil_log16 261 ≡ ready n)
    × (1 ≤ n)
    × ((bytes : ℕ) → bytes ≤ n → bytes + length (to_hex bytes) + 4 ≤ 261)
max_bytes_to_read-fits_example =
    max_bytes_to_read-fits ceil_log16 exact 261 (omega arith) (omega arith)

poll_read-Writes_example : Writes bytes_stream body (replicate 20 0) (
    Encoder.poll_read ceil_log16 bytes_io (record { reader = body; done = false }) (replicate 20 0))
poll_read-Writes_example =
    poll_read-Writes bytes_stream ceil_log16 exact body (replicate 20 0) (omega arith, omega arith)

emit-IsChunked_example :
    IsChunked
      (λ wire. wire ≡ cr ∷ lf ∷ [])
      (emit ceil_log16 bytes_io (record { reader = body; done = false }) bufs).1
      body
unfolding encoder emit ceil_log16_up_to
emit-IsChunked_example =
    emit-IsChunked bytes_stream ceil_log16 exact (λ wire. wire ≡ cr ∷ lf ∷ []) refl body bufs
      (
        (omega arith, omega arith),
        (
          (omega arith, omega arith),
          ((omega arith, omega arith), ((omega arith, omega arith), tt)),
        ),
      )
      refl

poll_read-Delivers_example :
    Delivers ext bytes_io bytes_stream 3
      (codes "Wiki")
      (Decoder.poll_read ext bytes_io 40 (new wire tt) 3)
unfolding new
poll_read-Delivers_example =
    poll_read-Delivers ext bytes_io bytes_stream 40 3 (new wire tt) (codes "Wiki") (omega arith)
      (omega arith) (new-Owes ext bytes_io bytes_stream wire tt (codes "Wiki") wire-IsChunked)

ext-ParsesEmpty : ParsesEmpty ext
ext-ParsesEmpty = record { whole = refl; part = refl }

abbrev emitted : Bytes
emitted = codes "F\r\nWikipedia in ch\r\n1\r\nu\r\n4\r\nnks.\r\n0\r\n\r\n"

drain-emit_example :
    (drain ext bytes_io bytes_stream (new emitted tt) (3 ∷ 30 ∷ 8 ∷ 8 ∷ 8 ∷ [])).1 ≡ body
unfolding drain Decoder.decoder encoder emit ceil_log16_up_to
drain-emit_example =
    drain-emit ext ext-ParsesEmpty bytes_io bytes_stream bytes_io bytes_stream ceil_log16 exact body
      bufs emitted tt (3 ∷ 30 ∷ 8 ∷ 8 ∷ 8 ∷ [])
      (
        (omega arith, omega arith),
        (
          (omega arith, omega arith),
          ((omega arith, omega arith), ((omega arith, omega arith), tt)),
        ),
      )
      (omega arith, (omega arith, (omega arith, (omega arith, (omega arith, tt))))) refl refl refl

drain-done_example :
    (drain ext bytes_io bytes_stream (new wire tt) (3 ∷ 9 ∷ 1 ∷ 1 ∷ 1 ∷ [])).0.state ≡ Decoder.done
unfolding answers Decoder.decoder
drain-done_example =
    drain-done ext bytes_io bytes_stream (3 ∷ 9 ∷ 1 ∷ 1 ∷ 1 ∷ []) (new wire tt) (codes "Wiki")
      (omega arith, (omega arith, (omega arith, (omega arith, (omega arith, tt)))))
      (new-Owes ext bytes_io bytes_stream wire tt (codes "Wiki") wire-IsChunked) (omega arith)

ext-ParsesWithin : ParsesWithin ext
ext-ParsesWithin buf offset headers e = ground arith

-- Bytes that are no chunked message: the size is followed by a space.
poll_read-Answers_example :
    Answers ext bytes_io bytes_stream
      (new (codes "4 \r\nWiki") tt)
      3
      (Decoder.poll_read ext bytes_io 40 (new (codes "4 \r\nWiki") tt) 3)
poll_read-Answers_example =
    poll_read-Answers ext ext-ParsesWithin bytes_io bytes_stream 40 3 (new (codes "4 \r\nWiki") tt)
      (unfold new in omega arith) (new-IsValid ext (codes "4 \r\nWiki") tt)

-- A message that ends with the stream, where the empty line is missing.
drain-IsChunked_example :
    IsChunked
      (BeginsTrailer ext)
      (codes "4\r\nWiki\r\n0\r\n")
      (drain ext bytes_io bytes_stream (new (codes "4\r\nWiki\r\n0\r\n") tt) (3 ∷ 9 ∷ 1 ∷ [])).1
unfolding drain Decoder.decoder
drain-IsChunked_example =
    drain-IsChunked ext bytes_io bytes_stream ext-ParsesWithin (codes "4\r\nWiki\r\n0\r\n") tt
      (3 ∷ 9 ∷ 1 ∷ []) (tt, (tt, (tt, tt))) refl
