-- ===== src/Chunked/Decoder.antt =====
-- src/chunked/decoder.rs: `ChunkedDecoder`. One round of the loop of `poll_read` is `step`; the
-- loop runs on fuel, and `Decoder.Delivers` shows how much is enough. The buffer of `Trailers` is
-- the part of it that has been filled. Foreign are the reader, `httparse::parse_headers`, and the
-- channel and map types of the trailers, the fields of `Trailing`.
pub mod Owes
pub mod Rounds
pub mod Delivers
pub mod Sound
pub mod Answers
pub mod Waits
use async_h.Base.{
  ℕ, zero, suc, ◌+◌, ◌-◌, ◌*◌, ◌≤◌, ◌<◌, Bool, true, false, not, List, [], ◌∷◌, ◌++◌, Option, none,
  some, ◌==◌, ltb, leb, if◌then◌else◌, length, min, get_elem?,
}
use async_h.Base.Bytes.{Bytes}
use async_h.Io.{
  IoError, unexpected_eof, unexpected_byte, size_overflow, invalid_headers, Poll, ready, failed,
  pending, panic, out_of_fuel, Read,
}
use async_h.Chunked.Wire.{cr, lf, u64_max, hex_digit, push_digit}

pub data Parsed : Type 0 where
  partial invalid : Parsed
  complete : ℕ → List (Bytes × Bytes) → Parsed

pub record Trailing (Trailers Sender Sending : Type 0) : Type 0 where
  pub new : Trailers
  pub insert : Trailers → Bytes → Bytes → Trailers
  pub from_utf8_lossy : Bytes → Bytes
  -- `sender.send(trailers)`, and a poll of that future: whether it is finished
  pub send : Sender → Trailers → Sending
  pub poll : Sending → Sending × Bool
  -- `httparse::parse_headers` with room for 16 headers
  pub parse_headers : Bytes → Parsed

pub data State (Sending : Type 0) : Type 0 where
  chunk_size chunk_size_expect_lf chunk_body chunk_body_expect_cr chunk_body_expect_lf :
      State Sending
  trailers : Bytes → State Sending
  trailer_sending : Sending → State Sending
  done : State Sending

pub record ChunkedDecoder (R Sender Sending : Type 0) : Type 0 where
  pub inner : R
  pub state : State Sending
  pub size : ℕ
  pub trailer_sender : Option Sender

-- One round of the loop: go round again, or return.
pub data Flow (D : Type 0) : Type 0 where
  continue : D → Flow D
  return : D → Poll Bytes → Flow D

abbrev pub usize_max : ℕ
usize_max = u64_max

abbrev pub trailers_size : ℕ
trailers_size = 8192

module _ {Trailers Sender Sending : Type 0} (ext : Trailing Trailers Sender Sending) where
  unfoldable pub insert_all : Trailers → List (Bytes × Bytes) → Trailers
  insert_all t [] = t
  insert_all t ((name, value) ∷ headers) =
      insert_all (ext.insert t name (ext.from_utf8_lossy value)) headers

module _ {R Sender Sending : Type 0} where
  unfoldable pub new : R → Sender → ChunkedDecoder R Sender Sending
  new inner sender = record {
    inner = inner;
    state = chunk_size;
    size = 0;
    trailer_sender = some sender;
  }

  abbrev stop : ChunkedDecoder R Sender Sending → IoError → Flow (ChunkedDecoder R Sender Sending)
  stop d e = return d (failed e)

  -- `ready!(…)?` on the outcome of an inner read.
  abbrev pub on_ready :
      ChunkedDecoder R Sender Sending
      → R × Poll Bytes
      → (ChunkedDecoder R Sender Sending → Bytes → Flow (ChunkedDecoder R Sender Sending))
      → Flow (ChunkedDecoder R Sender Sending)
  on_ready d (inner, ready bytes) k = k (record d { inner = inner }) bytes
  on_ready d (inner, failed e) k = return (record d { inner = inner }) (failed e)
  on_ready d (inner, pending) k = return (record d { inner = inner }) pending
  on_ready d (inner, panic) k = return (record d { inner = inner }) panic
  on_ready d (inner, out_of_fuel) k = return (record d { inner = inner }) out_of_fuel

  -- What `poll_read_byte` makes of the bytes that were read.
  abbrev pub one_byte :
      (ChunkedDecoder R Sender Sending → ℕ → Flow (ChunkedDecoder R Sender Sending))
      → ChunkedDecoder R Sender Sending
      → Bytes
      → Flow (ChunkedDecoder R Sender Sending)
  one_byte k d [] = stop d unexpected_eof
  one_byte k d (byte ∷ []) = k d byte
  one_byte k d (byte ∷ more ∷ rest) = stop d unexpected_eof

  unfoldable pub on_size_byte :
      ChunkedDecoder R Sender Sending → ℕ → Flow (ChunkedDecoder R Sender Sending)
  on_size_byte d byte = elim (hex_digit byte) [
    | some v ↦
        if ltb u64_max (d.size * 16 + v)
        then stop d size_overflow
        else continue (record d { size = d.size * 16 + v })
    | none ↦
        if byte == cr
        then continue (record d { state = chunk_size_expect_lf })
        else stop d (unexpected_byte byte)
  ]

  -- `expect_byte`
  unfoldable pub expect :
      ℕ
      → State Sending
      → ChunkedDecoder R Sender Sending
      → ℕ
      → Flow (ChunkedDecoder R Sender Sending)
  expect byte next d b =
      if b == byte then continue (record d { state = next }) else stop d (unexpected_byte b)

  unfoldable pub on_body :
      ChunkedDecoder R Sender Sending → Bytes → Flow (ChunkedDecoder R Sender Sending)
  on_body d bytes =
      if ltb d.size (length bytes)
      then return d panic
      else let left = d.size - length bytes in
        let d' : ChunkedDecoder R Sender Sending = record d { size = left } in
        if length bytes == 0
        then stop d' unexpected_eof
        else if left == 0
        then return (record d' { state = chunk_body_expect_cr }) (ready bytes)
        else return d' (ready bytes)

  module _ {Trailers : Type 0} (ext : Trailing Trailers Sender Sending) where
    unfoldable pub send_trailers :
        Trailers → ChunkedDecoder R Sender Sending → Flow (ChunkedDecoder R Sender Sending)
    send_trailers t d = elim d.trailer_sender [
      | none ↦ return d panic
      | some sender ↦
          continue (record d { state = trailer_sending (ext.send sender t); trailer_sender = none })
    ]

    -- `unexpected(buf[offset], …)`
    abbrev unexpected_at :
        ChunkedDecoder R Sender Sending → Option ℕ → Flow (ChunkedDecoder R Sender Sending)
    unexpected_at d none = return d panic
    unexpected_at d (some byte) = stop d (unexpected_byte byte)

    unfoldable pub on_parsed :
        ChunkedDecoder R Sender Sending → Bytes → Parsed → Flow (ChunkedDecoder R Sender Sending)
    on_parsed d buf invalid = stop d invalid_headers
    on_parsed d buf partial =
        if length buf == trailers_size then stop d unexpected_eof else return d pending
    on_parsed d buf (complete offset headers) =
        if not (offset == length buf)
        then unexpected_at d (get_elem? buf offset)
        else send_trailers (insert_all ext ext.new headers) d

    -- `before` is what the buffer held, `bytes` what was read behind it.
    unfoldable pub on_trailers :
        Bytes → ChunkedDecoder R Sender Sending → Bytes → Flow (ChunkedDecoder R Sender Sending)
    on_trailers before d bytes =
        let buf = before ++ bytes in
        let d' : ChunkedDecoder R Sender Sending = record d { state = trailers buf } in
        if length buf == 0
        then send_trailers ext.new d'
        else if length bytes == 0
        then stop d' unexpected_eof
        else on_parsed d' buf (ext.parse_headers buf)

    abbrev pub on_polled :
        ChunkedDecoder R Sender Sending → Sending × Bool → Flow (ChunkedDecoder R Sender Sending)
    on_polled d (sending, true) = continue (record d { state = done })
    on_polled d (sending, false) = return (record d { state = trailer_sending sending }) pending

    module _ (io : Read R) where
      unfoldable pub step_in :
          State Sending
          → ChunkedDecoder R Sender Sending
          → ℕ
          → Flow (ChunkedDecoder R Sender Sending)
      step_in chunk_size d n = on_ready d (io.poll_read d.inner 1) (one_byte on_size_byte)
      step_in chunk_size_expect_lf d n =
          on_ready d (io.poll_read d.inner 1)
            (one_byte λ d' b. expect lf (if d.size == 0 then trailers [] else chunk_body) d' b)
      step_in chunk_body d n =
          on_ready d (io.poll_read d.inner (min n (min d.size usize_max))) on_body
      step_in chunk_body_expect_cr d n =
          on_ready d (io.poll_read d.inner 1) (one_byte (expect cr chunk_body_expect_lf))
      step_in chunk_body_expect_lf d n =
          on_ready d (io.poll_read d.inner 1) (one_byte (expect lf chunk_size))
      step_in (trailers buf) d n =
          on_ready d (io.poll_read d.inner (trailers_size - length buf)) (on_trailers buf)
      step_in (trailer_sending sending) d n = on_polled d (ext.poll sending)
      step_in done d n = return d (ready [])

      abbrev pub step : ChunkedDecoder R Sender Sending → ℕ → Flow (ChunkedDecoder R Sender Sending)
      step d n = step_in d.state d n

      -- The loop, on a buffer of length `n`.
      unfoldable pub poll_read :
          ℕ → ChunkedDecoder R Sender Sending → ℕ → ChunkedDecoder R Sender Sending × Poll Bytes
      poll_read zero d n = (d, out_of_fuel)
      poll_read (suc fuel) d n = elim (step d n) [
        | continue d' ↦ poll_read fuel d' n
        | return d' outcome ↦ (d', outcome)
      ]

-- What a run of the decoder computes with.
unfoldable pub decoder : Unit {0}
unfolding poll_read step_in new on_size_byte hex_digit expect on_body on_trailers on_parsed
    send_trailers insert_all
decoder = tt
