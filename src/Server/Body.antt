-- ===== src/Server/Body.antt =====
-- src/server/body_reader.rs: `BodyReader`, as the contents of the shared cell `Arc<Mutex<_>>`; a
-- read locks the cell and is done before it is unlocked. `Take<BufReader<IO>>` is foreign, a reader
-- `T`. The constructor `no_body` is `BodyReader::None`.
pub mod Delivers
use async_h.Base.{ℕ, [], Option}
use async_h.Base.Bytes.{Bytes}
use async_h.Io.{Poll, ready, Read}
use async_h.Chunked.Decoder.{ChunkedDecoder, Trailing}
use async_h.Chunked.Decoder as Chunked

pub data BodyReader (R T Sender Sending : Type 0) : Type 0 where
  chunked : ChunkedDecoder R Sender Sending → BodyReader R T Sender Sending
  fixed : T → BodyReader R T Sender Sending
  no_body : BodyReader R T Sender Sending

module _ {R T Trailers Sender Sending : Type 0} (ext : Trailing Trailers Sender Sending)
    (io : Read R) (take_io : Read T) where
  abbrev pub as_chunked :
      ChunkedDecoder R Sender Sending × Poll Bytes → BodyReader R T Sender Sending × Poll Bytes
  as_chunked (d, o) = (chunked d, o)

  abbrev pub as_fixed : T × Poll Bytes → BodyReader R T Sender Sending × Poll Bytes
  as_fixed (t, o) = (fixed t, o)

  -- A read into a buffer of length `n`; the decoder's loop has `fuel` rounds.
  unfoldable pub poll_read :
      ℕ → BodyReader R T Sender Sending → ℕ → BodyReader R T Sender Sending × Poll Bytes
  poll_read fuel (chunked d) n = as_chunked (Chunked.poll_read ext io fuel d n)
  poll_read fuel (fixed t) n = as_fixed (take_io.poll_read t n)
  poll_read fuel no_body n = (no_body, ready [])
