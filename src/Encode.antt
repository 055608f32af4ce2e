-- ===== src/Encode.antt =====
-- src/body_encoder.rs and src/lib.rs: what the encoders of requests and responses share. A body is
-- foreign (`http_types::Body`): a reader with a length that it may declare.
pub mod Machine
pub mod Runs
pub mod Sends
use async_h.Base.{ℕ, ◌++◌, Option, none, some, length, take, drop}
use async_h.Base.Bytes.{Bytes}
use async_h.Io.{Poll, ready, failed, pending, panic, out_of_fuel, Read}
use async_h.Chunked.Encoder.{ChunkedEncoder}
use async_h.Chunked.Encoder as Chunked

pub data BodyEncoder (Body : Type 0) : Type 0 where
  chunked : ChunkedEncoder Body → BodyEncoder Body
  fixed : Body → BodyEncoder Body

-- `Cursor<Vec<u8>>` is the list of the bytes that are still to be read.
pub data EncoderState (Body : Type 0) : Type 0 where
  start : EncoderState Body
  head : Bytes → EncoderState Body
  body : BodyEncoder Body → ℕ → Option ℕ → EncoderState Body
  end : EncoderState Body

unfoldable pub new : {Body : Type 0} → (Body → Option ℕ) → Body → BodyEncoder Body
new len b = elim (len b) [ some n ↦ fixed b | none ↦ chunked (Chunked.new b) ]

-- A read of a foreign reader into the front of `buf`.
abbrev pub into : {R : Type 0} → Bytes → R × Poll Bytes → R × Bytes × Poll ℕ
into buf (r, ready bytes) = (r, bytes ++ drop (length bytes) buf, ready (length bytes))
into buf (r, failed e) = (r, buf, failed e)
into buf (r, pending) = (r, buf, pending)
into buf (r, panic) = (r, buf, panic)
into buf (r, out_of_fuel) = (r, buf, out_of_fuel)

-- `Cursor::poll_read` with room for `n` bytes.
unfoldable pub cursor_poll_read : Bytes → ℕ → Bytes × Poll Bytes
cursor_poll_read bytes n = (drop n bytes, ready (take n bytes))

abbrev pub as_chunked :
    {Body : Type 0} → ChunkedEncoder Body × Bytes × Poll ℕ → BodyEncoder Body × Bytes × Poll ℕ
as_chunked (e, buf, o) = (chunked e, buf, o)

abbrev pub as_fixed : {Body : Type 0} → Body × Bytes × Poll ℕ → BodyEncoder Body × Bytes × Poll ℕ
as_fixed (b, buf, o) = (fixed b, buf, o)

module _ {Body : Type 0} (ceil_log16 : ℕ → ℕ) (io : Read Body) where
  unfoldable pub poll_read : BodyEncoder Body → Bytes → BodyEncoder Body × Bytes × Poll ℕ
  poll_read (chunked e) buf = as_chunked (Chunked.poll_read ceil_log16 io e buf)
  poll_read (fixed b) buf = as_fixed (into buf (io.poll_read b (length buf)))

-- One round of an encoder's loop: go round again, or return.
pub data Round (E : Type 0) : Type 0 where
  continue : E → Round E
  return : E → Bytes → Poll ℕ → Round E
