-- ===== src/Chunked/Encoder.antt =====
-- src/chunked/encoder.rs: `ChunkedEncoder`, with the buffer that it writes into as a value.
-- The logarithm of `max_bytes_to_read` is a floating-point one: `ceil_log16 m` stands for
-- `((m as f64).log2() / 4f64).ceil()`, an argument whose exactness the theorems assume.
pub mod Frame
pub mod Emits
pub mod Log
use async_h.Base.{
  ℕ, ◌+◌, ◌-◌, ◌≤◌, ◌<◌, ◌^◌, Bool, true, false, List, [], ◌∷◌, ◌++◌, ◌==◌, ltb, leb, if◌then◌else◌,
  length, take, drop, ◌&&◌,
}
use async_h.Base.Bytes.{Bytes}
use async_h.Io.{Poll, ready, failed, pending, panic, out_of_fuel, Read}
use async_h.Chunked.Wire.{cr, lf, to_hex}

pub record ChunkedEncoder (R : Type 0) : Type 0 where
  pub reader : R
  pub done : Bool

unfoldable pub new : {R : Type 0} → R → ChunkedEncoder R
new reader = record { reader = reader; done = false }

-- `format!("{:X}\r\n", bytes)`
unfoldable pub start_line : ℕ → Bytes
unfolding to_hex
start_line bytes = to_hex bytes ++ (cr ∷ lf ∷ [])

-- `buf[i..i + src.len()].copy_from_slice(src)`
unfoldable pub copy_from_slice : Bytes → ℕ → Bytes → Poll Bytes
copy_from_slice buf i src =
    if leb (i + length src) (length buf)
    then ready (take i buf ++ src ++ drop (i + length src) buf)
    else panic

-- `buf.copy_within(..bytes, dest)`
unfoldable pub copy_within : Bytes → ℕ → ℕ → Poll Bytes
copy_within buf bytes dest =
    if leb bytes (length buf) then copy_from_slice buf dest (take bytes buf) else panic

infixl 5 ◌>>=◌
abbrev pub ◌>>=◌ {ℓ κ} : {A : Type ℓ} {B : Type κ} → Poll A → (A → Poll B) → Poll B
ready a >>= f = f a
failed e >>= f = failed e
pending >>= f = pending
panic >>= f = panic
out_of_fuel >>= f = out_of_fuel

unfoldable pub max_bytes_to_read : (ℕ → ℕ) → ℕ → Poll ℕ
max_bytes_to_read ceil_log16 buf_len =
    if ltb buf_len 6 then panic else ready (buf_len - 4 - ceil_log16 (buf_len - 4))

-- What happens to the buffer when the reader has put `bytes` at its front: the new buffer, and
-- the number of bytes in use.
unfoldable pub frame : Bytes → ℕ → Poll (Bytes × ℕ)
frame buf bytes = do
  let start = start_line bytes
  let total = bytes + length start + 2
  moved ← copy_within buf bytes (length start)
  headed ← copy_from_slice moved 0 start
  ended ← copy_from_slice headed (total - 2) (cr ∷ lf ∷ [])
  ready (ended, total)

abbrev pub framed :
    {R : Type 0} → ChunkedEncoder R → Bytes → Poll (Bytes × ℕ) → ChunkedEncoder R × Bytes × Poll ℕ
framed e buf (ready (buf', total)) = (e, buf', ready total)
framed e buf (failed x) = (e, buf, failed x)
framed e buf pending = (e, buf, pending)
framed e buf panic = (e, buf, panic)
framed e buf out_of_fuel = (e, buf, out_of_fuel)

-- The rest of `poll_read`, from the outcome of the inner read into `buf[..max]`.
unfoldable pub after_read :
    {R : Type 0} → ChunkedEncoder R → Bytes → R × Poll Bytes → ChunkedEncoder R × Bytes × Poll ℕ
after_read e buf (reader, ready bytes) =
    let e' : ChunkedEncoder _ = record { reader = reader; done = length bytes == 0 } in
    let filled = bytes ++ drop (length bytes) buf in framed e' filled (frame filled (length bytes))
after_read e buf (reader, failed x) = (record e { reader = reader }, buf, failed x)
after_read e buf (reader, pending) = (record e { reader = reader }, buf, pending)
after_read e buf (reader, panic) = (record e { reader = reader }, buf, panic)
after_read e buf (reader, out_of_fuel) = (record e { reader = reader }, buf, out_of_fuel)

module _ {R : Type 0} (io : Read R) where
  abbrev pub read_up_to : ChunkedEncoder R → Bytes → Poll ℕ → ChunkedEncoder R × Bytes × Poll ℕ
  read_up_to e buf (ready max) = after_read e buf (io.poll_read e.reader max)
  read_up_to e buf (failed x) = (e, buf, failed x)
  read_up_to e buf pending = (e, buf, pending)
  read_up_to e buf panic = (e, buf, panic)
  read_up_to e buf out_of_fuel = (e, buf, out_of_fuel)

module _ (ceil_log16 : ℕ → ℕ) {R : Type 0} (io : Read R) where
  -- Returns the encoder, the buffer and the number of bytes written to the buffer's front.
  unfoldable pub poll_read : ChunkedEncoder R → Bytes → ChunkedEncoder R × Bytes × Poll ℕ
  unfolding max_bytes_to_read after_read
  poll_read e buf =
      if e.done
      then (e, buf, ready 0)
      else read_up_to io e buf (max_bytes_to_read ceil_log16 (length buf))

-- What a run of the encoder computes with.
unfoldable pub encoder : Unit {0}
unfolding poll_read frame copy_within copy_from_slice start_line
encoder = tt
