-- ===== src/Encode/Machine.antt =====
-- The loop that the encoders of src/server/encode.rs and src/client/encode.rs have in common, on
-- `EncoderState` alone, so that what it sends is proved for both at once: a head that is given, and
-- then a body that is given, unless the body is to be skipped.
use async_h.Base.{ℕ, zero, suc, ◌+◌, Bool, not, Option, none, some, if◌then◌else◌, ◌==◌, length}
use async_h.Base.Bytes.{Bytes}
use async_h.Io.{unexpected_end_of_body, Poll, ready, failed, out_of_fuel, Read}
use async_h.Encode.{
  EncoderState, start, head, body, end, BodyEncoder, into, cursor_poll_read, Round, continue,
  return,
}
use async_h.Encode as Encode

module _ {Body : Type 0} (body_len : Body → Option ℕ) (ceil_log16 : ℕ → ℕ) (io : Read Body)
    (skips_body : Bool) (text : Bytes) (given : Body) (declared : Option ℕ) where
  unfoldable pub after_head : EncoderState Body
  after_head = if skips_body then end else body (Encode.new body_len given) 0 declared

  abbrev pub head_round : Bytes × Bytes × Poll ℕ → Round (EncoderState Body)
  head_round (rest, buf, ready zero) = continue after_head
  head_round (rest, buf, o) = return (head rest) buf o

  abbrev pub at_end : BodyEncoder Body → Bytes → ℕ → Option ℕ → Round (EncoderState Body)
  at_end b buf n_written none = continue end
  at_end b buf n_written (some len) =
      if not (n_written == len)
      then return (body b n_written (some len)) buf (failed unexpected_end_of_body)
      else continue end

  abbrev pub body_round :
      ℕ → Option ℕ → BodyEncoder Body × Bytes × Poll ℕ → Round (EncoderState Body)
  body_round n_written len (b, buf, ready zero) = at_end b buf n_written len
  body_round n_written len (b, buf, ready (suc n)) =
      return (body b (n_written + suc n) len) buf (ready (suc n))
  body_round n_written len (b, buf, o) = return (body b n_written len) buf o

  unfoldable pub step_in : EncoderState Body → Bytes → Round (EncoderState Body)
  step_in start buf = continue (head text)
  step_in (head rest) buf = head_round (into buf (cursor_poll_read rest (length buf)))
  step_in (body b n_written len) buf =
      body_round n_written len (Encode.poll_read ceil_log16 io b buf)
  step_in end buf = return end buf (ready 0)

  unfoldable pub poll_rounds : ℕ → EncoderState Body → Bytes → EncoderState Body × Bytes × Poll ℕ
  poll_rounds zero state buf = (state, buf, out_of_fuel)
  poll_rounds (suc fuel) state buf = elim (step_in state buf) [
    | continue state' ↦ poll_rounds fuel state' buf
    | return state' buf' o ↦ (state', buf', o)
  ]

  unfoldable pub poll_read : EncoderState Body → Bytes → EncoderState Body × Bytes × Poll ℕ
  poll_read state buf = poll_rounds 4 state buf
