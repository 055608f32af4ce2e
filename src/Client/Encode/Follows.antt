-- ===== src/Client/Encode/Follows.antt =====
-- The encoder of src/client/encode.rs goes through the loop of Encode.Machine: a request whose head
-- can be computed goes through the machine's states, call by call.
use async_h.Base.{
  ℕ, zero, suc, ◌≡◌, refl, false, Option, none, some, Bool-cases, inl, inr, length, ◌==◌,
}
use async_h.Base.Bytes.{Bytes}
use async_h.Io.{Poll, ready, failed, pending, panic, out_of_fuel, Read}
use async_h.Encode.{
  EncoderState, start, head, body, end, BodyEncoder, into, cursor_poll_read, Round, continue,
  return,
}
use async_h.Encode as Encode
use async_h.Encode.Machine as Machine
use async_h.Client.Encode.{
  Requests, Encoder, compute_head, after_head, head_round, at_end, body_round, step_in, poll_rounds,
  poll_read,
}

module _ {Request Body : Type 0} (http : Requests Request Body) (ceil_log16 : ℕ → ℕ)
    (io : Read Body) (given final : Request) (text : Bytes) where
  abbrev pub payload_of : Body
  payload_of = (http.take_body final).0

  -- The request in each state, as far as the states to come depend on it.
  abbrev pub Holds : EncoderState Body → Request → Type 0
  Holds start request = request ≡ given
  Holds (head rest) request = request ≡ final
  Holds (body b n len) request = Unit
  Holds end request = Unit

  abbrev pub IsAt : Encoder Request Body → Type 0
  IsAt e = Holds e.state e.request

  -- The encoder does what the machine does, and stays where the machine is.
  abbrev pub Follows :
      Encoder Request Body × Bytes × Poll ℕ → EncoderState Body × Bytes × Poll ℕ → Type 0
  Follows (e, buf, o) outcome = IsAt e × (outcome ≡ (e.state, buf, o))

  abbrev RoundFollows : Round (Encoder Request Body) → Round (EncoderState Body) → Type 0
  RoundFollows (continue e) r = IsAt e × (r ≡ continue e.state)
  RoundFollows (return e buf o) r = IsAt e × (r ≡ return e.state buf o)

  abbrev encoder : Request → EncoderState Body → Encoder Request Body
  encoder request state = record { request = request; state = state }

  after_head-Follows :
      (rest : Bytes)
      → RoundFollows (continue (after_head http ceil_log16 io (encoder final (head rest)))) (
          continue
            (Machine.after_head http.body_len ceil_log16 io false text payload_of (http.len final)))
  unfolding after_head Machine.after_head
  after_head-Follows rest = (tt, refl)

  head-Follows :
      (rest : Bytes) (o : Bytes × Bytes × Poll ℕ)
      → RoundFollows
          (head_round http ceil_log16 io (encoder final (head rest)) o)
          (Machine.head_round http.body_len ceil_log16 io false text payload_of (http.len final) o)
  head-Follows rest (rest', buf, ready zero) = after_head-Follows rest'
  head-Follows rest (rest', buf, ready (suc n)) = (refl, refl)
  head-Follows rest (rest', buf, failed x) = (refl, refl)
  head-Follows rest (rest', buf, pending) = (refl, refl)
  head-Follows rest (rest', buf, panic) = (refl, refl)
  head-Follows rest (rest', buf, out_of_fuel) = (refl, refl)

  at_end-Follows :
      (request : Request) (b : BodyEncoder Body) (buf : Bytes) (n : ℕ) (len : Option ℕ)
      → RoundFollows (at_end http ceil_log16 io (encoder request (body b n len)) buf n len) (
          Machine.at_end http.body_len ceil_log16 io false text payload_of
            (http.len final)
            b
            buf
            n
            len)
  at_end-Follows request b buf n none = (tt, refl)
  at_end-Follows request b buf n (some k) = elim (Bool-cases (n == k)) [
    | inl same ↦ rw same (tt, refl)
    | inr different ↦ rw different (tt, refl)
  ]

  body-Follows :
      (request : Request) (b : BodyEncoder Body) (n : ℕ) (len : Option ℕ)
      (o : BodyEncoder Body × Bytes × Poll ℕ)
      → RoundFollows (body_round http ceil_log16 io (encoder request (body b n len)) n len o) (
          Machine.body_round http.body_len ceil_log16 io false text payload_of
            (http.len final)
            n
            len
            o)
  body-Follows request b n len (b', buf, ready zero) = at_end-Follows request b' buf n len
  body-Follows request b n len (b', buf, ready (suc k)) = (tt, refl)
  body-Follows request b n len (b', buf, failed x) = (tt, refl)
  body-Follows request b n len (b', buf, pending) = (tt, refl)
  body-Follows request b n len (b', buf, panic) = (tt, refl)
  body-Follows request b n len (b', buf, out_of_fuel) = (tt, refl)

  module _ (computed : compute_head http given ≡ ready (final, text)) where
    step-Follows :
        (state : EncoderState Body) (request : Request) (buf : Bytes)
        → Holds state request
        → RoundFollows (step_in http ceil_log16 io state (encoder request state) buf) (
            Machine.step_in http.body_len ceil_log16 io false text payload_of
              (http.len final)
              state
              buf)
    unfolding step_in Machine.step_in
    step-Follows start request buf h = rw (h, computed) (refl, refl)
    step-Follows (head rest) request buf h =
        rw h (head-Follows rest (into buf (cursor_poll_read rest (length buf))))
    step-Follows (body b n len) request buf h =
        body-Follows request b n len (Encode.poll_read ceil_log16 io b buf)
    step-Follows end request buf h = (tt, refl)

    poll_rounds-Follows :
        (fuel : ℕ) (buf : Bytes) (e : Encoder Request Body)
        → IsAt e
        → Follows (poll_rounds http ceil_log16 io fuel e buf) (
            Machine.poll_rounds http.body_len ceil_log16 io false text payload_of
              (http.len final)
              fuel
              e.state
              buf)
    unfolding poll_rounds Machine.poll_rounds
    poll_rounds-Follows zero buf e at = (at, refl)
    poll_rounds-Follows (suc fuel) buf e at =
        go (λ e' at'. poll_rounds-Follows fuel buf e' at')
          (step_in http ceil_log16 io e.state e buf)
          (Machine.step_in http.body_len ceil_log16 io false text payload_of (http.len final)
            e.state buf)
          (step-Follows e.state e.request buf at)
      where
        go :
            ((e' : Encoder Request Body)
              → IsAt e'
              → Follows (poll_rounds http ceil_log16 io fuel e' buf) (
                  Machine.poll_rounds http.body_len ceil_log16 io false text payload_of
                    (http.len final)
                    fuel
                    e'.state
                    buf))
            → (r : Round (Encoder Request Body)) (r' : Round (EncoderState Body))
            → RoundFollows r r'
            → Follows
                (elim r [
                  | continue e' ↦ poll_rounds http ceil_log16 io fuel e' buf
                  | return e' buf' o ↦ (e', buf', o)
                ])
                (elim r' [
                  | continue state' ↦
                      Machine.poll_rounds http.body_len ceil_log16 io false text payload_of
                        (http.len final)
                        fuel
                        state'
                        buf
                  | return state' buf' o ↦ (state', buf', o)
                ])
        go again (continue e') r' (at', same) = rw same (again e' at')
        go again (return e' buf' o) r' (at', same) = rw same (at', refl)

    -- Where the head can be computed, a call does to the buffer what the machine's does, returns
    -- what the machine's returns, and is in the machine's state afterwards.
    pub poll_read-Follows :
        (buf : Bytes) (e : Encoder Request Body)
        → IsAt e
        → Follows (poll_read http ceil_log16 io e buf) (
            Machine.poll_read http.body_len ceil_log16 io false text payload_of
              (http.len final)
              e.state
              buf)
    unfolding poll_read Machine.poll_read
    poll_read-Follows buf e at = poll_rounds-Follows 4 buf e at
