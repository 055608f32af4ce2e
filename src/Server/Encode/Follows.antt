-- ===== src/Server/Encode/Follows.antt =====
-- The encoder of src/server/encode.rs goes through the loop of Encode.Machine: a response whose
-- head can be computed goes through the machine's states, call by call.
use async_h.Base.{
  ℕ, zero, suc, ◌≡◌, refl, sym, subst, Bool, true, false, Option, none, some, Bool-cases, inl, inr,
  ok, length, ◌==◌,
}
use async_h.Base.Int.{ℤ}
use async_h.Base.Bytes.{Bytes}
use async_h.Io.{Poll, ready, failed, pending, panic, out_of_fuel, Read}
use async_h.Encode.{
  EncoderState, start, head, body, end, BodyEncoder, into, cursor_poll_read, Round, continue,
  return,
}
use async_h.Encode as Encode
use async_h.Encode.Machine as Machine
use async_h.Server.Encode.{
  Responses, Encoder, compute_head, after_head, head_round, at_end, body_round, step_in,
  poll_rounds, poll_read,
}

module _ {Response Body : Type 0} (http : Responses Response Body) (now : ℤ) (ceil_log16 : ℕ → ℕ)
    (io : Read Body) (is_head : Bool) (given final : Response) (text : Bytes) where
  abbrev pub payload_of : Body
  payload_of = (http.take_body final).0

  -- The response in each state, as far as the states to come depend on it.
  abbrev pub Holds : EncoderState Body → Response → Type 0
  Holds start response = response ≡ given
  Holds (head rest) response = response ≡ final
  Holds (body b n len) response = Unit
  Holds end response = Unit

  abbrev pub IsAt : Encoder Response Body → Type 0
  IsAt e = (e.is_head ≡ is_head) × Holds e.state e.response

  -- The encoder does what the machine does, and stays where the machine is.
  abbrev pub Follows :
      Encoder Response Body × Bytes × Poll ℕ → EncoderState Body × Bytes × Poll ℕ → Type 0
  Follows (e, buf, o) outcome = IsAt e × (outcome ≡ (e.state, buf, o))

  abbrev RoundFollows : Round (Encoder Response Body) → Round (EncoderState Body) → Type 0
  RoundFollows (continue e) r = IsAt e × (r ≡ continue e.state)
  RoundFollows (return e buf o) r = IsAt e × (r ≡ return e.state buf o)

  abbrev encoder : Response → EncoderState Body → Encoder Response Body
  encoder response state = record { response = response; state = state; is_head = is_head }

  after_head-Follows :
      (h : Bool) (rest : Bytes)
      → h ≡ is_head
      → RoundFollows (continue (after_head http now ceil_log16 io (encoder final (head rest)))) (
          continue (
            Machine.after_head http.body_len ceil_log16 io is_head text payload_of
              (http.len final)))
  unfolding after_head Machine.after_head
  after_head-Follows true rest same = rw (sym same) ((refl, tt), refl)
  after_head-Follows false rest same = rw (sym same) ((refl, tt), refl)

  head-Follows :
      (rest : Bytes) (o : Bytes × Bytes × Poll ℕ)
      → RoundFollows (head_round http now ceil_log16 io (encoder final (head rest)) o) (
          Machine.head_round http.body_len ceil_log16 io is_head text payload_of (http.len final) o)
  head-Follows rest (rest', buf, ready zero) = after_head-Follows is_head rest' refl
  head-Follows rest (rest', buf, ready (suc n)) = ((refl, refl), refl)
  head-Follows rest (rest', buf, failed x) = ((refl, refl), refl)
  head-Follows rest (rest', buf, pending) = ((refl, refl), refl)
  head-Follows rest (rest', buf, panic) = ((refl, refl), refl)
  head-Follows rest (rest', buf, out_of_fuel) = ((refl, refl), refl)

  at_end-Follows :
      (response : Response) (b : BodyEncoder Body) (buf : Bytes) (n : ℕ) (len : Option ℕ)
      → RoundFollows (at_end http now ceil_log16 io (encoder response (body b n len)) buf n len) (
          Machine.at_end http.body_len ceil_log16 io is_head text payload_of
            (http.len final)
            b
            buf
            n
            len)
  at_end-Follows response b buf n none = ((refl, tt), refl)
  at_end-Follows response b buf n (some k) = elim (Bool-cases (n == k)) [
    | inl same ↦ rw same ((refl, tt), refl)
    | inr different ↦ rw different ((refl, tt), refl)
  ]

  body-Follows :
      (response : Response) (b : BodyEncoder Body) (n : ℕ) (len : Option ℕ)
      (o : BodyEncoder Body × Bytes × Poll ℕ)
      → RoundFollows (body_round http now ceil_log16 io (encoder response (body b n len)) n len o) (
          Machine.body_round http.body_len ceil_log16 io is_head text payload_of
            (http.len final)
            n
            len
            o)
  body-Follows response b n len (b', buf, ready zero) = at_end-Follows response b' buf n len
  body-Follows response b n len (b', buf, ready (suc k)) = ((refl, tt), refl)
  body-Follows response b n len (b', buf, failed x) = ((refl, tt), refl)
  body-Follows response b n len (b', buf, pending) = ((refl, tt), refl)
  body-Follows response b n len (b', buf, panic) = ((refl, tt), refl)
  body-Follows response b n len (b', buf, out_of_fuel) = ((refl, tt), refl)

  module _ (computed : compute_head http now given ≡ ok (final, text)) where
    step-Follows :
        (state : EncoderState Body) (response : Response) (buf : Bytes)
        → Holds state response
        → RoundFollows (step_in http now ceil_log16 io state (encoder response state) buf) (
            Machine.step_in http.body_len ceil_log16 io is_head text payload_of
              (http.len final)
              state
              buf)
    unfolding step_in Machine.step_in
    step-Follows start response buf h = rw (h, computed) ((refl, refl), refl)
    step-Follows (head rest) response buf h =
        rw h (head-Follows rest (into buf (cursor_poll_read rest (length buf))))
    step-Follows (body b n len) response buf h =
        body-Follows response b n len (Encode.poll_read ceil_log16 io b buf)
    step-Follows end response buf h = ((refl, tt), refl)

    poll_rounds-Follows :
        (fuel : ℕ) (buf : Bytes) (e : Encoder Response Body)
        → IsAt e
        → Follows (poll_rounds http now ceil_log16 io fuel e buf) (
            Machine.poll_rounds http.body_len ceil_log16 io is_head text payload_of
              (http.len final)
              fuel
              e.state
              buf)
    unfolding poll_rounds Machine.poll_rounds
    poll_rounds-Follows zero buf e at = (at, refl)
    poll_rounds-Follows (suc fuel) buf e at =
        go (λ e' at'. poll_rounds-Follows fuel buf e' at')
          (step_in http now ceil_log16 io e.state e buf)
          (Machine.step_in http.body_len ceil_log16 io is_head text payload_of (http.len final)
            e.state buf)
          (subst
            (λ h.
              RoundFollows
                (step_in http now ceil_log16 io e.state
                  (record { response = e.response; state = e.state; is_head = h }) buf)
                (Machine.step_in http.body_len ceil_log16 io is_head text payload_of
                  (http.len final) e.state buf))
            (sym at.0) (step-Follows e.state e.response buf at.1))
      where
        go :
            ((e' : Encoder Response Body)
              → IsAt e'
              → Follows (poll_rounds http now ceil_log16 io fuel e' buf) (
                  Machine.poll_rounds http.body_len ceil_log16 io is_head text payload_of
                    (http.len final)
                    fuel
                    e'.state
                    buf))
            → (r : Round (Encoder Response Body)) (r' : Round (EncoderState Body))
            → RoundFollows r r'
            → Follows
                (elim r [
                  | continue e' ↦ poll_rounds http now ceil_log16 io fuel e' buf
                  | return e' buf' o ↦ (e', buf', o)
                ])
                (elim r' [
                  | continue state' ↦
                      Machine.poll_rounds http.body_len ceil_log16 io is_head text payload_of
                        (http.len final)
                        fuel
                        state'
                        buf
                  | return state' buf' o ↦ (state', buf', o)
                ])
        go again (continue e') r' (at', same) = rw same (again e' at')
        go again (return e' buf' o) r' (at', same) = rw same (at', refl)

    -- Where the head of the response can be computed, a call of the encoder does to the buffer what
    -- a call of the machine of Encode does, which is given that head and the body, returns what
    -- that returns, and leaves the encoder in the state in which it leaves the machine, if it was
    -- in the machine's state before.
    pub poll_read-Follows :
        (buf : Bytes) (e : Encoder Response Body)
        → IsAt e
        → Follows (poll_read http now ceil_log16 io e buf) (
            Machine.poll_read http.body_len ceil_log16 io is_head text payload_of
              (http.len final)
              e.state
              buf)
    unfolding poll_read Machine.poll_read
    poll_read-Follows buf e at = poll_rounds-Follows 4 buf e at
