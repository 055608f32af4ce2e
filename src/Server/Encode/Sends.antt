-- ===== src/Server/Encode/Sends.antt =====
-- What the response encoder of src/server/encode.rs has sent after each call: it follows the
-- machine of Encode, which sends the head, and then the body, as it is or in chunks.
use async_h.Base.{ℕ, ◌≡◌, subst, Bool, [], ◌∷◌, ok}
use async_h.Base.Int.{ℤ}
use async_h.Base.Bytes.{Bytes}
use async_h.Io.{Poll, Read, Stream}
use async_h.Chunked.Wire.{cr, lf}
use async_h.Chunked.Encoder.Frame.{IsExact}
use async_h.Chunked.Encoder.Emits.{Fits}
use async_h.Encode.{EncoderState}
use async_h.Encode.Machine as Machine
use async_h.Encode.Sends as Sending
use async_h.Encode.Sends.Calls.{machine-Sends}
use async_h.Server.Encode.{Responses, Encoder, compute_head, poll_read}
use async_h.Server.Encode.Follows.{IsAt, Follows, poll_read-Follows}

module _ {Response Body : Type 0} (http : Responses Response Body) (now : ℤ) (ceil_log16 : ℕ → ℕ)
    (exact : IsExact ceil_log16) {io : Read Body} (stream : Stream io) (IsTrailer : Bytes → Type 0)
    (eol : IsTrailer (cr ∷ lf ∷ [])) (given final : Response) (text : Bytes) where
  -- What the machine has sent in a state, and what a call of it sends.
  abbrev pub SentIn : Bool → EncoderState Body → Bytes → Type 0
  SentIn is_head =
      Sending.SentIn http.body_len ceil_log16 exact stream IsTrailer eol is_head text
        (http.take_body final).0 (http.len final)

  abbrev pub SendsIn : Bool → Bytes → EncoderState Body × Bytes × Poll ℕ → Type 0
  SendsIn is_head =
      Sending.Sends http.body_len ceil_log16 exact stream IsTrailer eol is_head text
        (http.take_body final).0 (http.len final)

  abbrev pub Sent : Bool → Encoder Response Body → Bytes → Type 0
  Sent is_head e out =
      IsAt http now ceil_log16 io is_head given final text e × SentIn is_head e.state out

  -- The outcome of a call, after `out` was sent.
  abbrev pub Sends : Bool → Bytes → Encoder Response Body × Bytes × Poll ℕ → Type 0
  Sends is_head out (e, buf, o) =
      IsAt http now ceil_log16 io is_head given final text e × SendsIn is_head out (e.state, buf, o)

  Follows-Sends :
      (is_head : Bool) (out : Bytes) (r : Encoder Response Body × Bytes × Poll ℕ)
      (outcome : EncoderState Body × Bytes × Poll ℕ)
      → Follows http now ceil_log16 io is_head given final text r outcome
      → SendsIn is_head out outcome
      → Sends is_head out r
  Follows-Sends is_head out (e, buf, o) outcome (at, same) sends =
      (at, subst (SendsIn is_head out) same sends)

  module _ (declares : http.body_len (http.take_body final).0 ≡ http.len final) where
    -- A call on a buffer of at least six and fewer than 2^48 bytes ends with no panic, where the
    -- head can be computed and a response declares the length that its body declares, the logarithm
    -- is exact and no read of the body fails. What it returns comes next in the response: the head
    -- and, unless the request was a HEAD request, the body as it is where a length is declared and
    -- in chunks where none is. It returns no bytes only when all is sent, and fails only where the
    -- declared length is not the length of the body.
    pub poll_read-Sends :
        (is_head : Bool) (out buf : Bytes) (e : Encoder Response Body)
        → Fits buf
        → compute_head http now given ≡ ok (final, text)
        → Sent is_head e out
        → Sends is_head out (poll_read http now ceil_log16 io e buf)
    poll_read-Sends is_head out buf e fits computed (at, sent) =
        Follows-Sends is_head out (poll_read http now ceil_log16 io e buf)
          (Machine.poll_read http.body_len ceil_log16 io is_head text (http.take_body final).0
            (http.len final) e.state buf)
          (poll_read-Follows http now ceil_log16 io is_head given final text computed buf e at)
          (machine-Sends http.body_len ceil_log16 exact stream IsTrailer eol is_head text
            (http.take_body final).0 (http.len final) declares out buf e.state fits sent)
