-- ===== src/Client/Encode/Sends.antt =====
-- What the request encoder of src/client/encode.rs has sent after each call: it follows the machine
-- of Encode, which sends the head, and then the body, as it is or in chunks.
use async_h.Base.{false, ℕ, ◌≡◌, subst, [], ◌∷◌}
use async_h.Base.Bytes.{Bytes}
use async_h.Io.{Poll, ready, Read, Stream}
use async_h.Chunked.Wire.{cr, lf}
use async_h.Chunked.Encoder.Frame.{IsExact}
use async_h.Chunked.Encoder.Emits.{Fits}
use async_h.Encode.{EncoderState}
use async_h.Encode.Machine as Machine
use async_h.Encode.Sends as Sending
use async_h.Encode.Sends.Calls.{machine-Sends}
use async_h.Client.Encode.{Requests, Encoder, compute_head, poll_read}
use async_h.Client.Encode.Follows.{IsAt, Follows, poll_read-Follows}

module _ {Request Body : Type 0} (http : Requests Request Body) (ceil_log16 : ℕ → ℕ)
    (exact : IsExact ceil_log16) {io : Read Body} (stream : Stream io) (IsTrailer : Bytes → Type 0)
    (eol : IsTrailer (cr ∷ lf ∷ [])) (given final : Request) (text : Bytes) where
  -- What the machine has sent in a state, and what a call of it sends.
  abbrev pub SentIn : EncoderState Body → Bytes → Type 0
  SentIn =
      Sending.SentIn http.body_len ceil_log16 exact stream IsTrailer eol false text
        (http.take_body final).0 (http.len final)

  abbrev pub SendsIn : Bytes → EncoderState Body × Bytes × Poll ℕ → Type 0
  SendsIn =
      Sending.Sends http.body_len ceil_log16 exact stream IsTrailer eol false text
        (http.take_body final).0 (http.len final)

  abbrev pub Sent : Encoder Request Body → Bytes → Type 0
  Sent e out = IsAt http ceil_log16 io given final text e × SentIn e.state out

  -- The outcome of a call, after `out` was sent.
  abbrev pub SendsRequest : Bytes → Encoder Request Body × Bytes × Poll ℕ → Type 0
  SendsRequest out (e, buf, o) =
      IsAt http ceil_log16 io given final text e × SendsIn out (e.state, buf, o)

  Follows-SendsRequest :
      (out : Bytes) (r : Encoder Request Body × Bytes × Poll ℕ)
      (outcome : EncoderState Body × Bytes × Poll ℕ)
      → Follows http ceil_log16 io given final text r outcome
      → SendsIn out outcome
      → SendsRequest out r
  Follows-SendsRequest out (e, buf, o) outcome (at, same) sends =
      (at, subst (SendsIn out) same sends)

  module _ (declares : http.body_len (http.take_body final).0 ≡ http.len final) where
    -- A call on a buffer of at least six and fewer than 2^48 bytes ends with no panic, where the
    -- head can be computed and the request declares the length that its body declares, the
    -- logarithm is exact and no read of the body fails. What it returns comes next in the request:
    -- the head, and then the body, as it is where a length is declared and in chunks where none is.
    -- It returns no bytes only when all is sent, and fails only where the declared length is not
    -- the body's.
    pub poll_read-SendsRequest :
        (out buf : Bytes) (e : Encoder Request Body)
        → Fits buf
        → compute_head http given ≡ ready (final, text)
        → Sent e out
        → SendsRequest out (poll_read http ceil_log16 io e buf)
    poll_read-SendsRequest out buf e fits computed (at, sent) =
        Follows-SendsRequest out (poll_read http ceil_log16 io e buf)
          (Machine.poll_read http.body_len ceil_log16 io false text (http.take_body final).0
            (http.len final) e.state buf)
          (poll_read-Follows http ceil_log16 io given final text computed buf e at)
          (machine-Sends http.body_len ceil_log16 exact stream IsTrailer eol false text
            (http.take_body final).0 (http.len final) declares out buf e.state fits sent)
