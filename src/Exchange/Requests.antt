-- ===== src/Exchange/Requests.antt =====
-- src/client/encode.rs and src/server/decode.rs together: the bytes that the calls of the client's
-- encoder return for a request, read by the server.
use async_h.Base.{
  ℕ, ◌≡◌, sym, ap, subst, ◌∙◌, true, false, [], ◌∷◌, ◌++◌, append-nil, Option, none, some, Result,
  ok, refl, take, take-append,
}
use async_h.Base.Bytes.{Bytes, codes, eq_ignore_ascii_case}
use async_h.Io.{ready, Read, Stream}
use async_h.Chunked.Wire.{cr, lf, IsChunked}
use async_h.Chunked.Encoder.Frame.{IsExact}
use async_h.Chunked.Decoder.{Trailing}
use async_h.Chunked.Decoder.Owes.{IsTrailer}
use async_h.Encode.{end}
use async_h.Encode.Sends.{Message}
use async_h.Head.{BufRead}
use async_h.Head.First.{Lines, IsFirst}
use async_h.Server.Body.Delivers.{BodyOwes}
use async_h.Encode.Runs.{Inserts, Unannounced, Announces, Returned}
use async_h.Client.Encode.{Requests, Encoder, new, compute_head, poll_read}
use async_h.Client.Encode.Runs.{Returned-Sent, final-Announced}
use async_h.Client.Encode.Sends.{Sent, SentIn}
use async_h.Server.Decode.{Http, Decoded, request_of, decode}
use async_h.Server.Decode.Frames.{
  closes_head, closes_head-line, Payload, sized, in_chunks, decode-BodyOwes,
}

-- The server reads the two headers of the body that the client has set for a declared length.
abbrev ReadsBack : Option ℕ → Option ℕ → Option Bytes → Type 0
ReadsBack (some n) content_length transfer_encoding =
    (content_length ≡ some n) × (transfer_encoding ≡ none)
ReadsBack none content_length transfer_encoding =
    (te : Bytes) × (content_length ≡ none)
    × (transfer_encoding ≡ some te)
    × (eq_ignore_ascii_case te (codes "chunked") ≡ true)

Announces-ReadsBack :
    (to_string : ℕ → Bytes) (len : Option ℕ) (written transfer_encoding : Option Bytes)
    (read : Result (Option ℕ))
    → Announces to_string len written transfer_encoding
    → ((n : ℕ) → len ≡ some n → written ≡ some (to_string n) → read ≡ ok (some n))
    → (written ≡ none → read ≡ ok none)
    → (cl : Option ℕ) × (read ≡ ok cl) × ReadsBack len cl transfer_encoding
unfolding eq_ignore_ascii_case
Announces-ReadsBack to_string (some n) written te read (c, t) length_read none_read =
    (some n, length_read n refl c, (refl, t))
Announces-ReadsBack to_string none written te read (c, t) length_read none_read =
    (none, none_read c, (codes "chunked", refl, t, refl))

module _ {ClientRequest Body Request Url Method Sender Sending Trailers Channel Cell R T : Type 0}
    (client : Requests ClientRequest Body) (ceil_log16 : ℕ → ℕ) (exact : IsExact ceil_log16)
    {body_io : Read Body} (body_stream : Stream body_io)
    (http : Http Request Url Method Sender Channel Cell R T)
    (ext : Trailing Trailers Sender Sending) (eol : IsTrailer ext (cr ∷ lf ∷ []))
    (lines_io : BufRead R) (io : Read R) (take_io : Read T) (lines : Lines lines_io)
    (stream : Stream io) (taken : Stream take_io)
    (one_stream : (r : R) → stream.rest r ≡ lines.rest r)
    (takes : (r : R) (n : ℕ) → taken.rest (http.take r n) ≡ take n (stream.rest r))
    (given final : ClientRequest) (text : Bytes) where
  abbrev pub payload : Bytes
  payload = body_stream.rest (client.take_body final).0

  Message-Payload :
      (len content_length : Option ℕ) (transfer_encoding : Option Bytes) (out : Bytes)
      → ReadsBack len content_length transfer_encoding
      → Message client.body_len ceil_log16 exact body_stream
          (IsTrailer ext)
          eol
          false
          text
          (client.take_body final).0
          (client.len final)
          len
          out
      → (after : Bytes) × (out ≡ text ++ after)
        × Payload (IsChunked (IsTrailer ext)) content_length transfer_encoding after payload
  Message-Payload (some n) cl te out (c, t) (whole, count) = (
    payload,
    whole,
    sized n c t (sym (ap (take n) (sym (append-nil payload)) ∙ take-append payload [] n count)),
  )
  Message-Payload none cl te out (v, c, t, chunks) (w, whole, wire) =
      (w, whole, in_chunks v c t chunks wire)

  -- From what the client has sent to what the server makes of it.
  decode-SentIn :
      (e : Encoder ClientRequest Body) (out : Bytes)
      → e.state ≡ end
      → Sent client ceil_log16 exact body_stream (IsTrailer ext) eol given final text e out
      → (reader : R) → lines.rest reader ≡ out
      → IsFirst closes_head closes_head-line text
      → (request : Request) → request_of http text ≡ ok request
      → (content_length : Option ℕ) → http.content_length request ≡ ok content_length
      → ReadsBack
          (client.len final)
          content_length
          (http.header request (codes "transfer-encoding"))
      → (d : Decoded Request R T Sender Sending) × (decode http lines_io reader ≡ ok (some d))
        × BodyOwes ext io take_io stream taken d.body payload
  decode-SentIn e out ended (at, sent) reader holds first request parsed cl length_is reads_back =
      let (after, whole, announced) =
        Message-Payload (client.len final) cl (http.header request (codes "transfer-encoding")) out
          reads_back
          (subst
            (λ state.
              SentIn client ceil_log16 exact body_stream (IsTrailer ext) eol given final text state
                out)
            ended sent) in
      decode-BodyOwes http ext lines_io io take_io lines stream taken one_stream takes reader text
        request after (holds ∙ whole) first parsed cl payload length_is announced

  -- Where calls of `poll_read` on a new encoder of a request with neither of the two headers of the
  -- body have returned `out` and left the encoder at its end, none of them failing, the server
  -- reads, on a connection on which no operation fails, from `out` a request whose body owes what
  -- the body of the client's request held. The buffers have at least six and fewer than 2^48 bytes,
  -- and the body declares the length that the request does; the head has fewer than 8192 bytes, and
  -- no shorter prefix of it is one. Of the libraries: inserting a header of a new name adds it,
  -- changes no other and not the length; and the server's parser accepts the head and finds the
  -- Transfer-Encoding as the client's request has it in the end, and the printed Content-Length of
  -- that request as the number that was printed.
  pub decode-SentRequest :
      Inserts client.header client.insert_header client.len
      → Unannounced client.header given
      → compute_head client given ≡ ready (final, text)
      → client.body_len (client.take_body final).0 ≡ client.len final
      → (e : Encoder ClientRequest Body) (out : Bytes)
      → Returned (poll_read client ceil_log16 body_io) (new given) out e
      → e.state ≡ end
      → (reader : R) → lines.rest reader ≡ out
      → IsFirst closes_head closes_head-line text
      → (request : Request) → request_of http text ≡ ok request
      → ((n : ℕ)
          → client.len given ≡ some n
          → client.header final (codes "content-length") ≡ some (client.to_string n)
          → http.content_length request ≡ ok (some n))
      → (client.header final (codes "content-length") ≡ none
          → http.content_length request ≡ ok none)
      → http.header request (codes "transfer-encoding")
        ≡ client.header final (codes "transfer-encoding")
      → (d : Decoded Request R T Sender Sending) × (decode http lines_io reader ≡ ok (some d))
        × BodyOwes ext io take_io stream taken d.body payload
  decode-SentRequest map plain computed declares e out run ended reader holds first request parsed
        length_read no_length_read encoding_read =
      let (announced, len) = final-Announced client map given plain final text computed in
      let (cl, length_is, announces) =
        Announces-ReadsBack client.to_string (client.len given)
          (client.header final (codes "content-length"))
          (client.header final (codes "transfer-encoding")) (http.content_length request) announced
          length_read no_length_read in
      decode-SentIn e out ended
        (Returned-Sent client ceil_log16 exact body_stream (IsTrailer ext) eol given final text
          declares computed run)
        reader holds first request parsed cl length_is (rw encoding_read (rw len announces))
