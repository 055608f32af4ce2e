-- ===== src/Exchange.antt =====
-- src/server/encode.rs and src/client/decode.rs together: the bytes that the calls of the server's
-- encoder return for a response, read by the client.
pub mod Requests
pub mod Tests
use async_h.Base.{
  ℕ, ◌≡◌, refl, sym, ap, subst, ◌∙◌, false, [], ◌∷◌, ◌++◌, append-nil, Option, none, some, ok,
  length, take, take-append,
}
use async_h.Base.Int.{ℤ}
use async_h.Base.Bytes.{Bytes, codes}
use async_h.Base.Bytes.Ints.{parse_unsigned}
use async_h.Io.{Read, Stream}
use async_h.Chunked.Wire.{cr, lf, u64_max, IsChunked}
use async_h.Chunked.Encoder.Frame.{IsExact}
use async_h.Chunked.Decoder.{Trailing}
use async_h.Chunked.Decoder.Owes.{IsTrailer}
use async_h.Encode.{end}
use async_h.Encode.Sends.{Message}
use async_h.Head.{BufRead}
use async_h.Head.First.{Lines, IsFirst}
use async_h.Server.Body.Delivers.{BodyOwes}
use async_h.Server.Encode.{Responses, Encoder, new, compute_head}
use async_h.Encode.Runs.{Inserts, Unannounced, Announces, Returned}
use async_h.Server.Encode.{poll_read}
use async_h.Server.Encode.Runs.{Returned-Sent, final-Announced}
use async_h.Server.Encode.Sends.{Sent, SentIn}
use async_h.Client.Decode.{Http, Received, ends_head, response_of, decode}
use async_h.Client.Decode.Frames.{
  closes_head, closes_head-line, Payload, sized, in_chunks, decode_response-BodyOwes,
}

-- The client reads the two headers of the body that the server has set for a declared length.
abbrev ReadsBack : Option ℕ → Option Bytes → Option Bytes → Type 0
ReadsBack (some n) content_length transfer_encoding =
    (digits : Bytes) × (content_length ≡ some digits)
    × (parse_unsigned u64_max digits ≡ ok n)
    × (transfer_encoding ≡ none)
ReadsBack none content_length transfer_encoding =
    (content_length ≡ none) × (transfer_encoding ≡ some (codes "chunked"))

Announces-ReadsBack :
    (to_string : ℕ → Bytes) (len : Option ℕ) (content_length transfer_encoding : Option Bytes)
    → Announces to_string len content_length transfer_encoding
    → ((n : ℕ) → len ≡ some n → parse_unsigned u64_max (to_string n) ≡ ok n)
    → ReadsBack len content_length transfer_encoding
Announces-ReadsBack to_string (some n) cl te (c, t) prints = (to_string n, c, prints n refl, t)
Announces-ReadsBack to_string none cl te announced prints = announced

module _ {ServerResponse Body Response StatusCode Sender Sending Trailers R T : Type 0}
    (server : Responses ServerResponse Body) (sent_at : ℤ) (ceil_log16 : ℕ → ℕ)
    (exact : IsExact ceil_log16) {body_io : Read Body} (body_stream : Stream body_io)
    (http : Http Response StatusCode Sender R T) (ext : Trailing Trailers Sender Sending)
    (eol : IsTrailer ext (cr ∷ lf ∷ [])) (lines_io : BufRead R) (io : Read R) (take_io : Read T)
    (lines : Lines lines_io) (stream : Stream io) (taken : Stream take_io)
    (one_stream : (r : R) → stream.rest r ≡ lines.rest r)
    (takes : (r : R) (n : ℕ) → taken.rest (http.take r n) ≡ take n (stream.rest r)) (now : ℤ) where
  module _ (given final : ServerResponse) (text : Bytes) where
    abbrev pub payload : Bytes
    payload = body_stream.rest (server.take_body final).0

    Message-Payload :
        (len : Option ℕ) (content_length transfer_encoding : Option Bytes) (out : Bytes)
        → ReadsBack len content_length transfer_encoding
        → Message server.body_len ceil_log16 exact body_stream
            (IsTrailer ext)
            eol
            false
            text
            (server.take_body final).0
            (server.len final)
            len
            out
        → (after : Bytes) × (out ≡ text ++ after)
          × Payload (IsChunked (IsTrailer ext)) content_length transfer_encoding after payload
    Message-Payload (some n) cl te out (digits, c, p, t) (whole, count) = (
      payload,
      whole,
      sized digits n c p t
          (sym (ap (take n) (sym (append-nil payload)) ∙ take-append payload [] n count)),
    )
    Message-Payload none cl te out (c, t) (w, whole, wire) = (w, whole, in_chunks c t wire)

    -- From what the server has sent to what the client makes of it.
    decode-SentIn :
        (e : Encoder ServerResponse Body) (out : Bytes)
        → e.state ≡ end
        → Sent server sent_at ceil_log16 exact body_stream
            (IsTrailer ext)
            eol
            given
            final
            text
            false
            e
            out
        → (reader : R) → lines.rest reader ≡ out
        → IsFirst closes_head closes_head-line text
        → (response : Response) → response_of http now text ≡ ok response
        → ReadsBack
            (server.len final)
            (http.header response (codes "content-length"))
            (http.header response (codes "transfer-encoding"))
        → (d : Received Response R T Sender Sending) × (decode http lines_io now reader ≡ ok d)
          × BodyOwes ext io take_io stream taken d.body payload
    decode-SentIn e out ended (at, sent) reader holds first response parsed reads_back =
        let (after, whole, announced) =
          Message-Payload (server.len final) (http.header response (codes "content-length"))
            (http.header response (codes "transfer-encoding")) out reads_back
            (subst
              (λ state.
                SentIn server sent_at ceil_log16 exact body_stream (IsTrailer ext) eol given final
                  text false state out)
              ended sent) in
        decode_response-BodyOwes http ext lines_io io take_io lines stream taken one_stream takes
          now reader text response after (holds ∙ whole) first parsed payload announced

    -- Where calls of `poll_read` on a new encoder of a response with neither of the two headers of
    -- the body, not to a HEAD request, have returned `out` and left the encoder at its end, none of
    -- them failing, the client reads, on a connection on which no operation fails, from `out` a
    -- response whose body owes what the body of the server's response held. The buffers have at
    -- least six and fewer than 2^48 bytes, and the body declares the length that the response does;
    -- the head has fewer than 8192 bytes, and no shorter prefix of it is one. Of the libraries:
    -- inserting a header of a new name adds it, changes no other and not the length; the printed
    -- length is parsed as that length; and the client's parser accepts the head and finds the two
    -- headers of the body as the server's response has them in the end.
    pub decode-Sent :
        Inserts server.header server.insert_header server.len
        → ((n : ℕ) → server.len given ≡ some n → parse_unsigned u64_max (server.to_string n) ≡ ok n)
        → Unannounced server.header given
        → compute_head server sent_at given ≡ ok (final, text)
        → server.body_len (server.take_body final).0 ≡ server.len final
        → (e : Encoder ServerResponse Body) (out : Bytes)
        → Returned (poll_read server sent_at ceil_log16 body_io) (new given false) out e
        → e.state ≡ end
        → (reader : R) → lines.rest reader ≡ out
        → IsFirst closes_head closes_head-line text
        → (response : Response) → response_of http now text ≡ ok response
        → http.header response (codes "content-length")
          ≡ server.header final (codes "content-length")
        → http.header response (codes "transfer-encoding")
          ≡ server.header final (codes "transfer-encoding")
        → (d : Received Response R T Sender Sending) × (decode http lines_io now reader ≡ ok d)
          × BodyOwes ext io take_io stream taken d.body payload
    decode-Sent map prints plain computed declares e out run ended reader holds first response
          parsed length_read encoding_read =
        let (announced, len) = final-Announced server sent_at map given final text plain computed in
        decode-SentIn e out ended
          (Returned-Sent server sent_at ceil_log16 exact body_stream (IsTrailer ext) eol given final
            text declares false computed run)
          reader holds first response parsed
          (rw length_read (
            rw encoding_read (
              rw len (
                Announces-ReadsBack server.to_string (server.len given)
                  (server.header final (codes "content-length"))
                  (server.header final (codes "transfer-encoding")) announced prints))))
