-- ===== src/Client/Decode/Frames.antt =====
-- `decode` of src/client/decode.rs on a stream that begins with a head: the body that it gives a
-- response with a Content-Length, in chunks, or with neither.
use async_h.Base.{
  ◌||◌, Bool, ℕ, suc, ◌+◌, IsSafe, IsSafe-ok, length-append, leb, ◌-◌, ◌<◌, ◌≡◌, inl, inr, refl,
  sym, ap, ◌∙◌, subst, true, false, [], ◌∷◌, ◌++◌, Option, none, some, Error, Result, ok, err,
  content_length_conflict, connection_closed, empty_response, head_too_long, Bool-cases, arith, leb,
  ltb, length, drop, take, if◌then◌else◌,
}
use async_h.Base.Int.{ℤ}
use async_h.Base.Bytes.{Bytes, codes, equal, equal_iff}
use async_h.Base.Bytes.Ints.{parse_unsigned}
use async_h.Io.{Read, Stream}
use async_h.Chunked.Wire.{cr, lf, u64_max, IsChunked}
use async_h.Chunked.Decoder.{Trailing}
use async_h.Chunked.Decoder as Chunked
use async_h.Chunked.Decoder.Owes.{IsTrailer}
use async_h.Chunked.Decoder.Delivers.{new-Owes}
use async_h.Head.{BufRead, Ending, complete, read_head, max_head_length}
use async_h.Head.First.{Lines, IsFirst, Decides}
use async_h.Head.Suffix.{has_suffix, ends_in-has_suffix}
use async_h.Head.Unique.{line_suffix, read_head-complete, no_head, read_head-no_head}
use async_h.Server.Body.{chunked, fixed, no_body}
use async_h.Server.Body.Delivers.{BodyOwes}
use async_h.Client.Decode.{
  Http, Received, ends_head, response_of, sized_body, with_body, after_head, decode,
}

-- A head ends with an empty line, or with two line feeds.
unfoldable pub closes_head : Bytes → Bool
unfolding has_suffix
closes_head s = has_suffix (cr ∷ lf ∷ cr ∷ lf ∷ []) s || has_suffix (lf ∷ lf ∷ []) s

pub closes_head-line : (a : Bytes) → closes_head a ≡ true → (front : Bytes) × (a ≡ front ++ lf ∷ [])
unfolding closes_head has_suffix
closes_head-line a h = elim (Bool-cases (equal (drop (length a - 4) a) (cr ∷ lf ∷ cr ∷ lf ∷ []))) [
  | inl crlf ↦
      line_suffix (length a - 4) a (cr ∷ lf ∷ cr ∷ [])
        ((equal_iff (drop (length a - 4) a) (cr ∷ lf ∷ cr ∷ lf ∷ [])).0 crlf)
  | inr other ↦
      line_suffix (length a - 2) a (lf ∷ [])
        ((equal_iff (drop (length a - 2) a) (lf ∷ lf ∷ [])).0 (ground (arith, h)))
]

pub closes_head-nil : closes_head [] ≡ false
unfolding closes_head
closes_head-nil = refl

ends_head-closes_head :
    (s : Bytes) (idx : ℕ) → length s ≡ suc idx → ends_head s ≡ ok (closes_head s)
unfolding ends_head closes_head
ends_head-closes_head s idx h =
    let one : leb 1 (length s) ≡ true = ground (arith, h) in
    let last : length s - 1 ≡ idx = omega (arith, h) in
    let crlf = ends_in-has_suffix (cr ∷ lf ∷ cr ∷ lf ∷ []) s idx 3 h refl in
    let feeds = ends_in-has_suffix (lf ∷ lf ∷ []) s idx 1 h refl in
    elim (Bool-cases (has_suffix (cr ∷ lf ∷ cr ∷ lf ∷ []) s)) [
      | inl e ↦ rw (one, last, crlf, e) refl
      | inr e ↦ rw (one, last, crlf, e) feeds
    ]

-- The test of the code is that decision on what has a byte, without a panic.
pub ends_head-Decides : Decides closes_head closes_head-line ends_head
ends_head-Decides a b c =
    ends_head-closes_head (a ++ c ∷ b) (length a + length b)
      (omega (arith, length-append a (c ∷ b)))

pub ends_head-IsSafe : (a b : Bytes) (c : ℕ) → IsSafe (ends_head (a ++ c ∷ b))
ends_head-IsSafe a b c = rw (ends_head-Decides a b c) (IsSafe-ok _)

-- The headers of the body, and the body that begins the rest of the stream, in the three cases in
-- which a body is framed: a Content-Length alone, the Transfer-Encoding `chunked` alone, or
-- neither.
pub data Payload (IsWire : Bytes → Bytes → Type 0) (content_length transfer_encoding : Option Bytes)
    (rest body : Bytes) : Type 0 where
  sized :
      (text : Bytes) (n : ℕ)
      → content_length ≡ some text
      → parse_unsigned u64_max text ≡ ok n
      → transfer_encoding ≡ none
      → body ≡ take n rest
      → Payload IsWire content_length transfer_encoding rest body
  in_chunks :
      content_length ≡ none
      → transfer_encoding ≡ some (codes "chunked")
      → IsWire rest body
      → Payload IsWire content_length transfer_encoding rest body
  unframed :
      content_length ≡ none
      → transfer_encoding ≡ none
      → body ≡ []
      → Payload IsWire content_length transfer_encoding rest body

module _ {Response StatusCode Sender Sending Trailers R T : Type 0}
    (http : Http Response StatusCode Sender R T) (ext : Trailing Trailers Sender Sending)
    (lines_io : BufRead R) (io : Read R) (take_io : Read T) (lines : Lines lines_io)
    (stream : Stream io) (taken : Stream take_io)
    (one_stream : (r : R) → stream.rest r ≡ lines.rest r)
    (takes : (r : R) (n : ℕ) → taken.rest (http.take r n) ≡ take n (stream.rest r)) (now : ℤ)
    (reader : R) where
  module _ (head : Bytes) (response : Response) (after : Bytes)
      (whole : lines.rest reader ≡ head ++ after)
      (first : IsFirst closes_head closes_head-line head)
      (parsed : response_of http now head ≡ ok response) where
    found_head :
        (o : R × Result Ending)
        → o.1 ≡ ok (complete head)
        → after_head http {Sending = Sending} now o ≡ with_body http o.0 response
    found_head o e =
        subst (λ x. after_head http {Sending = Sending} now (o.0, x) ≡ with_body http o.0 response)
          (sym e) (rw parsed refl)

    decode-found :
        (r' : R) × (lines.rest r' ≡ after)
        × (decode http {Sending = Sending} lines_io now reader ≡ with_body http r' response)
    unfolding decode
    decode-found =
        let (found, rest) =
          read_head-complete closes_head closes_head-line lines_io lines ends_head ends_head-Decides
            closes_head-nil reader head after whole first in
        (
          (read_head lines_io ends_head reader).0,
          rest,
          found_head (read_head lines_io ends_head reader) found,
        )

    -- A response with a Content-Length and a Transfer-Encoding is refused, whatever they are.
    pub decode_response-conflict :
        (len te : Bytes)
        → http.header response (codes "content-length") ≡ some len
        → http.header response (codes "transfer-encoding") ≡ some te
        → decode http {Sending = Sending} lines_io now reader ≡ err content_length_conflict
    unfolding with_body
    decode_response-conflict len te has_length encoded =
        let (r', _, found) = decode-found in found ∙ rw (has_length, encoded) refl

    chosen :
        (r : R)
        → lines.rest r ≡ after
        → (body : Bytes)
        → Payload
            (IsChunked (IsTrailer ext))
            (http.header response (codes "content-length"))
            (http.header response (codes "transfer-encoding"))
            after
            body
        → (d : Received Response R T Sender Sending) × (with_body http r response ≡ ok d)
          × BodyOwes ext io take_io stream taken d.body body
    unfolding with_body
    chosen r rest body (sized text n c p t b) = (
      record { response = response; body = fixed (http.take r n); body_len = some n },
      rw (c, t, sized_body, p) refl,
      takes r n ∙ ap (take n) (one_stream r ∙ rest) ∙ sym b,
    )
    chosen r rest body (in_chunks c t wire) = (
      record {
        response = (http.send_trailers response).1;
        body = chunked (Chunked.new r (http.send_trailers response).0);
        body_len = none;
      },
      rw (c, t) refl,
      new-Owes ext io stream r (http.send_trailers response).0 body (rw (one_stream r ∙ rest) wire),
    )
    chosen r rest body (unframed c t b) =
        (record { response = response; body = no_body; body_len = none }, rw (c, t) refl, b)

    -- Where the stream of a connection, on which no operation fails, begins with a head of fewer
    -- than 8192 bytes that no shorter prefix of it is, and `httparse` and `http_types` make a
    -- response of it that has a Content-Length and no Transfer-Encoding, or a Transfer-Encoding
    -- that is `chunked`, letter by letter, and no Content-Length, or neither: `decode` returns a
    -- response, and its body owes, of the bytes behind the head, as many as the Content-Length says
    -- or there are, the payload of the chunked message that they are, or none.
    pub decode_response-BodyOwes :
        (body : Bytes)
        → Payload
            (IsChunked (IsTrailer ext))
            (http.header response (codes "content-length"))
            (http.header response (codes "transfer-encoding"))
            after
            body
        → (d : Received Response R T Sender Sending) × (decode http lines_io now reader ≡ ok d)
          × BodyOwes ext io take_io stream taken d.body body
    decode_response-BodyOwes body payload =
        let (r', rest, found) = decode-found in
        let (d, e, owes) = chosen r' rest body payload in (d, found ∙ e, owes)

  -- The error of a stream that holds no head.
  abbrev pub no_response : Bytes → Error
  no_response [] = connection_closed
  no_response (c ∷ before) =
      if ltb (length (c ∷ before)) max_head_length then empty_response else head_too_long

  -- On a connection on which no operation fails, a stream with no head in its first 8191 bytes is
  -- no response: the connection was closed, if it is empty; the response is empty, if it is shorter
  -- than 8192 bytes; and its head is too long otherwise.
  pub decode_response-no_head :
      ((a b : Bytes)
        → lines.rest reader ≡ a ++ b
        → length a < max_head_length
        → closes_head a ≡ false)
      → decode http {Sending = Sending} lines_io now reader ≡ err (no_response (lines.rest reader))
  unfolding decode
  decode_response-no_head none_ends = go (lines.rest reader) (read_head lines_io ends_head reader) (
      read_head-no_head closes_head closes_head-line lines_io lines ends_head ends_head-Decides
        closes_head-nil reader none_ends)
    where
      go :
          (before : Bytes) (o : R × Result Ending)
          → o.1 ≡ no_head closes_head closes_head-line lines_io lines before
          → after_head http {Sending = Sending} now o ≡ err (no_response before)
      go [] o e =
          subst (λ x. after_head http {Sending = Sending} now (o.0, x) ≡ err connection_closed)
            (sym e) refl
      go (c ∷ before) o e = elim (Bool-cases (ltb (length (c ∷ before)) max_head_length)) [
        | inl short ↦ rw short (
            subst (λ x. after_head http {Sending = Sending} now (o.0, x) ≡ err empty_response)
              (sym (rw short at e)) refl)
        | inr long ↦ rw long (
            subst (λ x. after_head http {Sending = Sending} now (o.0, x) ≡ err head_too_long)
              (sym (rw long at e)) refl)
      ]
