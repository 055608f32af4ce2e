-- ===== src/Server/Decode/Frames.antt =====
-- `decode` of src/server/decode.rs on a stream that begins with a head: the body that it gives a
-- request with a Content-Length, in chunks, or with neither.
use async_h.Base.{
  Bool, ℕ, suc, ◌+◌, IsSafe, IsSafe-ok, length-append, leb, ◌-◌, ◌<◌, ◌≡◌, inl, inr, refl, sym, ap,
  ◌∙◌, subst, true, false, not, ◌||◌, [], ◌∷◌, ◌++◌, Option, none, some, Result, ok, err, ◌>>=◌,
  content_length_conflict, Bool-cases, arith, ltb, head_too_long, length, drop, take, if◌then◌else◌,
}
use async_h.Base.Bytes.{Bytes, codes, equal_iff, eq_ignore_ascii_case}
use async_h.Io.{Read, Stream}
use async_h.Chunked.Wire.{cr, lf, IsChunked}
use async_h.Chunked.Decoder.{Trailing}
use async_h.Chunked.Decoder.Owes.{IsTrailer}
use async_h.Chunked.Decoder.Delivers.{new-Owes}
use async_h.Head.{BufRead, Ending, complete, read_head, max_head_length}
use async_h.Head.First.{Lines, IsFirst, Decides}
use async_h.Head.Suffix.{has_suffix, ends_in-has_suffix}
use async_h.Head.Unique.{line_suffix, read_head-complete, no_head, read_head-no_head}
use async_h.Server.Body.Delivers.{BodyOwes}
use async_h.Server.Decode.{
  Http, Decoded, ends_head, request_of, choose_body, decoded, with_body, decode, after_head,
  is_some,
}

-- A head ends with an empty line.
unfoldable pub closes_head : Bytes → Bool
unfolding has_suffix
closes_head s = has_suffix (codes "\r\n\r\n") s

pub closes_head-line : (a : Bytes) → closes_head a ≡ true → (front : Bytes) × (a ≡ front ++ lf ∷ [])
unfolding closes_head has_suffix
closes_head-line a h =
    line_suffix (length a - 4) a (cr ∷ lf ∷ cr ∷ [])
      ((equal_iff (drop (length a - 4) a) (codes "\r\n\r\n")).0 h)

pub closes_head-nil : closes_head [] ≡ false
unfolding closes_head
closes_head-nil = refl

ends_head-closes_head :
    (s : Bytes) (idx : ℕ) → length s ≡ suc idx → ends_head s ≡ ok (closes_head s)
unfolding ends_head closes_head
ends_head-closes_head s idx h =
    let one : leb 1 (length s) ≡ true = ground (arith, h) in
    let last : length s - 1 ≡ idx = omega (arith, h) in
    rw (one, last) (ends_in-has_suffix (codes "\r\n\r\n") s idx 3 h refl)

-- The test of the code is that decision on what has a byte, without a panic.
pub ends_head-Decides : Decides closes_head closes_head-line ends_head
ends_head-Decides a b c =
    ends_head-closes_head (a ++ c ∷ b) (length a + length b)
      (omega (arith, length-append a (c ∷ b)))

pub ends_head-IsSafe : (a b : Bytes) (c : ℕ) → IsSafe (ends_head (a ++ c ∷ b))
ends_head-IsSafe a b c = rw (ends_head-Decides a b c) (IsSafe-ok _)

-- The headers of the body, and the body that begins the rest of the stream, in the three cases in
-- which a body is framed: a Content-Length alone, the Transfer-Encoding `chunked` alone, or
-- neither.
pub data Payload (IsWire : Bytes → Bytes → Type 0) (content_length : Option ℕ)
    (transfer_encoding : Option Bytes) (rest body : Bytes) : Type 0 where
  sized :
      (n : ℕ)
      → content_length ≡ some n
      → transfer_encoding ≡ none
      → body ≡ take n rest
      → Payload IsWire content_length transfer_encoding rest body
  in_chunks :
      (te : Bytes)
      → content_length ≡ none
      → transfer_encoding ≡ some te
      → eq_ignore_ascii_case te (codes "chunked") ≡ true
      → IsWire rest body
      → Payload IsWire content_length transfer_encoding rest body
  unframed :
      content_length ≡ none
      → transfer_encoding ≡ none
      → body ≡ []
      → Payload IsWire content_length transfer_encoding rest body

module _ {Request Url Method Sender Sending Trailers Channel Cell R T : Type 0}
    (http : Http Request Url Method Sender Channel Cell R T)
    (ext : Trailing Trailers Sender Sending) (lines_io : BufRead R) (io : Read R) (take_io : Read T)
    (lines : Lines lines_io) (stream : Stream io) (taken : Stream take_io)
    (one_stream : (r : R) → stream.rest r ≡ lines.rest r)
    (takes : (r : R) (n : ℕ) → taken.rest (http.take r n) ≡ take n (stream.rest r)) where
  module _ (reader : R) (head : Bytes) (request : Request) (after : Bytes)
      (whole : lines.rest reader ≡ head ++ after)
      (first : IsFirst closes_head closes_head-line head)
      (parsed : request_of http head ≡ ok request) where
    found_head :
        (o : R × Result Ending)
        → o.1 ≡ ok (complete head)
        → after_head http {Sending = Sending} o ≡ (with_body http o.0 request >>= λ d. ok (some d))
    found_head o e =
        subst
          (λ x.
            after_head http {Sending = Sending} (o.0, x)
            ≡ (with_body http o.0 request >>= λ d. ok (some d)))
          (sym e) (rw parsed refl)

    decode-found :
        (r' : R) × (lines.rest r' ≡ after)
        × (decode http {Sending = Sending} lines_io reader
            ≡ (with_body http r' request >>= λ d. ok (some d)))
    unfolding decode
    decode-found =
        let (found, rest) =
          read_head-complete closes_head closes_head-line lines_io lines ends_head ends_head-Decides
            closes_head-nil reader head after whole first in
        (
          (read_head lines_io ends_head reader).0,
          rest,
          found_head (read_head lines_io ends_head reader) found,
        )

    -- Where the stream of a connection, on which no operation fails, begins with a head of fewer
    -- than 8192 bytes that no shorter prefix of it is, of which a request is made with a
    -- Content-Length and a Transfer-Encoding, `decode` refuses it, whatever the two are.
    decode-conflict :
        (n : ℕ) (te : Bytes)
        → http.content_length request ≡ ok (some n)
        → http.header request (codes "transfer-encoding") ≡ some te
        → decode http {Sending = Sending} lines_io reader ≡ err content_length_conflict
    unfolding with_body
    decode-conflict n te has_length encoded =
        let (r', _, found) = decode-found in found ∙ rw (has_length, encoded) refl

    -- The body of a request that announces one at most once.
    chosen :
        (r : R) (te : Option Bytes) (cl : Option ℕ) (body : Bytes)
        → lines.rest r ≡ after
        → Payload (IsChunked (IsTrailer ext)) cl te after body
        → BodyOwes ext io take_io stream taken (choose_body http r request te cl).1 body
          × ((not (is_some cl) || not (is_some te)) ≡ true)
    unfolding choose_body
    chosen r te cl body rest (sized n c t b) =
        rw (c, t) (takes r n ∙ ap (take n) (one_stream r ∙ rest) ∙ sym b, refl)
    chosen r te cl body rest (in_chunks v c t chunks wire) =
        rw (c, t, chunks)
          (
            new-Owes ext io stream r (http.send_trailers request).0 body
                (rw (one_stream r ∙ rest) wire),
            refl,
          )
    chosen r te cl body rest (unframed c t b) = rw (c, t) (b, refl)

    -- Where the stream of a connection, on which no operation fails, begins with a head of fewer
    -- than 8192 bytes that no shorter prefix of it is, and `httparse` and `http_types` make a
    -- request of it that has a Content-Length and no Transfer-Encoding, or the Transfer-Encoding
    -- `chunked`, in letters of either case, and no Content-Length, or neither: `decode` returns a
    -- request, and the reader of its body owes, of the bytes behind the head, as many as the
    -- Content-Length says or there are, the payload of the chunked message that they are, or none.
    pub decode-BodyOwes :
        (cl : Option ℕ) (body : Bytes)
        → http.content_length request ≡ ok cl
        → Payload
            (IsChunked (IsTrailer ext))
            cl
            (http.header request (codes "transfer-encoding"))
            after
            body
        → (d : Decoded Request R T Sender Sending) × (decode http lines_io reader ≡ ok (some d))
          × BodyOwes ext io take_io stream taken d.body body
    unfolding with_body
    decode-BodyOwes cl body length_is payload =
        let (r', rest, found) = decode-found in
        let (owes, once) =
          chosen r' (http.header request (codes "transfer-encoding")) cl body rest payload in
        (
          decoded http request
              (choose_body http r' request (http.header request (codes "transfer-encoding")) cl),
          found ∙ rw (length_is, once) refl,
          owes,
        )

  -- On a connection on which no operation fails, a stream with no head in its first 8191 bytes is
  -- no request: `decode` reports its end, or refuses it where it has 8192 bytes or more.
  pub decode-no_head :
      (reader : R)
      → ((a b : Bytes)
          → lines.rest reader ≡ a ++ b
          → length a < max_head_length
          → closes_head a ≡ false)
      → decode http {Sending = Sending} lines_io reader
        ≡ (if ltb (length (lines.rest reader)) max_head_length then ok none else err head_too_long)
  unfolding decode
  decode-no_head reader none_ends =
      let e =
        read_head-no_head closes_head closes_head-line lines_io lines ends_head ends_head-Decides
          closes_head-nil reader none_ends in
      go (read_head lines_io ends_head reader) e
    where
      go :
          (o : R × Result Ending)
          → o.1 ≡ no_head closes_head closes_head-line lines_io lines (lines.rest reader)
          → after_head http {Sending = Sending} o ≡ (
              if ltb (length (lines.rest reader)) max_head_length
              then ok none
              else err head_too_long)
      go o e = elim (Bool-cases (ltb (length (lines.rest reader)) max_head_length)) [
        | inl short ↦ rw short (
            subst (λ x. after_head http {Sending = Sending} (o.0, x) ≡ ok none)
              (sym (rw short at e)) refl)
        | inr long ↦ rw long (
            subst (λ x. after_head http {Sending = Sending} (o.0, x) ≡ err head_too_long)
              (sym (rw long at e)) refl)
      ]
