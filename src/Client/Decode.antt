-- ===== src/Client/Decode.antt =====
-- src/client/decode.rs: `decode`, which reads the head of a response and chooses its body. Foreign
-- are `BufReader`, `httparse` and `http_types`, in the record `Http`. The body of the response is
-- given beside it, in the words of the server's `BodyReader`: `no_body` is the empty body.
pub mod Frames
pub mod Safe
pub mod Accepted
pub mod Samples
pub mod Tests
use async_h.Base.{
  ℕ, ◌+◌, Bool, true, false, not, ◌&&◌, ◌||◌, List, [], ◌∷◌, ◌++◌, Option, none, some, Result, ok,
  err, panic, ◌>>=◌, ◌>>◌, ensure, ok_or, malformed_head, no_status_code, no_version,
  unsupported_version, content_length_conflict, connection_closed, empty_response, leb, ◌==◌,
  length, if◌then◌else◌,
}
use async_h.Base.Int.{ℤ}
use async_h.Base.Bytes.{Bytes, codes, equal}
use async_h.Base.Bytes.Ints.{parse_unsigned}
use async_h.Base.Bytes.Slices.{checked_sub}
use async_h.Base.Bytes.Utf8.{from_utf8}
use async_h.Chunked.Wire.{cr, lf, u64_max}
use async_h.Chunked.Decoder as Chunked
use async_h.Date.Display.{fmt_http_date}
use async_h.Head.{BufRead, Ending, complete, eof, max_headers, ends_in, read_head}
use async_h.Server.Body.{BodyReader, chunked, fixed, no_body}
use async_h.Server.Decode.{is_some}

-- `httparse::Response`
pub record HttparseResponse : Type 0 where
  pub code : Option ℕ
  pub version : Option ℕ
  pub headers : List (Bytes × Bytes)

pub record Http (Response StatusCode Sender R T : Type 0) : Type 0 where
  -- `httparse_res.parse` with room for that many headers: whether the status is partial
  pub parse : ℕ → Bytes → Result (Bool × HttparseResponse)
  pub status_try_from : ℕ → Result StatusCode
  pub new : StatusCode → Response
  pub append_header : Response → Bytes → Bytes → Response
  pub insert_header : Response → Bytes → Bytes → Response
  -- `header(name).map(|values| values.last().as_str())`
  pub header : Response → Bytes → Option Bytes
  pub send_trailers : Response → Sender × Response
  -- `reader.take(len)`
  pub take : R → ℕ → T

-- A response and its body, with the length that `Body::from_reader` is given.
pub record Received (Response R T Sender Sending : Type 0) : Type 0 where
  pub response : Response
  pub body : BodyReader R T Sender Sending
  pub body_len : Option ℕ

-- The two tests after a line, with `idx = buf.len() - 1`: the head ends with an empty line, or with
-- two line feeds.
unfoldable pub ends_head : Bytes → Result Bool
unfolding equal
ends_head buf = do
  idx ← checked_sub (length buf) 1
  crlf ← ends_in buf idx 3 (cr ∷ lf ∷ cr ∷ lf ∷ [])
  if crlf then ok true else ends_in buf idx 1 (lf ∷ lf ∷ [])

-- `if let Some(encoding) = …` with `encoding.last().as_str() == "chunked"`
unfoldable pub is_chunked : Option Bytes → Bool
unfolding equal
is_chunked none = false
is_chunked (some encoding) = equal encoding (codes "chunked")

module _ {Response StatusCode Sender R T : Type 0}
    (http : Http Response StatusCode Sender R T) where
  unfoldable pub append_headers : Response → List (Bytes × Bytes) → Result Response
  unfolding from_utf8
  append_headers res [] = ok res
  append_headers res ((name, value) ∷ headers) =
      from_utf8 value >>= λ text. append_headers (http.append_header res name text) headers

  unfoldable pub with_date : ℤ → Response → Result Response
  with_date now res = elim (http.header res (codes "date")) [
    | none ↦ fmt_http_date now >>= λ date.
        ok (http.insert_header res (codes "date") (codes "date: " ++ date ++ cr ∷ lf ∷ []))
    | some value ↦ ok res
  ]

  -- From the bytes of the head to the response, still without its body.
  unfoldable pub response_of : ℤ → Bytes → Result Response
  unfolding append_headers with_date
  response_of now buf = do
    (is_partial, parsed) ← http.parse max_headers buf
    ensure (not is_partial) malformed_head
    code ← ok_or parsed.code no_status_code
    version ← ok_or parsed.version no_version
    ensure (version == 1) unsupported_version
    status ← http.status_try_from code
    res ← append_headers (http.new status) parsed.headers
    with_date now res

  module _ {Sending : Type 0} where
    -- The body of a `Content-Length`, or none.
    unfoldable pub sized_body :
        R → Response → Option Bytes → Result (Received Response R T Sender Sending)
    unfolding parse_unsigned
    sized_body reader res none = ok (record { response = res; body = no_body; body_len = none })
    sized_body reader res (some text) = do
      len ← parse_unsigned u64_max text
      ok (record { response = res; body = fixed (http.take reader len); body_len = some len })

    unfoldable pub with_body : R → Response → Result (Received Response R T Sender Sending)
    unfolding is_chunked sized_body
    with_body reader res = do
      let content_length = http.header res (codes "content-length")
      let transfer_encoding = http.header res (codes "transfer-encoding")
      ensure (not (is_some content_length) || not (is_some transfer_encoding))
          content_length_conflict
      if is_chunked transfer_encoding
          then (let (sender, res') = http.send_trailers res in
              ok (record {
                response = res';
                body = chunked (Chunked.new reader sender);
                body_len = none;
              }))
          else sized_body reader res content_length

    abbrev pub after_head : ℤ → R × Result Ending → Result (Received Response R T Sender Sending)
    after_head now (reader, ok (eof [])) = err connection_closed
    after_head now (reader, ok (eof (c ∷ buf))) = err empty_response
    after_head now (reader, ok (complete buf)) = response_of now buf >>= λ res. with_body reader res
    after_head now (reader, err e) = err e
    after_head now (reader, panic) = panic

    module _ (io : BufRead R) where
      -- `reader` is the `BufReader` made of the connection, `now` the time of the clock.
      unfoldable pub decode : ℤ → R → Result (Received Response R T Sender Sending)
      unfolding response_of with_body read_head ends_head
      decode now reader = after_head now (read_head io ends_head reader)
