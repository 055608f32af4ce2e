-- ===== src/Server/Decode.antt =====
-- src/server/decode.rs: `decode`, which reads the head of a request and chooses how its body is
-- read. Foreign are `BufReader`, `httparse`, `http_types` and the channel, in the record `Http`.
-- The body of the request and the `BodyReader` that is returned share one cell, `Arc<Mutex<_>>`:
-- the request holds the cell, and the `BodyReader` of the model is what the cell contains.
pub mod Frames
pub mod Safe
pub mod Url
pub mod Accepted
pub mod Samples
pub mod UnitTests
pub mod Tests
use async_h.Base.{
  ℕ, ◌+◌, Bool, true, false, not, ◌&&◌, ◌||◌, List, [], ◌∷◌, ◌++◌, Option, none, some, Result, ok,
  err, panic, ◌>>=◌, ◌>>◌, ensure, ok_or, no_uri, host_missing, unexpected_uri, malformed_head,
  no_method, no_version, unsupported_version, content_length_conflict, leb, ◌==◌, length,
  if◌then◌else◌,
}
use async_h.Base.Bytes.{Bytes, codes, equal, eq_ignore_ascii_case, starts_with}
use async_h.Base.Bytes.Slices.{or_panic, checked_sub}
use async_h.Base.Bytes.Utf8.{from_utf8}
use async_h.Chunked.Decoder as Chunked
use async_h.Head.{BufRead, Ending, complete, eof, max_headers, ends_in, read_head}
use async_h.Notify.{ReadNotifier}
use async_h.Notify as Notify
use async_h.Server.Body.{BodyReader, chunked, fixed, no_body}

abbrev pub http_1_1_version : ℕ
http_1_1_version = 1

abbrev pub continue_header_value : Bytes
continue_header_value = codes "100-continue"

abbrev pub continue_response : Bytes
continue_response = codes "HTTP/1.1 100 Continue\r\n\r\n"

-- `httparse::Request`
pub record HttparseRequest : Type 0 where
  pub method : Option Bytes
  pub path : Option Bytes
  pub version : Option ℕ
  pub headers : List (Bytes × Bytes)

pub record Http (Request Url Method Sender Channel Cell R T : Type 0) : Type 0 where
  -- `httparse_req.parse` with room for that many headers: whether the status is partial
  pub parse : ℕ → Bytes → Result (Bool × HttparseRequest)
  pub url_parse : Bytes → Result Url
  pub method_from_str : Bytes → Result Method
  pub new : Method → Url → Request
  -- to HTTP/1.1
  pub set_version : Request → Request
  pub append_header : Request → Bytes → Bytes → Request
  -- `ContentLength::from_headers` and `len`
  pub content_length : Request → Result (Option ℕ)
  -- `header(name).map(|h| h.as_str())`
  pub header : Request → Bytes → Option Bytes
  pub send_trailers : Request → Sender × Request
  -- `set_body(Body::from_reader(BufReader::new(reader), len))`
  pub set_body : Request → ReadNotifier Cell Channel → Option ℕ → Request
  -- the sender of `async_channel::bounded(1)`
  pub bounded : Channel
  -- the cell that the body and the `BodyReader` share
  pub cell : Cell
  -- `reader.take(len)`
  pub take : R → ℕ → T

abbrev pub is_some : {A : Type 0} → Option A → Bool
is_some none = false
is_some (some a) = true

-- `idx >= 3 && &buf[idx - 3..=idx] == b"\r\n\r\n"` with `idx = buf.len() - 1`
unfoldable pub ends_head : Bytes → Result Bool
unfolding equal
ends_head buf = do idx ← checked_sub (length buf) 1; ends_in buf idx 3 (codes "\r\n\r\n")

-- `headers.iter().find(|x| x.name.eq_ignore_ascii_case("host"))`
unfoldable pub find_host : List (Bytes × Bytes) → Option Bytes
unfolding eq_ignore_ascii_case
find_host [] = none
find_host ((name, value) ∷ headers) =
    if eq_ignore_ascii_case name (codes "host") then some value else find_host headers

-- `te.as_str().eq_ignore_ascii_case("chunked")`, false where there is no such header
unfoldable pub is_chunked : Option Bytes → Bool
unfolding eq_ignore_ascii_case
is_chunked none = false
is_chunked (some te) = eq_ignore_ascii_case te (codes "chunked")

-- `Some(CONTINUE_HEADER_VALUE) == req.header(EXPECT).map(|h| h.as_str())`
unfoldable pub expects_continue : Option Bytes → Bool
unfolding equal
expects_continue none = false
expects_continue (some value) = equal continue_header_value value

-- The request, the reader of its body, and whether the task is spawned that writes
-- `CONTINUE_RESPONSE` when the first read of the body is notified.
pub record Decoded (Request R T Sender Sending : Type 0) : Type 0 where
  pub request : Request
  pub body : BodyReader R T Sender Sending
  pub continue_task : Bool

module _ {Request Url Method Sender Channel Cell R T : Type 0}
    (http : Http Request Url Method Sender Channel Cell R T) where
  unfoldable pub url_from_httparse_req : HttparseRequest → Result Url
  unfolding find_host from_utf8 starts_with eq_ignore_ascii_case
  url_from_httparse_req req = do
    path ← ok_or req.path no_uri
    value ← ok_or (find_host req.headers) host_missing
    host ← from_utf8 value
    if starts_with path (codes "http://") || starts_with path (codes "https://")
        then http.url_parse path
        else if starts_with path (codes "/")
        then http.url_parse (codes "http://" ++ host ++ path)
        else (or_panic req.method >>= λ method.
            if eq_ignore_ascii_case method (codes "connect")
            then http.url_parse (codes "http://" ++ path ++ codes "/")
            else err unexpected_uri)

  unfoldable pub append_headers : Request → List (Bytes × Bytes) → Result Request
  unfolding from_utf8
  append_headers req [] = ok req
  append_headers req ((name, value) ∷ headers) =
      from_utf8 value >>= λ text. append_headers (http.append_header req name text) headers

  -- From the bytes of the head to the request, still without its body.
  unfoldable pub request_of : Bytes → Result Request
  unfolding append_headers
  request_of buf = do
    (is_partial, parsed) ← http.parse max_headers buf
    ensure (not is_partial) malformed_head
    method ← ok_or parsed.method no_method
    version ← ok_or parsed.version no_version
    ensure (version == http_1_1_version) unsupported_version
    url ← url_from_httparse_req parsed
    method' ← http.method_from_str method
    append_headers (http.set_version (http.new method' url)) parsed.headers

  module _ {Sending : Type 0} where
    -- The reader of the body, and the request with its body.
    unfoldable pub choose_body :
        R → Request → Option Bytes → Option ℕ → Request × BodyReader R T Sender Sending
    unfolding is_chunked Notify.new
    choose_body reader req transfer_encoding content_length =
        if is_chunked transfer_encoding
        then (let (sender, req') = http.send_trailers req in
            (
              http.set_body req' (Notify.new http.cell http.bounded) none,
              chunked (Chunked.new reader sender),
            ))
        else elim content_length [
          | some len ↦ (
            http.set_body req (Notify.new http.cell http.bounded) (some len),
            fixed (http.take reader len),
          )
          | none ↦ (req, no_body)
        ]

    abbrev pub decoded :
        Request → Request × BodyReader R T Sender Sending → Decoded Request R T Sender Sending
    decoded req (req', body) = record {
      request = req';
      body = body;
      continue_task = expects_continue (http.header req (codes "expect"));
    }

    unfoldable pub with_body : R → Request → Result (Decoded Request R T Sender Sending)
    with_body reader req = do
      content_length ← http.content_length req
      let transfer_encoding = http.header req (codes "transfer-encoding")
      ensure (not (is_some content_length) || not (is_some transfer_encoding))
          content_length_conflict
      ok (decoded req (choose_body reader req transfer_encoding content_length))

    abbrev pub after_head : R × Result Ending → Result (Option (Decoded Request R T Sender Sending))
    after_head (reader, ok (eof buf)) = ok none
    after_head (reader, ok (complete buf)) =
        request_of buf >>= λ req. with_body reader req >>= λ d. ok (some d)
    after_head (reader, err e) = err e
    after_head (reader, panic) = panic

    module _ (io : BufRead R) where
      -- `reader` is the `BufReader` made of the connection.
      unfoldable pub decode : R → Result (Option (Decoded Request R T Sender Sending))
      unfolding request_of with_body read_head ends_head
      decode reader = after_head (read_head io ends_head reader)
