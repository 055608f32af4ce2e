-- ===== src/Exchange/Tests.antt =====
-- An instance of each theorem of Exchange: the response of the runs of src/server, read by a client
-- whose parser knows the head of that response only, and a request of the runs of src/client in the
-- same way.
use async_h.Base.{
  ℕ, ◌≡◌, refl, Bool, true, false, [], ◌∷◌, ◌++◌, none, some, Result, ok, arith, if◌then◌else◌,
  replicate, length, Bool-cases, inl, inr, ◌≢◌, ap, sym, ◌∙◌, subst,
}
use async_h.Base.Int.{pos}
use async_h.Base.Bytes.{Bytes, codes, equal, equal_iff, equal_refl, eq_ignore_ascii_case}
use async_h.Base.Bytes.Ints.{parse_unsigned}
use async_h.Base.Bytes.Utf8.{from_utf8}
use async_h.Io.{Poll}
use async_h.Io.Samples.{Body, bytes_io, bytes_stream, body_io, body_stream}
use async_h.Chunked.Encoder.Log.{ceil_log16, exact}
use async_h.Chunked.Samples.{ext, eol-IsTrailer}
use async_h.Encode.{end}
use async_h.Head.First.{IsFirst}
use async_h.Head.Samples.{lines_io, lines, none_before, shortest_of}
use async_h.Server.Body.Delivers.{BodyOwes}
use async_h.Server.Encode.{
  Headers, Encoder, new, compute_head, after_head, step_in, poll_rounds, poll_read,
}
use async_h.Encode.Runs.{Inserts, Returned, here, returns}
use async_h.Server.Tests.{http, given, final, text, lookup, decimal}
use async_h.Server.Tests as Server
use async_h.Client.Decode.{
  HttparseResponse, Received, append_headers, with_date, response_of, decode,
}
use async_h.Client.Decode.Frames.{closes_head, closes_head-line}
use async_h.Client.Decode.Samples as Read
use async_h.Client.Tests as Client
use async_h.Client.Encode as Requests
use async_h.Encode as Encode
use async_h.Encode.{cursor_poll_read}
use async_h.Date.Display.{fmt_http_date, fmt, week_day_name, month_name}
use async_h.Date.FromTime.{from_system_time}
use async_h.Server.Decode.{HttparseRequest, request_of, url_from_httparse_req, find_host}
use async_h.Server.Decode as Decode
use async_h.Server.Decode.Frames as Frames
use async_h.Server.Decode.Samples as Asks
use async_h.Chunked.Wire.{u64_max}
use async_h.Chunked.Encoder.Frame as Frame
use async_h.Chunked.Encoder as Chunked
use async_h.Chunked.Encoder.Log as Log
use async_h.Exchange.Requests.{decode-SentRequest}
use async_h.Exchange.{decode-Sent}

abbrev parsed : Read.Headers
parsed =
    (codes "content-length", codes "5") ∷ (codes "date", codes "Thu, 01 Jan 1970 00:00:00 GMT") ∷ []

unfoldable parse : ℕ → Bytes → Result (Bool × HttparseResponse)
unfolding equal
parse n buf = if equal buf text then ok (false, Read.found parsed) else ok (true, Read.found [])

text-IsFirst : IsFirst closes_head closes_head-line text
unfolding closes_head none_before
text-IsFirst = record {
  is_head = refl;
  shortest = shortest_of closes_head text refl;
  bounded = omega arith;
}

response : response_of (Read.http_with parse) (pos 0) text ≡ ok parsed
unfolding response_of parse append_headers with_date from_utf8 Read.lookup
response = refl

-- The lookup of the samples: what is appended is found where nothing was, and nothing else changes.
lookup-append-new :
    (name : Bytes) (headers more : Headers)
    → lookup name headers ≡ none
    → lookup name (headers ++ more) ≡ lookup name more
unfolding lookup
lookup-append-new name [] more h = refl
lookup-append-new name ((x, []) ∷ headers) more h = lookup-append-new name headers more h
lookup-append-new name ((x, v ∷ vs) ∷ headers) more h =
    go (equal name x) h (lookup-append-new name headers more)
  where
    go :
        (b : Bool)
        → (if b then some v else lookup name headers) ≡ none
        → (lookup name headers ≡ none → lookup name (headers ++ more) ≡ lookup name more)
        → (if b then some v else lookup name (headers ++ more)) ≡ lookup name more
    go true e rest = cc
    go false e rest = rest e

lookup-append-none :
    (name : Bytes) (headers more : Headers)
    → lookup name more ≡ none
    → lookup name (headers ++ more) ≡ lookup name headers
unfolding lookup
lookup-append-none name [] more h = h
lookup-append-none name ((x, []) ∷ headers) more h = lookup-append-none name headers more h
lookup-append-none name ((x, v ∷ vs) ∷ headers) more h =
    ap (λ later. if equal name x then some v else later) (lookup-append-none name headers more h)

differs_lookup :
    (name other value : Bytes) → name ≢ other → lookup other ((name, value ∷ []) ∷ []) ≡ none
unfolding lookup
differs_lookup name other value differs = elim (Bool-cases (equal other name)) [
  | inl e ↦ absurd (differs (sym ((equal_iff other name).0 e)))
  | inr e ↦ rw e refl
]

http-Inserts : Inserts http.header http.insert_header http.len
unfolding lookup
http-Inserts = record {
  inserted = λ h name value absent.
      lookup-append-new name h.1 ((name, value ∷ []) ∷ []) absent ∙ rw (equal_refl name) refl;
  others = λ h name other value differs.
      lookup-append-none other h.1 ((name, value ∷ []) ∷ [])
        (differs_lookup name other value differs);
  len_kept = λ h name value. refl;
}

-- The calls of the server's encoder on buffers of a hundred bytes.
abbrev buf : Bytes
buf = replicate 100 0

abbrev call : Encoder Server.Response Body → Encoder Server.Response Body × Bytes × Poll ℕ
call e = poll_read http (pos 0) ceil_log16 body_io e buf

abbrev first : Encoder Server.Response Body × Bytes × Poll ℕ
first = call (new given false)

abbrev second : Encoder Server.Response Body × Bytes × Poll ℕ
second = call first.0

abbrev third : Encoder Server.Response Body × Bytes × Poll ℕ
third = call second.0

abbrev finished : Encoder Server.Response Body
finished = record { response = ((some 0, []), final.1); state = end; is_head = false }

run :
    Returned
      (poll_read http (pos 0) ceil_log16 body_io)
      (new given false)
      (text ++ codes "Hello")
      finished
unfolding poll_read poll_rounds step_in new compute_head lookup decimal fmt_http_date fmt
    week_day_name month_name from_utf8 from_system_time cursor_poll_read after_head Encode.poll_read
    Encode.new
run =
    returns buf third.1 0
      (returns buf second.1 5
        (returns buf first.1 (length text) here (omega arith, omega arith) refl refl)
        (omega arith, omega arith) refl refl)
      (omega arith, omega arith) refl refl

five : (n : ℕ) → some 5 ≡ some n → 5 ≡ n
five n e = cc

prints_length : (n : ℕ) → some 5 ≡ some n → parse_unsigned u64_max (decimal 20 n) ≡ ok n
unfolding parse_unsigned decimal
prints_length n e = subst (λ k. parse_unsigned u64_max (decimal 20 k) ≡ ok k) (five n e) refl

decode-Sent_example :
    (d : Received Read.Headers Bytes Bytes (Unit {0}) (Unit {0})) × (decode
        (Read.http_with parse)
        lines_io
        (pos 0)
        (text ++ codes "Hello")
      ≡ ok d)
    × BodyOwes ext bytes_io bytes_io bytes_stream bytes_stream d.body (codes "Hello")
unfolding lookup Read.lookup parse_unsigned decimal
decode-Sent_example =
    decode-Sent http (pos 0) ceil_log16 exact body_stream (Read.http_with parse) ext eol-IsTrailer
      lines_io bytes_io bytes_io lines bytes_stream bytes_stream (λ r. refl) (λ r n. refl) (pos 0)
      given final text http-Inserts prints_length (refl, refl) Server.head_example refl finished
      (text ++ codes "Hello") run refl (text ++ codes "Hello") refl text-IsFirst parsed response
      refl refl

-- The request of the runs of src/client, read by a server.
abbrev asked : Asks.Headers
asked = (codes "host", codes "example.com") ∷ (codes "transfer-encoding", codes "chunked") ∷ []

abbrev get : HttparseRequest
get = record {
  method = some (codes "GET");
  path = some (codes "/");
  version = some 1;
  headers = asked;
}

unfoldable parse_request : ℕ → Bytes → Result (Bool × HttparseRequest)
unfolding equal
parse_request n buf = if equal buf Client.text then ok (false, get) else ok (true, get)

request_text-IsFirst : IsFirst Frames.closes_head Frames.closes_head-line Client.text
unfolding Frames.closes_head none_before
request_text-IsFirst = record {
  is_head = refl;
  shortest = shortest_of Frames.closes_head Client.text refl;
  bounded = omega arith;
}

request : request_of (Asks.http_with parse_request) Client.text ≡ ok asked
unfolding request_of parse_request url_from_httparse_req find_host Decode.append_headers from_utf8
    Asks.lookup
request = refl

abbrev hello : Bytes
hello = Frame.chunk (codes "Hello") ++ Frame.chunk []

requests-Inserts :
    Inserts (Client.http false).header (Client.http false).insert_header (Client.http false).len
unfolding lookup
requests-Inserts = record {
  inserted = λ h name value absent.
      lookup-append-new name h ((name, value ∷ []) ∷ []) absent ∙ rw (equal_refl name) refl;
  others = λ h name other value differs.
      lookup-append-none other h ((name, value ∷ []) ∷ [])
        (differs_lookup name other value differs);
  len_kept = λ h name value. refl;
}

abbrev ask : Requests.Encoder Headers Body → Requests.Encoder Headers Body × Bytes × Poll ℕ
ask e = Requests.poll_read (Client.http false) ceil_log16 body_io e buf

abbrev first_request : Requests.Encoder Headers Body × Bytes × Poll ℕ
first_request = ask (Requests.new [])

abbrev second_request : Requests.Encoder Headers Body × Bytes × Poll ℕ
second_request = ask first_request.0

abbrev third_request : Requests.Encoder Headers Body × Bytes × Poll ℕ
third_request = ask second_request.0

abbrev fourth_request : Requests.Encoder Headers Body × Bytes × Poll ℕ
fourth_request = ask third_request.0

abbrev finished_request : Requests.Encoder Headers Body
finished_request = record { request = Client.final; state = end }

request_run :
    Returned
      (Requests.poll_read (Client.http false) ceil_log16 body_io)
      (Requests.new [])
      (Client.text ++ hello)
      finished_request
unfolding Requests.poll_read Requests.poll_rounds Requests.step_in Requests.new
    Requests.compute_head lookup cursor_poll_read Requests.after_head Encode.poll_read Encode.new
    Chunked.poll_read Chunked.new Chunked.frame Chunked.copy_within Log.ceil_log16_up_to
    Chunked.copy_from_slice Chunked.start_line
request_run =
    returns buf fourth_request.1 0
      (returns buf third_request.1 5
        (returns buf second_request.1 10
          (returns buf first_request.1 (length Client.text) here (omega arith, omega arith) refl
            refl)
          (omega arith, omega arith) refl refl)
        (omega arith, omega arith) refl refl)
      (omega arith, omega arith) refl refl

decode-SentRequest_example :
    (d : Decode.Decoded Asks.Headers Bytes Bytes (Unit {0}) (Unit {0})) × (Decode.decode
        (Asks.http_with parse_request)
        lines_io
        (Client.text ++ hello)
      ≡ ok (some d))
    × BodyOwes ext bytes_io bytes_io bytes_stream bytes_stream d.body (codes "Hello")
unfolding Asks.lookup eq_ignore_ascii_case lookup
decode-SentRequest_example =
    decode-SentRequest (Client.http false) ceil_log16 exact body_stream
      (Asks.http_with parse_request) ext eol-IsTrailer lines_io bytes_io bytes_io lines bytes_stream
      bytes_stream (λ r. refl) (λ r n. refl) [] Client.final Client.text requests-Inserts
      (refl, refl) Client.head_example refl finished_request (Client.text ++ hello) request_run refl
      (Client.text ++ hello) refl request_text-IsFirst asked request (λ n e c. cc) (λ e. refl) refl
