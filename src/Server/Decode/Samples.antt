-- ===== src/Server/Decode/Samples.antt =====
-- Requests as headers, streams as the bytes that are still to come, and a parser of heads that
-- knows two samples, for the runs of src/server.
use async_h.Base.{
  IsSafe, IsSafe-ok, IsSafe-if, IsSafe-bind, ℕ, ◌≡◌, refl, Bool, true, false, List, [], ◌∷◌, ◌++◌,
  Option, none, some, Result, ok, ◌>>=◌, arith, take, if◌then◌else◌,
}
use async_h.Base.Bytes.{Bytes, codes, equal}
use async_h.Base.Bytes.Ints.{parse_unsigned, parse_unsigned-IsSafe}
use async_h.Base.Bytes.Utf8.{from_utf8}
use async_h.Chunked.Wire.{u64_max}
use async_h.Head.First.{IsFirst}
use async_h.Head.Samples.{none_before, shortest_of}
use async_h.Server.Decode.{
  HttparseRequest, Http, find_host, url_from_httparse_req, append_headers, request_of,
}
use async_h.Server.Decode.Safe.{CallsAreSafe}
use async_h.Server.Decode.Frames.{closes_head, closes_head-line}

abbrev pub Headers : Type 0
Headers = List (Bytes × Bytes)

unfoldable pub lookup : Bytes → Headers → Option Bytes
unfolding equal
lookup name [] = none
lookup name ((other, value) ∷ headers) =
    let later = lookup name headers in if equal name other then some value else later

abbrev pub length_of : Option Bytes → Result (Option ℕ)
length_of none = ok none
length_of (some text) = parse_unsigned u64_max text >>= λ n. ok (some n)

abbrev pub post : Headers → HttparseRequest
post headers = record {
  method = some (codes "POST");
  path = some (codes "/");
  version = some 1;
  headers = headers;
}

abbrev pub host : Bytes × Bytes
host = (codes "host", codes "a")

abbrev pub sized_head : Bytes
sized_head = codes "POST / HTTP/1.1\r\nhost: a\r\ncontent-length: 4\r\n\r\n"

abbrev pub sized_headers : Headers
sized_headers = host ∷ (codes "content-length", codes "4") ∷ []

abbrev pub double_head : Bytes
double_head =
    codes "POST / HTTP/1.1\r\nhost: a\r\ncontent-length: 4\r\ntransfer-encoding: chunked\r\n\r\n"

abbrev pub double_headers : Headers
double_headers =
    host ∷ (codes "content-length", codes "4") ∷ (codes "transfer-encoding", codes "chunked") ∷ []

unfoldable pub parse : ℕ → Bytes → Result (Bool × HttparseRequest)
unfolding equal
parse n buf =
    if equal buf sized_head
    then ok (false, post sized_headers)
    else if equal buf double_head
    then ok (false, post double_headers)
    else ok (true, post [])

abbrev pub http_with :
    (ℕ → Bytes → Result (Bool × HttparseRequest))
    → Http Headers Bytes Bytes (Unit {0}) (Unit {0}) (Unit {0}) Bytes Bytes
http_with parser = record {
  parse = parser;
  url_parse = λ s. ok s;
  method_from_str = λ s. ok s;
  new = λ method url. [];
  set_version = λ req. req;
  append_header = λ req name value. req ++ (name, value) ∷ [];
  content_length = λ req. length_of (lookup (codes "content-length") req);
  header = λ req name. lookup name req;
  send_trailers = λ req. (tt, req);
  set_body = λ req reader len. req;
  bounded = tt;
  cell = tt;
  take = λ r n. take n r;
}

abbrev pub http : Http Headers Bytes Bytes (Unit {0}) (Unit {0}) (Unit {0}) Bytes Bytes
http = http_with parse

pub sized_request : request_of http sized_head ≡ ok sized_headers
unfolding request_of parse url_from_httparse_req append_headers find_host from_utf8 lookup
sized_request = refl

pub double_request : request_of http double_head ≡ ok double_headers
unfolding request_of parse url_from_httparse_req append_headers find_host from_utf8 lookup
double_request = refl

pub sized_head-IsFirst : IsFirst closes_head closes_head-line sized_head
unfolding closes_head none_before
sized_head-IsFirst = record {
  is_head = refl;
  shortest = shortest_of closes_head sized_head refl;
  bounded = omega arith;
}

pub double_head-IsFirst : IsFirst closes_head closes_head-line double_head
unfolding closes_head none_before
double_head-IsFirst = record {
  is_head = refl;
  shortest = shortest_of closes_head double_head refl;
  bounded = omega arith;
}

parse-IsSafe : (n : ℕ) (buf : Bytes) → IsSafe (parse n buf)
unfolding parse
parse-IsSafe n buf =
    IsSafe-if (equal buf sized_head) _ _ (IsSafe-ok _)
      (IsSafe-if (equal buf double_head) _ _ (IsSafe-ok _) (IsSafe-ok _))

length_of-IsSafe : (text : Option Bytes) → IsSafe (length_of text)
length_of-IsSafe none = IsSafe-ok none
length_of-IsSafe (some text) =
    IsSafe-bind (parse_unsigned u64_max text) _ (parse_unsigned-IsSafe u64_max text)
      λ n _. IsSafe-ok _

pub calls : CallsAreSafe http
calls = record {
  parse = parse-IsSafe;
  url_parse = λ s. IsSafe-ok s;
  method_from_str = λ s. IsSafe-ok s;
  content_length = λ req. length_of-IsSafe (lookup (codes "content-length") req);
}
