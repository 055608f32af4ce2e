-- ===== src/Client/Decode/Samples.antt =====
-- Responses as headers, and a parser of heads that knows two samples, for the runs of src/client.
use async_h.Base.{
  ℕ, ◌≡◌, refl, Bool, true, false, List, [], ◌∷◌, ◌++◌, Option, none, some, Result, ok, arith,
  IsSafe, IsSafe-if, IsSafe-ok, take, if◌then◌else◌,
}
use async_h.Base.Int.{pos}
use async_h.Base.Bytes.{Bytes, codes, equal}
use async_h.Base.Bytes.Utf8.{from_utf8}
use async_h.Head.First.{IsFirst}
use async_h.Head.Samples.{none_before, shortest_of}
use async_h.Client.Decode.{HttparseResponse, Http, append_headers, with_date, response_of}
use async_h.Client.Decode.Frames.{closes_head, closes_head-line}
use async_h.Client.Decode.Safe.{CallsAreSafe}

abbrev pub Headers : Type 0
Headers = List (Bytes × Bytes)

unfoldable pub lookup : Bytes → Headers → Option Bytes
unfolding equal
lookup name [] = none
lookup name ((other, value) ∷ headers) =
    let later = lookup name headers in if equal name other then some value else later

abbrev pub found : Headers → HttparseResponse
found headers = record { code = some 200; version = some 1; headers = headers }

abbrev pub chunked_head : Bytes
chunked_head = codes "HTTP/1.1 200 OK\r\ndate: today\r\ntransfer-encoding: chunked\r\n\r\n"

abbrev pub chunked_headers : Headers
chunked_headers = (codes "date", codes "today") ∷ (codes "transfer-encoding", codes "chunked") ∷ []

abbrev pub double_head : Bytes
double_head = codes "HTTP/1.1 200 OK\ndate: today\ncontent-length: 4\ntransfer-encoding: gzip\n\n"

abbrev pub double_headers : Headers
double_headers =
    (codes "date", codes "today")
    ∷ (codes "content-length", codes "4")
    ∷ (codes "transfer-encoding", codes "gzip")
    ∷ []

unfoldable pub parse : ℕ → Bytes → Result (Bool × HttparseResponse)
unfolding equal
parse n buf =
    if equal buf chunked_head
    then ok (false, found chunked_headers)
    else if equal buf double_head
    then ok (false, found double_headers)
    else ok (true, found [])

abbrev pub http_with :
    (ℕ → Bytes → Result (Bool × HttparseResponse)) → Http Headers ℕ (Unit {0}) Bytes Bytes
http_with parser = record {
  parse = parser;
  status_try_from = λ code. ok code;
  new = λ status. [];
  append_header = λ res name value. res ++ (name, value) ∷ [];
  insert_header = λ res name value. res ++ (name, value) ∷ [];
  header = λ res name. lookup name res;
  send_trailers = λ res. (tt, res);
  take = λ r n. take n r;
}

abbrev pub http : Http Headers ℕ (Unit {0}) Bytes Bytes
http = http_with parse

pub chunked_response : response_of http (pos 0) chunked_head ≡ ok chunked_headers
unfolding response_of parse append_headers with_date from_utf8 lookup
chunked_response = refl

pub double_response : response_of http (pos 0) double_head ≡ ok double_headers
unfolding response_of parse append_headers with_date from_utf8 lookup
double_response = refl

pub chunked_head-IsFirst : IsFirst closes_head closes_head-line chunked_head
unfolding closes_head none_before
chunked_head-IsFirst = record {
  is_head = refl;
  shortest = shortest_of closes_head chunked_head refl;
  bounded = omega arith;
}

pub double_head-IsFirst : IsFirst closes_head closes_head-line double_head
unfolding closes_head none_before
double_head-IsFirst = record {
  is_head = refl;
  shortest = shortest_of closes_head double_head refl;
  bounded = omega arith;
}

parse-IsSafe : (n : ℕ) (buf : Bytes) → IsSafe (parse n buf)
unfolding parse
parse-IsSafe n buf =
    IsSafe-if (equal buf chunked_head) _ _ (IsSafe-ok _)
      (IsSafe-if (equal buf double_head) _ _ (IsSafe-ok _) (IsSafe-ok _))

pub calls : CallsAreSafe http
calls = record { parse = parse-IsSafe; status_try_from = λ code. IsSafe-ok code }
