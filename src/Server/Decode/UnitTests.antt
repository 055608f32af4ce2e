-- ===== src/Server/Decode/UnitTests.antt =====
-- The unit tests of src/server/decode.rs, on the URL of a request. The head is parsed by `httparse`
-- and the URL by `http_types`, in the record `Http`; `as_str` gives the text of a URL.
use Prim.Native.String.{String}
use async_h.Base.{
  ◌≡◌, refl, Bool, true, false, List, [], ◌∷◌, ◌++◌, some, Result, ok, err, if◌then◌else◌,
}
use async_h.Base.Bytes.{Bytes, codes, equal}
use async_h.Head.{max_headers}
use async_h.Server.Decode.{HttparseRequest, Http, url_from_httparse_req}
use async_h.Server.Decode.Samples.{Headers, http_with}

-- The requests of the tests have no line after the headers.
abbrev request_text : String → String → String → Bytes
request_text method path host =
    codes method
    ++ (b' ' ∷ codes path ++ (codes " HTTP/1.1\r\nHost: " ++ (codes host ++ codes "\r\n")))

module _ {Request Url Method Sender Channel Cell R T : Type 0}
    (http : Http Request Url Method Sender Channel Cell R T) (as_str : Url → Bytes) where
  -- `res.parse(buf.as_bytes()).unwrap(); f(res)`, where a panic fails the test
  abbrev run_with : (HttparseRequest → Bool) → Result (Bool × HttparseRequest) → Bool
  run_with f (ok (is_partial, req)) = f req
  run_with f _ = false

  httparse_req : Bytes → (HttparseRequest → Bool) → Bool
  httparse_req buf f = run_with f (http.parse max_headers buf)

  abbrev is_url : String → Result Url → Bool
  is_url text (ok url) = equal (as_str url) (codes text)
  is_url text _ = false

  abbrev has_url : String → HttparseRequest → Bool
  has_url text req = is_url text (url_from_httparse_req http req)

  abbrev refused : Result Url → Bool
  refused (err e) = true
  refused _ = false

  url_for_connect : Bool
  unfolding httparse_req
  url_for_connect =
      httparse_req (request_text "CONNECT" "server.example.com:443" "server.example.com:443")
        (has_url "http://server.example.com:443/")

  url_for_host_plus_path : Bool
  unfolding httparse_req
  url_for_host_plus_path =
      httparse_req (request_text "GET" "/some/resource" "server.example.com:443")
        (has_url "http://server.example.com:443/some/resource")

  -- The Host header must be ignored.
  url_for_host_plus_absolute_url : Bool
  unfolding httparse_req
  url_for_host_plus_absolute_url =
      httparse_req (request_text "GET" "http://domain.com/some/resource" "server.example.com")
        (has_url "http://domain.com/some/resource")

  url_for_conflicting_connect : Bool
  unfolding httparse_req
  url_for_conflicting_connect =
      httparse_req (request_text "CONNECT" "server.example.com:443" "conflicting.host")
        (has_url "http://server.example.com:443/")

  url_for_malformed_resource_path : Bool
  unfolding httparse_req
  url_for_malformed_resource_path =
      httparse_req (request_text "GET" "not-a-url" "server.example.com")
        (λ req. refused (url_from_httparse_req http req))

  url_for_double_slash_path : Bool
  unfolding httparse_req
  url_for_double_slash_path =
      httparse_req (request_text "GET" "//double/slashes" "server.example.com:443")
        (has_url "http://server.example.com:443//double/slashes")

  url_for_triple_slash_path : Bool
  unfolding httparse_req
  url_for_triple_slash_path =
      httparse_req (request_text "GET" "///triple/slashes" "server.example.com:443")
        (has_url "http://server.example.com:443///triple/slashes")

  url_for_query : Bool
  unfolding httparse_req
  url_for_query =
      httparse_req (request_text "GET" "/foo?bar=1" "server.example.com:443")
        (has_url "http://server.example.com:443/foo?bar=1")

  url_for_anchor : Bool
  unfolding httparse_req
  url_for_anchor =
      httparse_req (request_text "GET" "/foo?bar=1#anchor" "server.example.com:443")
        (has_url "http://server.example.com:443/foo?bar=1#anchor")

-- A parser that knows these requests: for a text, the parsed head that it stands for.
abbrev parsed : String → String → String → HttparseRequest
parsed method path host = record {
  method = some (codes method);
  path = some (codes path);
  version = some 1;
  headers = (codes "Host", codes host) ∷ [];
}

abbrev requests : List (String × String × String)
requests =
    ("CONNECT", "server.example.com:443", "server.example.com:443")
    ∷ ("GET", "/some/resource", "server.example.com:443")
    ∷ ("GET", "http://domain.com/some/resource", "server.example.com")
    ∷ ("CONNECT", "server.example.com:443", "conflicting.host")
    ∷ ("GET", "not-a-url", "server.example.com")
    ∷ ("GET", "//double/slashes", "server.example.com:443")
    ∷ ("GET", "///triple/slashes", "server.example.com:443")
    ∷ ("GET", "/foo?bar=1", "server.example.com:443")
    ∷ ("GET", "/foo?bar=1#anchor", "server.example.com:443")
    ∷ []

known : List (String × String × String) → Bytes → HttparseRequest
unfolding equal
known [] buf = parsed "" "" ""
known ((method, path, host) ∷ rest) buf =
    let later = known rest buf in
    if equal buf (request_text method path host) then parsed method path host else later

abbrev test_http : Http Headers Bytes Bytes (Unit {0}) (Unit {0}) (Unit {0}) Bytes Bytes
test_http = http_with (λ n buf. ok (false, known requests buf))

-- A URL is its text.
abbrev text_of : Bytes → Bytes
text_of url = url

tests_pass :
    (url_for_connect test_http text_of ≡ true)
    × (url_for_host_plus_path test_http text_of ≡ true)
    × (url_for_host_plus_absolute_url test_http text_of ≡ true)
    × (url_for_conflicting_connect test_http text_of ≡ true)
    × (url_for_malformed_resource_path test_http text_of ≡ true)
    × (url_for_double_slash_path test_http text_of ≡ true)
    × (url_for_triple_slash_path test_http text_of ≡ true)
    × (url_for_query test_http text_of ≡ true)
    × (url_for_anchor test_http text_of ≡ true)
unfolding url_for_connect url_for_host_plus_path url_for_host_plus_absolute_url
    url_for_conflicting_connect url_for_malformed_resource_path url_for_double_slash_path
    url_for_triple_slash_path url_for_query url_for_anchor known url_from_httparse_req
tests_pass = (refl, refl, refl, refl, refl, refl, refl, refl, refl)
