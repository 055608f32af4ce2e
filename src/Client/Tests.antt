-- ===== src/Client/Tests.antt =====
-- Instances of the theorems on src/client: a request is its headers, in the order of their
-- insertion; its URL is http://example.com/.
use async_h.Base.{
  arith, replicate, ℕ, ◌≡◌, refl, Bool, true, false, [], ◌∷◌, ◌++◌, Option, none, some,
  if◌then◌else◌,
}
use async_h.Base.Bytes.{Bytes, codes}
use async_h.Io.{ready}
use async_h.Chunked.Encoder.{◌>>=◌}
use async_h.Server.Encode.{Headers}
use async_h.Server.Tests.{lookup}
use async_h.Io.Samples.{body_io, body_stream}
use async_h.Chunked.Wire.{cr, lf}
use async_h.Chunked.Encoder.Log.{ceil_log16, exact}
use async_h.Client.Encode.{Requests, new, compute_head, poll_read}
use async_h.Client.Encode.Sends.{SendsRequest, poll_read-SendsRequest}
use async_h.Client.Encode.Heads.{Outcome, HasTarget, HasHost, compute_head-Outcome}

abbrev pub http : Bool → Requests Headers (Option ℕ × Bytes)
http connect = record {
  method = λ request. if connect then codes "CONNECT" else codes "GET";
  is_connect = λ request. connect;
  host_str = λ request. some (codes "example.com");
  port = λ request. none;
  port_or_known_default = λ request. some 80;
  path = λ request. codes "/";
  query = λ request. none;
  len = λ request. none;
  header = λ request name. lookup name request;
  insert_header = λ request name value. request ++ (name, value ∷ []) ∷ [];
  iter = λ request. request;
  take_body = λ request. ((none, codes "Hello"), request);
  body_len = λ b. b.0;
  sort_unstable_by_key = λ key headers. headers;
  to_string = λ n. codes "80";
}

compute_head_example :
    (compute_head (http false) [] >>= λ r. ready r.1)
    ≡ ready (codes "GET / HTTP/1.1\r\nhost: example.com\r\ntransfer-encoding: chunked\r\n\r\n")
unfolding compute_head lookup
compute_head_example = refl

connect_example :
    (compute_head (http true) [] >>= λ r. ready r.1)
    ≡ ready (
        codes
          "CONNECT example.com:80 HTTP/1.1\r\nhost: example.com\r\nproxy-connection: keep-alive\r\ntransfer-encoding: chunked\r\n\r\n")
unfolding compute_head lookup
connect_example = refl

compute_head-Outcome_example :
    Outcome (HasTarget (http true) [] × HasHost (http true) []) (compute_head (http true) [])
compute_head-Outcome_example = compute_head-Outcome (http true) []

abbrev pub final : Headers
final =
    (codes "host", codes "example.com" ∷ [])
    ∷ (codes "transfer-encoding", codes "chunked" ∷ [])
    ∷ []

abbrev pub text : Bytes
text = codes "GET / HTTP/1.1\r\nhost: example.com\r\ntransfer-encoding: chunked\r\n\r\n"

pub head_example : compute_head (http false) [] ≡ ready (final, text)
unfolding compute_head lookup
head_example = refl

poll_read-SendsRequest_example :
    SendsRequest
      (http false)
      ceil_log16
      exact
      body_stream
      (λ wire. wire ≡ cr ∷ lf ∷ [])
      refl
      []
      final
      text
      []
      (poll_read (http false) ceil_log16 body_io (new []) (replicate 20 0))
unfolding new
poll_read-SendsRequest_example =
    poll_read-SendsRequest (http false) ceil_log16 exact body_stream (λ wire. wire ≡ cr ∷ lf ∷ [])
      refl [] final text refl [] (replicate 20 0) (new []) (omega arith, omega arith) head_example
      (refl, refl)
