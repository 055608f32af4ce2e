-- ===== src/Client/Encode.antt =====
-- src/client/encode.rs: `Encoder`, a reader of the bytes of a request. `http_types::Request` with
-- its URL and its body, the sort of the standard library and the printing of numbers are foreign.
pub mod Heads
pub mod Follows
pub mod Sends
pub mod Runs
use async_h.Base.{
  ℕ, zero, suc, ◌+◌, ◌≡◌, ◌↔◌, ◌⊎◌, inl, inr, refl, Bool, true, false, not, List, [], ◌∷◌, ◌++◌,
  Option, none, some, if◌then◌else◌, ◌==◌, length,
}
use async_h.Base.Bytes.{Bytes, codes, equal}
use async_h.Io.{
  IoError, missing_hostname, no_default_port, unexpected_end_of_body, Poll, ready, failed, pending,
  panic, out_of_fuel, Read,
}
use async_h.Chunked.Encoder.{◌>>=◌}
use async_h.Encode.{
  EncoderState, start, head, body, end, BodyEncoder, into, cursor_poll_read, Round, continue,
  return,
}
use async_h.Encode as Encode
use async_h.Server.Encode.{Headers, headers_lines, crlf}

-- What the encoder uses of a request and its URL, and of the libraries.
pub record Requests (Request Body : Type 0) : Type 0 where
  pub method : Request → Bytes
  -- `method == Method::Connect`
  pub is_connect : Request → Bool
  pub host_str : Request → Option Bytes
  pub port : Request → Option ℕ
  pub port_or_known_default : Request → Option ℕ
  pub path : Request → Bytes
  pub query : Request → Option Bytes
  pub len : Request → Option ℕ
  pub header : Request → Bytes → Option Bytes
  pub insert_header : Request → Bytes → Bytes → Request
  pub iter : Request → Headers
  pub take_body : Request → Body × Request
  pub body_len : Body → Option ℕ
  pub sort_unstable_by_key : (Bytes → Bytes) → Headers → Headers
  pub to_string : ℕ → Bytes

pub record Encoder (Request Body : Type 0) : Type 0 where
  pub request : Request
  pub state : EncoderState Body

unfoldable pub new : {Request Body : Type 0} → Request → Encoder Request Body
new request = record { request = request; state = start }

-- `o.ok_or_else(|| e)?`
abbrev pub ok_or : {A : Type 0} → Option A → IoError → Poll A
ok_or none e = failed e
ok_or (some a) e = ready a

-- `**h == HOST` sorts first.
unfoldable pub header_key : Bytes → Bytes
unfolding equal
header_key name = if equal name (codes "host") then codes "0" else name

module _ {Request Body : Type 0} (http : Requests Request Body) where
  abbrev pub host_value : Bytes → Option ℕ → Bytes
  host_value host none = host
  host_value host (some port) = host ++ codes ":" ++ http.to_string port

  unfoldable pub with_host : Request → Poll Request
  with_host request = elim (http.header request (codes "host")) [
    | some value ↦ ready request
    | none ↦ ok_or (http.host_str request) missing_hostname >>= λ host.
        ready (http.insert_header request (codes "host") (host_value host (http.port request)))
  ]

  unfoldable pub with_proxy : Request → Request
  with_proxy request =
      if http.is_connect request
      then http.insert_header request (codes "proxy-connection") (codes "keep-alive")
      else request

  unfoldable pub with_length : Request → Request
  with_length request = elim (http.len request) [
    | some len ↦ http.insert_header request (codes "content-length") (http.to_string len)
    | none ↦ http.insert_header request (codes "transfer-encoding") (codes "chunked")
  ]

  unfoldable pub finalize_headers : Request → Poll Request
  unfolding with_host with_proxy with_length
  finalize_headers request =
      with_host request >>= λ request'. ready (with_length (with_proxy request'))

  abbrev query_text : Option Bytes → Bytes
  query_text none = []
  query_text (some query) = codes "?" ++ query

  -- What stands between the method and the version.
  unfoldable pub target : Request → Poll Bytes
  target request =
      if http.is_connect request
      then (ok_or (http.host_str request) missing_hostname >>= λ host.
          ok_or (http.port_or_known_default request) no_default_port >>= λ port.
          ready (host ++ codes ":" ++ http.to_string port))
      else ready (http.path request ++ query_text (http.query request))

  unfoldable pub compute_head : Request → Poll (Request × Bytes)
  unfolding target finalize_headers headers_lines header_key
  compute_head request = do
    line ← target request
    request' ← finalize_headers request
    ready (
      request',
      http.method request
          ++ codes " "
          ++ line
          ++ codes " HTTP/1.1"
          ++ crlf
          ++ headers_lines (http.sort_unstable_by_key header_key (http.iter request'))
          ++ crlf,
    )

  module _ (ceil_log16 : ℕ → ℕ) (io : Read Body) where
    abbrev pub start_round :
        Encoder Request Body → Bytes → Poll (Request × Bytes) → Round (Encoder Request Body)
    start_round e buf (ready (request, text)) =
        continue (record { request = request; state = head text })
    start_round e buf (failed x) = return e buf (failed x)
    start_round e buf pending = return e buf pending
    start_round e buf panic = return e buf panic
    start_round e buf out_of_fuel = return e buf out_of_fuel

    unfoldable pub after_head : Encoder Request Body → Encoder Request Body
    after_head e =
        let req_len = http.len e.request in
        let (b, request) = http.take_body e.request in
        record { request = request; state = body (Encode.new http.body_len b) 0 req_len }

    abbrev pub head_round :
        Encoder Request Body → Bytes × Bytes × Poll ℕ → Round (Encoder Request Body)
    head_round e (rest, buf, ready zero) = continue (after_head (record e { state = head rest }))
    head_round e (rest, buf, o) = return (record e { state = head rest }) buf o

    abbrev pub at_end : Encoder Request Body → Bytes → ℕ → Option ℕ → Round (Encoder Request Body)
    at_end e buf n_written none = continue (record e { state = end })
    at_end e buf n_written (some request_len) =
        if not (n_written == request_len)
        then return e buf (failed unexpected_end_of_body)
        else continue (record e { state = end })

    abbrev pub body_round :
        Encoder Request Body
        → ℕ
        → Option ℕ
        → BodyEncoder Body × Bytes × Poll ℕ
        → Round (Encoder Request Body)
    body_round e n_written req_len (b, buf, ready zero) =
        at_end (record e { state = body b n_written req_len }) buf n_written req_len
    body_round e n_written req_len (b, buf, ready (suc n)) =
        return (record e { state = body b (n_written + suc n) req_len }) buf (ready (suc n))
    body_round e n_written req_len (b, buf, o) =
        return (record e { state = body b n_written req_len }) buf o

    unfoldable pub step_in :
        EncoderState Body → Encoder Request Body → Bytes → Round (Encoder Request Body)
    step_in start e buf = start_round e buf (compute_head e.request)
    step_in (head text) e buf = head_round e (into buf (cursor_poll_read text (length buf)))
    step_in (body b n_written req_len) e buf =
        body_round e n_written req_len (Encode.poll_read ceil_log16 io b buf)
    step_in end e buf = return e buf (ready 0)

    unfoldable pub poll_rounds :
        ℕ → Encoder Request Body → Bytes → Encoder Request Body × Bytes × Poll ℕ
    poll_rounds zero e buf = (e, buf, out_of_fuel)
    poll_rounds (suc fuel) e buf = elim (step_in e.state e buf) [
      | continue e' ↦ poll_rounds fuel e' buf
      | return e' buf' o ↦ (e', buf', o)
    ]

    -- The loop; four rounds, as for a response.
    unfoldable pub poll_read : Encoder Request Body → Bytes → Encoder Request Body × Bytes × Poll ℕ
    poll_read e buf = poll_rounds 4 e buf
