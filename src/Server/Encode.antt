-- ===== src/Server/Encode.antt =====
-- src/server/encode.rs: `Encoder`, a reader of the bytes of a response. `http_types::Response` and
-- its body, the sort of the standard library, the printing of numbers and the clock are foreign.
pub mod Follows
pub mod Sends
pub mod Runs
use async_h.Base.{
  ℕ, zero, suc, ◌+◌, Bool, true, false, not, List, [], ◌∷◌, ◌++◌, Option, none, some, Result, ok,
  err, if◌then◌else◌, ◌==◌, length,
}
use async_h.Base.Int.{ℤ}
use async_h.Base.Bytes.{Bytes, codes}
use async_h.Io.{
  IoError, unexpected_end_of_body, Poll, ready, failed, pending, panic, out_of_fuel, Read,
}
use async_h.Chunked.Wire.{cr, lf}
use async_h.Date.Display.{fmt_http_date}
use async_h.Encode.{
  EncoderState, start, head, body, end, BodyEncoder, into, cursor_poll_read, Round, continue,
  return,
}
use async_h.Encode as Encode

abbrev pub Headers : Type 0
Headers = List (Bytes × List Bytes)

-- What the encoder uses of a response, and of the libraries.
pub record Responses (Response Body : Type 0) : Type 0 where
  pub status : Response → ℕ
  pub canonical_reason : ℕ → Bytes
  pub len : Response → Option ℕ
  pub header : Response → Bytes → Option Bytes
  pub insert_header : Response → Bytes → Bytes → Response
  pub iter : Response → Headers
  pub take_body : Response → Body × Response
  pub body_len : Body → Option ℕ
  pub sort_unstable_by_key : Headers → Headers
  pub to_string : ℕ → Bytes

pub record Encoder (Response Body : Type 0) : Type 0 where
  pub response : Response
  pub state : EncoderState Body
  -- `self.method == Method::Head`
  pub is_head : Bool

unfoldable pub new : {Response Body : Type 0} → Response → Bool → Encoder Response Body
new response is_head = record { response = response; state = start; is_head = is_head }

abbrev pub crlf : Bytes
crlf = cr ∷ lf ∷ []

-- `write!(head, "{}: {}\r\n", header, value)` for each value of each header
unfoldable pub header_lines : Bytes → List Bytes → Bytes
header_lines name [] = []
header_lines name (value ∷ values) = name ++ codes ": " ++ value ++ crlf ++ header_lines name values

unfoldable pub headers_lines : Headers → Bytes
unfolding header_lines
headers_lines [] = []
headers_lines ((name, values) ∷ headers) = header_lines name values ++ headers_lines headers

module _ {Response Body : Type 0} (http : Responses Response Body) (now : ℤ) where
  abbrev pub with_date : Response → Result Bytes → Result Response
  with_date response (ok date) = ok (http.insert_header response (codes "date") date)
  with_date response (err e) = err e
  with_date response Result.panic = Result.panic

  unfoldable pub with_length : Response → Response
  with_length response = elim (http.len response) [
    | some len ↦ http.insert_header response (codes "content-length") (http.to_string len)
    | none ↦ http.insert_header response (codes "transfer-encoding") (codes "chunked")
  ]

  unfoldable pub finalize_headers : Response → Result Response
  unfolding with_length
  finalize_headers response =
      let response' = with_length response in
      elim (http.header response' (codes "date")) [
        | none ↦ with_date response' (fmt_http_date now)
        | some value ↦ ok response'
      ]

  unfoldable pub head_text : ℕ → Response → Bytes
  unfolding headers_lines
  head_text status response =
      codes "HTTP/1.1 "
      ++ http.to_string status
      ++ codes " "
      ++ http.canonical_reason status
      ++ crlf
      ++ headers_lines (http.sort_unstable_by_key (http.iter response))
      ++ crlf

  unfoldable pub compute_head : Response → Result (Response × Bytes)
  unfolding finalize_headers head_text
  compute_head response = elim (finalize_headers response) [
    | ok response' ↦ ok (response', head_text (http.status response) response')
    | err e ↦ err e
    | Result.panic ↦ Result.panic
  ]

  module _ (ceil_log16 : ℕ → ℕ) (io : Read Body) where
    abbrev pub start_round :
        Encoder Response Body → Bytes → Result (Response × Bytes) → Round (Encoder Response Body)
    start_round e buf (ok (response, text)) =
        continue (record e { response = response; state = head text })
    start_round e buf (err x) = return e buf (failed (IoError.foreign_io 0))
    start_round e buf Result.panic = return e buf panic

    -- What follows the head.
    unfoldable pub after_head : Encoder Response Body → Encoder Response Body
    after_head e =
        let res_len = http.len e.response in
        let (b, response) = http.take_body e.response in
        if e.is_head then record e { state = end } else record {
          response = response;
          state = body (Encode.new http.body_len b) 0 res_len;
          is_head = e.is_head;
        }

    -- From the outcome of a read of the head.
    abbrev pub head_round :
        Encoder Response Body → Bytes × Bytes × Poll ℕ → Round (Encoder Response Body)
    head_round e (rest, buf, ready zero) = continue (after_head (record e { state = head rest }))
    head_round e (rest, buf, o) = return (record e { state = head rest }) buf o

    abbrev pub at_end : Encoder Response Body → Bytes → ℕ → Option ℕ → Round (Encoder Response Body)
    at_end e buf n_written none = continue (record e { state = end })
    at_end e buf n_written (some request_len) =
        if not (n_written == request_len)
        then return e buf (failed unexpected_end_of_body)
        else continue (record e { state = end })

    abbrev pub body_round :
        Encoder Response Body
        → ℕ
        → Option ℕ
        → BodyEncoder Body × Bytes × Poll ℕ
        → Round (Encoder Response Body)
    body_round e n_written res_len (b, buf, ready zero) =
        at_end (record e { state = body b n_written res_len }) buf n_written res_len
    body_round e n_written res_len (b, buf, ready (suc n)) =
        return (record e { state = body b (n_written + suc n) res_len }) buf (ready (suc n))
    body_round e n_written res_len (b, buf, o) =
        return (record e { state = body b n_written res_len }) buf o

    unfoldable pub step_in :
        EncoderState Body → Encoder Response Body → Bytes → Round (Encoder Response Body)
    step_in start e buf = start_round e buf (compute_head e.response)
    step_in (head text) e buf = head_round e (into buf (cursor_poll_read text (length buf)))
    step_in (body b n_written res_len) e buf =
        body_round e n_written res_len (Encode.poll_read ceil_log16 io b buf)
    step_in end e buf = return e buf (ready 0)

    -- The loop; the rounds go from one state to a later one, so four are enough.
    unfoldable pub poll_rounds :
        ℕ → Encoder Response Body → Bytes → Encoder Response Body × Bytes × Poll ℕ
    poll_rounds zero e buf = (e, buf, out_of_fuel)
    poll_rounds (suc fuel) e buf = elim (step_in e.state e buf) [
      | continue e' ↦ poll_rounds fuel e' buf
      | return e' buf' o ↦ (e', buf', o)
    ]

    unfoldable pub poll_read :
        Encoder Response Body → Bytes → Encoder Response Body × Bytes × Poll ℕ
    poll_read e buf = poll_rounds 4 e buf
