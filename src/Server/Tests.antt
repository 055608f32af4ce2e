-- ===== src/Server/Tests.antt =====
-- Runs of src/server, and instances of its theorems: a response is a body, its headers in the order
-- of their insertion; a body is the length that it declares and its bytes.
use async_h.Base.{
  ℕ, zero, suc, ◌+◌, ◌/◌, ◌%◌, ◌≡◌, refl, false, [], ◌∷◌, ◌++◌, Option, none, some, ok, arith, ltb,
  if◌then◌else◌, replicate,
}
use async_h.Base.Int.{pos}
use async_h.Base.Bytes.{Bytes, codes, equal}
use async_h.Base.Bytes.Utf8.{from_utf8}
use async_h.Io.Samples.{Body, body_io, body_stream}
use async_h.Chunked.Wire.{cr, lf}
use async_h.Chunked.Encoder.Log.{ceil_log16, exact}
use async_h.Date.Display.{fmt_http_date, fmt, week_day_name, month_name}
use async_h.Date.FromTime.{from_system_time}
use async_h.Server.Encode.{Responses, Headers, new, compute_head, poll_read}
use async_h.Server.Encode.Sends.{Sends, poll_read-Sends}

abbrev pub Response : Type 0
Response = Body × Headers

unfoldable pub lookup : Bytes → Headers → Option Bytes
unfolding equal
lookup name [] = none
lookup name ((other, []) ∷ headers) = lookup name headers
lookup name ((other, value ∷ values) ∷ headers) =
    let later = lookup name headers in if equal name other then some value else later

unfoldable pub decimal : ℕ → ℕ → Bytes
decimal zero n = []
decimal (suc fuel) n =
    let more = decimal fuel (n / 10) ++ (b'0' + n % 10) ∷ [] in
    if ltb n 10 then (b'0' + n) ∷ [] else more

abbrev pub http : Responses Response Body
http = record {
  status = λ response. 200;
  canonical_reason = λ status. codes "OK";
  len = λ response. response.0.0;
  header = λ response name. lookup name response.1;
  insert_header = λ response name value. (response.0, response.1 ++ (name, value ∷ []) ∷ []);
  iter = λ response. response.1;
  take_body = λ response. (response.0, ((some 0, []), response.1));
  body_len = λ b. b.0;
  sort_unstable_by_key = λ headers. headers;
  to_string = λ n. decimal 20 n;
}

abbrev pub given : Response
given = ((some 5, codes "Hello"), [])

abbrev pub final : Response
final = (
  (some 5, codes "Hello"),
  (codes "content-length", codes "5" ∷ [])
      ∷ (codes "date", codes "Thu, 01 Jan 1970 00:00:00 GMT" ∷ [])
      ∷ [],
)

abbrev pub text : Bytes
text = codes "HTTP/1.1 200 OK\r\ncontent-length: 5\r\ndate: Thu, 01 Jan 1970 00:00:00 GMT\r\n\r\n"

pub head_example : compute_head http (pos 0) given ≡ ok (final, text)
unfolding compute_head lookup decimal fmt_http_date fmt week_day_name month_name from_utf8
    from_system_time
head_example = refl

poll_read-Sends_example :
    Sends http
      (pos 0)
      ceil_log16
      exact
      body_stream
      (λ wire. wire ≡ cr ∷ lf ∷ [])
      refl
      given
      final
      text
      false
      []
      (poll_read http (pos 0) ceil_log16 body_io (new given false) (replicate 20 0))
unfolding new
poll_read-Sends_example =
    poll_read-Sends http (pos 0) ceil_log16 exact body_stream (λ wire. wire ≡ cr ∷ lf ∷ []) refl
      given final text refl false [] (replicate 20 0) (new given false) (omega arith, omega arith)
      head_example ((refl, refl), refl)
