-- ===== src/Client/Decode/Safe.antt =====
-- `decode` of src/client/decode.rs never panics while the clock is before the year 10000.
use async_h.Base.{
  ℕ, ◌/◌, ◌<◌, refl, ap, not, ◌||◌, List, [], ◌∷◌, Option, none, some, Option-cases, inl, inr,
  Result, ok, err, panic, ◌>>=◌, ok_or, IsSafe, IsSafe-ok, IsSafe-err, IsSafe-ok_or, IsSafe-bind,
  IsSafe-ensure, IsSafe-if, ◌==◌, malformed_head, no_status_code, no_version, unsupported_version,
  content_length_conflict, connection_closed, empty_response,
}
use async_h.Base.Int.{pos}
use async_h.Base.Bytes.{Bytes, codes}
use async_h.Base.Bytes.Ints.{parse_unsigned, parse_unsigned-IsSafe}
use async_h.Base.Bytes.Utf8.{from_utf8, from_utf8-IsSafe}
use async_h.Chunked.Wire.{u64_max}
use async_h.Date.{nanos_in_second, year_9999_seconds}
use async_h.Date.Display.{fmt_http_date}
use async_h.Date.Parse.{parse_http_date}
use async_h.Date.RoundTrip.{parse_http_date-fmt_http_date}
use async_h.Head.{BufRead, Ending, complete, eof, max_headers, read_head}
use async_h.Client.Decode.Frames.{ends_head-IsSafe}
use async_h.Head.Safe.{read_head-IsSafe}
use async_h.Server.Decode.{is_some}
use async_h.Client.Decode.{
  Http, ends_head, is_chunked, append_headers, with_date, response_of, sized_body, with_body,
  after_head, decode,
}

-- The foreign calls return a value or an error.
pub record CallsAreSafe {Response StatusCode Sender R T : Type 0}
    (http : Http Response StatusCode Sender R T) : Type 0 where
  pub parse : (n : ℕ) (buf : Bytes) → IsSafe (http.parse n buf)
  pub status_try_from : (code : ℕ) → IsSafe (http.status_try_from code)

fmt_http_date-IsSafe :
    (nanos : ℕ) → nanos / nanos_in_second < year_9999_seconds → IsSafe (fmt_http_date (pos nanos))
fmt_http_date-IsSafe nanos h = record {
  no_panic = λ e. cc (parse_http_date-fmt_http_date nanos h, ap (λ r. r >>= parse_http_date) e);
}

module _ {Response StatusCode Sender R T : Type 0} (http : Http Response StatusCode Sender R T)
    (calls : CallsAreSafe http) (nanos : ℕ)
    (before : nanos / nanos_in_second < year_9999_seconds) where
  append_headers-IsSafe :
      (res : Response) (headers : List (Bytes × Bytes)) → IsSafe (append_headers http res headers)
  unfolding append_headers
  append_headers-IsSafe res [] = IsSafe-ok res
  append_headers-IsSafe res ((name, value) ∷ headers) =
      IsSafe-bind (from_utf8 value) _ (from_utf8-IsSafe value)
        λ text _. append_headers-IsSafe (http.append_header res name text) headers

  with_date-IsSafe : (res : Response) → IsSafe (with_date http (pos nanos) res)
  unfolding with_date fmt_http_date
  with_date-IsSafe res = elim (Option-cases (http.header res (codes "date"))) [
    | inl undated ↦
        rw (undated, with_date)
          (IsSafe-bind (fmt_http_date (pos nanos)) _ (fmt_http_date-IsSafe nanos before)
            λ _ _. IsSafe-ok _)
    | inr (value, dated) ↦ rw (dated, with_date) (IsSafe-ok res)
  ]

  response_of-IsSafe : (buf : Bytes) → IsSafe (response_of http (pos nanos) buf)
  unfolding response_of
  response_of-IsSafe buf =
      IsSafe-bind (http.parse max_headers buf) _ (calls.parse max_headers buf)
        λ (partial, parsed) _. IsSafe-ensure (not partial) malformed_head _ λ _.
          IsSafe-bind (ok_or parsed.code no_status_code) _ (IsSafe-ok_or _ _) λ code _.
            IsSafe-bind (ok_or parsed.version no_version) _ (IsSafe-ok_or _ _) λ version _.
              IsSafe-ensure (version == 1) unsupported_version _ λ _.
                IsSafe-bind (http.status_try_from code) _ (calls.status_try_from code) λ status _.
                  IsSafe-bind (append_headers http (http.new status) parsed.headers) _
                    (append_headers-IsSafe _ parsed.headers) λ res _. with_date-IsSafe res

  module _ {Sending : Type 0} where
    sized_body-IsSafe :
        (reader : R) (res : Response) (text : Option Bytes)
        → IsSafe (sized_body http {Sending = Sending} reader res text)
    unfolding sized_body
    sized_body-IsSafe reader res none = IsSafe-ok _
    sized_body-IsSafe reader res (some text) =
        IsSafe-bind (parse_unsigned u64_max text) _ (parse_unsigned-IsSafe u64_max text)
          λ _ _. IsSafe-ok _

    with_body-IsSafe :
        (reader : R) (res : Response) → IsSafe (with_body http {Sending = Sending} reader res)
    unfolding with_body
    with_body-IsSafe reader res =
        IsSafe-ensure
          (not (is_some (http.header res (codes "content-length")))
            || not (is_some (http.header res (codes "transfer-encoding"))))
          content_length_conflict _
          λ _.
            IsSafe-if (is_chunked (http.header res (codes "transfer-encoding"))) _ _ (IsSafe-ok _)
              (sized_body-IsSafe reader res (http.header res (codes "content-length")))

    after_head-IsSafe :
        (o : R × Result Ending)
        → IsSafe o.1
        → IsSafe (after_head http {Sending = Sending} (pos nanos) o)
    after_head-IsSafe (r, ok (eof [])) h = IsSafe-err connection_closed
    after_head-IsSafe (r, ok (eof (c ∷ buf))) h = IsSafe-err empty_response
    after_head-IsSafe (r, ok (complete buf)) h =
        IsSafe-bind (response_of http (pos nanos) buf) _ (response_of-IsSafe buf)
          λ res _. with_body-IsSafe r res
    after_head-IsSafe (r, err e) h = IsSafe-err e
    after_head-IsSafe (r, panic) h = absurd (h.no_panic refl)

    -- Whatever the bytes of the connection and wherever it fails, `decode` ends and returns a
    -- response or an error, at any time from the epoch to the end of the year 9999: if no foreign
    -- call panics, it does not.
    pub decode_response-IsSafe :
        (io : BufRead R)
        → ((r : R) → IsSafe (io.read_until 10 r).1)
        → (reader : R) → IsSafe (decode http {Sending = Sending} io (pos nanos) reader)
    unfolding decode
    decode_response-IsSafe io reads reader =
        after_head-IsSafe (read_head io ends_head reader)
          (read_head-IsSafe io ends_head ends_head-IsSafe reads reader)
