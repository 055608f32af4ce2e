-- ===== src/Server/Decode/Safe.antt =====
-- `decode` of src/server/decode.rs never panics: also `unwrap` on the method, in
-- `url_from_httparse_req`, is reached only where there is a method.
use async_h.Base.{
  ℕ, ◌≡◌, refl, not, ◌||◌, List, [], ◌∷◌, Option, none, some, Result, ok, err, panic, ok_or, IsSafe,
  IsSafe-ok, IsSafe-err, IsSafe-ok_or, IsSafe-bind, IsSafe-ensure, IsSafe-if, ◌==◌, no_uri,
  host_missing, unexpected_uri, malformed_head, no_method, no_version, unsupported_version,
  content_length_conflict,
}
use async_h.Base.Bytes.{Bytes, codes, eq_ignore_ascii_case, starts_with}
use async_h.Base.Bytes.Slices.{or_panic}
use async_h.Base.Bytes.Utf8.{from_utf8, from_utf8-IsSafe}
use async_h.Head.{BufRead, Ending, complete, eof, max_headers, read_head}
use async_h.Server.Decode.Frames.{ends_head-IsSafe}
use async_h.Head.Safe.{read_head-IsSafe}
use async_h.Server.Decode.{
  HttparseRequest, Http, ends_head, find_host, url_from_httparse_req, append_headers, request_of,
  with_body, is_some, after_head, decode, http_1_1_version,
}

-- The foreign calls return a value or an error.
pub record CallsAreSafe {Request Url Method Sender Channel Cell R T : Type 0}
    (http : Http Request Url Method Sender Channel Cell R T) : Type 0 where
  pub parse : (n : ℕ) (buf : Bytes) → IsSafe (http.parse n buf)
  pub url_parse : (s : Bytes) → IsSafe (http.url_parse s)
  pub method_from_str : (s : Bytes) → IsSafe (http.method_from_str s)
  pub content_length : (req : Request) → IsSafe (http.content_length req)

module _ {Request Url Method Sender Channel Cell R T : Type 0}
    (http : Http Request Url Method Sender Channel Cell R T) (calls : CallsAreSafe http) where
  url-IsSafe :
      (req : HttparseRequest) (method : Bytes)
      → req.method ≡ some method
      → IsSafe (url_from_httparse_req http req)
  unfolding url_from_httparse_req
  url-IsSafe req method h = IsSafe-bind (ok_or req.path no_uri) _ (IsSafe-ok_or _ _) λ path _.
      IsSafe-bind (ok_or (find_host req.headers) host_missing) _ (IsSafe-ok_or _ _) λ value _.
        IsSafe-bind (from_utf8 value) _ (from_utf8-IsSafe value) λ host _.
          IsSafe-if (starts_with path (codes "http://") || starts_with path (codes "https://")) _ _
            (calls.url_parse path)
            (IsSafe-if (starts_with path (codes "/")) _ _ (calls.url_parse _) (
              IsSafe-bind (or_panic req.method) _ (rw h (IsSafe-ok method)) λ m _.
                IsSafe-if (eq_ignore_ascii_case m (codes "connect")) _ _ (calls.url_parse _)
                  (IsSafe-err unexpected_uri)))

  append_headers-IsSafe :
      (req : Request) (headers : List (Bytes × Bytes)) → IsSafe (append_headers http req headers)
  unfolding append_headers
  append_headers-IsSafe req [] = IsSafe-ok req
  append_headers-IsSafe req ((name, value) ∷ headers) =
      IsSafe-bind (from_utf8 value) _ (from_utf8-IsSafe value)
        λ text _. append_headers-IsSafe (http.append_header req name text) headers

  request_of-IsSafe : (buf : Bytes) → IsSafe (request_of http buf)
  unfolding request_of
  request_of-IsSafe buf =
      IsSafe-bind (http.parse max_headers buf) _ (calls.parse max_headers buf)
        λ (partial, parsed) _. IsSafe-ensure (not partial) malformed_head _ λ _.
          IsSafe-bind (ok_or parsed.method no_method) _ (IsSafe-ok_or _ _) λ method m.
            IsSafe-bind (ok_or parsed.version no_version) _ (IsSafe-ok_or _ _) λ version _.
              IsSafe-ensure (version == http_1_1_version) unsupported_version _ λ _.
                IsSafe-bind (url_from_httparse_req http parsed) _
                  (url-IsSafe parsed method (there parsed.method m))
                  λ url _.
                    IsSafe-bind (http.method_from_str method) _ (calls.method_from_str method)
                      λ method' _. append_headers-IsSafe _ parsed.headers
    where
      there : {m : Bytes} (o : Option Bytes) → ok_or o no_method ≡ ok m → o ≡ some m
      there none h = cc
      there (some a) h = cc

  module _ {Sending : Type 0} where
    with_body-IsSafe :
        (reader : R) (req : Request) → IsSafe (with_body http {Sending = Sending} reader req)
    unfolding with_body
    with_body-IsSafe reader req =
        IsSafe-bind (http.content_length req) _ (calls.content_length req) λ cl _.
          IsSafe-ensure
            (not (is_some cl) || not (is_some (http.header req (codes "transfer-encoding"))))
            content_length_conflict _ λ _. IsSafe-ok _

    after_head-IsSafe :
        (o : R × Result Ending) → IsSafe o.1 → IsSafe (after_head http {Sending = Sending} o)
    after_head-IsSafe (r, ok (eof buf)) h = IsSafe-ok _
    after_head-IsSafe (r, ok (complete buf)) h =
        IsSafe-bind (request_of http buf) _ (request_of-IsSafe buf)
          λ req _. IsSafe-bind (with_body http r req) _ (with_body-IsSafe r req) λ d _. IsSafe-ok _
    after_head-IsSafe (r, err e) h = IsSafe-err e
    after_head-IsSafe (r, panic) h = absurd (h.no_panic refl)

    -- Whatever the bytes of the connection and wherever it fails, `decode` ends and returns a
    -- request, the end of the stream or an error: if no foreign call panics, it does not.
    pub decode-IsSafe :
        (io : BufRead R)
        → ((r : R) → IsSafe (io.read_until 10 r).1)
        → (reader : R) → IsSafe (decode http {Sending = Sending} io reader)
    unfolding decode
    decode-IsSafe io reads reader =
        after_head-IsSafe (read_head io ends_head reader)
          (read_head-IsSafe io ends_head ends_head-IsSafe reads reader)
