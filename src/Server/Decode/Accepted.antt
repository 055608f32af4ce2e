-- ===== src/Server/Decode/Accepted.antt =====
-- What every request has that `decode` of src/server/decode.rs accepts.
use async_h.Base.{
  ℕ, ◌≡◌, ◌⊎◌, inl, inr, refl, ap, ◌∙◌, Bool, true, false, not, ◌||◌, ◌==◌, ◌++◌, Option, none,
  some, Result, ok, err, panic, ensure, ok_or, ensure-eq-ok, ok_or-eq-ok, not-eq-true, ==_iff,
  >>=-eq-ok, >>-eq-ok, no_uri, host_missing, malformed_head, no_method, no_version,
  unsupported_version, content_length_conflict,
}
use async_h.Base.Bytes.{Bytes, codes}
use async_h.Base.Bytes.Utf8.{from_utf8}
use async_h.Head.{BufRead, Ending, complete, eof, max_headers, read_head}
use async_h.Head.First.{Lines, IsFirst, Reads, read_head-Reads}
use async_h.Server.Decode.{
  HttparseRequest, Http, Decoded, is_some, ends_head, find_host, url_from_httparse_req, request_of,
  choose_body, decoded, with_body, decode, after_head,
}
use async_h.Server.Decode.Frames.{closes_head, ends_head-Decides, closes_head-line, closes_head-nil}
use async_h.Server.Decode.Url.{HasHost}

-- One of two fields is missing.
pub either_none :
    {A B : Type 0} (a : Option A) (b : Option B)
    → (not (is_some a) || not (is_some b)) ≡ true
    → (a ≡ none) ⊎ (b ≡ none)
either_none none b h = inl refl
either_none (some x) none h = inr refl
either_none (some x) (some y) h = cc

module _ {Request Url Method Sender Channel Cell R T : Type 0}
    (http : Http Request Url Method Sender Channel Cell R T) where
  -- A head that is complete, of HTTP/1.1, with a method and a valid Host header.
  pub record IsRequestHead (head : Bytes) : Type 0 where
    pub parsed : HttparseRequest
    pub parses : http.parse max_headers head ≡ ok (false, parsed)
    pub version : parsed.version ≡ some 1
    pub method : (text : Bytes) × (parsed.method ≡ some text)
    pub host : HasHost parsed

  url-HasHost :
      (parsed : HttparseRequest) (url : Url)
      → url_from_httparse_req http parsed ≡ ok url
      → HasHost parsed
  unfolding url_from_httparse_req
  url-HasHost parsed url h =
      let (path, has_path, h') = >>=-eq-ok (ok_or parsed.path no_uri) _ h in
      let (value, found, h'') = >>=-eq-ok (ok_or (find_host parsed.headers) host_missing) _ h' in
      let (host, valid, _) = >>=-eq-ok (from_utf8 value) _ h'' in
      (value, host, ok_or-eq-ok (find_host parsed.headers) host_missing found, valid)

  request_of-IsRequestHead :
      (head : Bytes) (request : Request) → request_of http head ≡ ok request → IsRequestHead head
  unfolding request_of
  request_of-IsRequestHead head request h =
      let (v, parses, h1) = >>=-eq-ok (http.parse max_headers head) _ h in
      let (whole, h2) = >>-eq-ok (ensure (not v.0) malformed_head) _ h1 in
      let (method, has_method, h3) = >>=-eq-ok (ok_or v.1.method no_method) _ h2 in
      let (version, has_version, h4) = >>=-eq-ok (ok_or v.1.version no_version) _ h3 in
      let (is_1_1, h5) = >>-eq-ok (ensure (version == 1) unsupported_version) _ h4 in
      let (url, has_url, _) = >>=-eq-ok (url_from_httparse_req http v.1) _ h5 in
      record {
        parsed = v.1;
        parses =
            parses
            ∙ ap (λ (p : Bool). ok (p, v.1))
                (not-eq-true v.0 (ensure-eq-ok (not v.0) malformed_head whole));
        version =
            ok_or-eq-ok v.1.version no_version has_version
            ∙ ap some
                ((==_iff version 1).0 (ensure-eq-ok (version == 1) unsupported_version is_1_1));
        method = (method, ok_or-eq-ok v.1.method no_method has_method);
        host = url-HasHost v.1 url has_url;
      }

  module _ {Sending : Type 0} (lines_io : BufRead R) (lines : Lines lines_io) where
    -- The stream begins with such a head, which announces a body at most once, and the reader of
    -- the body is what `choose_body` makes of the stream behind it.
    pub record Accepted (reader : R) (d : Decoded Request R T Sender Sending) : Type 0 where
      pub head : Bytes
      pub behind : R
      pub begins : lines.rest reader ≡ head ++ lines.rest behind
      pub first : IsFirst closes_head closes_head-line head
      pub is_head : IsRequestHead head
      pub request : Request
      pub reads : request_of http head ≡ ok request
      pub content_length : Option ℕ
      pub length_is : http.content_length request ≡ ok content_length
      pub once : (content_length ≡ none) ⊎ (http.header request (codes "transfer-encoding") ≡ none)
      pub body :
          decoded http request (
            choose_body http behind request
              (http.header request (codes "transfer-encoding"))
              content_length)
          ≡ d

    head-Accepted :
        (reader behind : R) (head : Bytes) (d : Decoded Request R T Sender Sending)
        → lines.rest reader ≡ head ++ lines.rest behind
        → IsFirst closes_head closes_head-line head
        → after_head http (behind, ok (complete head)) ≡ ok (some d)
        → Accepted reader d
    unfolding with_body
    head-Accepted reader behind head d begins first h =
        let (request, reads, h1) = >>=-eq-ok (request_of http head) _ h in
        let (d', with_it, same) = >>=-eq-ok (with_body http behind request) _ h1 in
        let (cl, length_is, h2) = >>=-eq-ok (http.content_length request) _ with_it in
        let te = http.header request (codes "transfer-encoding") in
        let (once, h3) =
          >>-eq-ok (ensure (not (is_some cl) || not (is_some te)) content_length_conflict) _ h2 in
        record {
          head = head;
          behind = behind;
          begins = begins;
          first = first;
          is_head = request_of-IsRequestHead head request reads;
          request = request;
          reads = reads;
          content_length = cl;
          length_is = length_is;
          once =
              either_none cl te
                (ensure-eq-ok (not (is_some cl) || not (is_some te)) content_length_conflict once);
          body = same_body _ d' d h3 same;
        }
      where
        same_body :
            (a b c : Decoded Request R T Sender Sending)
            → ◌≡◌ {A = Result (Decoded Request R T Sender Sending)} (ok a) (ok b)
            → ◌≡◌ {A = Result (Option (Decoded Request R T Sender Sending))}
                (ok (some b))
                (ok (some c))
            → a ≡ c
        same_body a b c e f = cc

    -- On a connection on which no operation fails, a request that `decode` accepts has a head at
    -- the front of the stream, of fewer than 8192 bytes, of which no shorter prefix ends as a head
    -- does and which `httparse` finds complete, of version 1.1, with a method and a Host header in
    -- valid UTF-8; it does not have both a Content-Length and a Transfer-Encoding; and its body is
    -- read from behind that head, in the way that these two headers choose.
    pub decode-Accepted :
        (reader : R) (d : Decoded Request R T Sender Sending)
        → decode http lines_io reader ≡ ok (some d)
        → Accepted reader d
    unfolding decode
    decode-Accepted reader d h =
        go (read_head lines_io ends_head reader)
          (read_head-Reads closes_head closes_head-line lines_io lines ends_head ends_head-Decides
            closes_head-nil reader)
          h
      where
        go :
            (o : R × Result Ending)
            → Reads closes_head closes_head-line lines_io lines (lines.rest reader) o
            → after_head http {Sending = Sending} o ≡ ok (some d)
            → Accepted reader d
        go (behind, ok (complete head)) (begins, first) h =
            head-Accepted reader behind head d begins first h
        go (behind, ok (eof buf)) r h = cc
        go (behind, err e) r h = cc
        go (behind, panic) r h = absurd r
