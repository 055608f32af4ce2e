-- ===== src/Client/Decode/Accepted.antt =====
-- What every response has that `decode` of src/client/decode.rs accepts.
use async_h.Base.{
  ℕ, ◌≡◌, ◌⊎◌, ap, ◌∙◌, Bool, false, not, ◌||◌, ◌==◌, [], ◌∷◌, ◌++◌, none, some, Result, ok, err,
  panic, ensure, ok_or, ensure-eq-ok, ok_or-eq-ok, not-eq-true, ==_iff, >>=-eq-ok, >>-eq-ok,
  malformed_head, no_status_code, no_version, unsupported_version, content_length_conflict,
}
use async_h.Base.Int.{ℤ}
use async_h.Base.Bytes.{Bytes, codes}
use async_h.Head.{BufRead, Ending, complete, eof, max_headers, read_head}
use async_h.Head.First.{Lines, IsFirst, Reads, read_head-Reads}
use async_h.Server.Decode.{is_some}
use async_h.Server.Decode.Accepted.{either_none}
use async_h.Client.Decode.{
  HttparseResponse, Http, Received, ends_head, response_of, with_body, decode, after_head,
}
use async_h.Client.Decode.Frames.{closes_head, ends_head-Decides, closes_head-line, closes_head-nil}

module _ {Response StatusCode Sender R T : Type 0}
    (http : Http Response StatusCode Sender R T) where
  -- A head that is complete, of HTTP/1.1, with a status code that is one.
  pub record IsResponseHead (head : Bytes) : Type 0 where
    pub parsed : HttparseResponse
    pub parses : http.parse max_headers head ≡ ok (false, parsed)
    pub version : parsed.version ≡ some 1
    pub status :
        (code : ℕ) × (parsed.code ≡ some code)
        × ((status : StatusCode) × http.status_try_from code ≡ ok status)

  response_of-IsResponseHead :
      (now : ℤ) (head : Bytes) (response : Response)
      → response_of http now head ≡ ok response
      → IsResponseHead head
  unfolding response_of
  response_of-IsResponseHead now head response h =
      let (v, parses, h1) = >>=-eq-ok (http.parse max_headers head) _ h in
      let (whole, h2) = >>-eq-ok (ensure (not v.0) malformed_head) _ h1 in
      let (code, has_code, h3) = >>=-eq-ok (ok_or v.1.code no_status_code) _ h2 in
      let (version, has_version, h4) = >>=-eq-ok (ok_or v.1.version no_version) _ h3 in
      let (is_1_1, h5) = >>-eq-ok (ensure (version == 1) unsupported_version) _ h4 in
      let (status, valid, _) = >>=-eq-ok (http.status_try_from code) _ h5 in
      record {
        parsed = v.1;
        parses =
            parses
            ∙ ap (λ (p : Bool). ok (p, v.1))
                (not-eq-true v.0 (ensure-eq-ok (not v.0) malformed_head whole));
        version =
            ok_or-eq-ok v.1.version no_version has_version
            ∙ ap some
                ((==_iff version 1).0 (ensure-eq-ok (version == 1) unsupported_version is_1_1));
        status = (code, ok_or-eq-ok v.1.code no_status_code has_code, (status, valid));
      }

  module _ {Sending : Type 0} (lines_io : BufRead R) (lines : Lines lines_io) (now : ℤ) where
    -- The stream begins with such a head, which announces a body at most once, and the response is
    -- given the body that stands behind it.
    pub record Accepted (reader : R) (d : Received Response R T Sender Sending) : Type 0 where
      pub head : Bytes
      pub behind : R
      pub begins : lines.rest reader ≡ head ++ lines.rest behind
      pub first : IsFirst closes_head closes_head-line head
      pub is_head : IsResponseHead head
      pub response : Response
      pub reads : response_of http now head ≡ ok response
      pub once :
          (http.header response (codes "content-length") ≡ none)
          ⊎ (http.header response (codes "transfer-encoding") ≡ none)
      pub body : with_body http behind response ≡ ok d

    body-once :
        (behind : R) (response : Response) (d : Received Response R T Sender Sending)
        → with_body http behind response ≡ ok d
        → (http.header response (codes "content-length") ≡ none)
          ⊎ (http.header response (codes "transfer-encoding") ≡ none)
    unfolding with_body
    body-once behind response d h =
        let cl = http.header response (codes "content-length") in
        let te = http.header response (codes "transfer-encoding") in
        let (once, _) =
          >>-eq-ok (ensure (not (is_some cl) || not (is_some te)) content_length_conflict) _ h in
        either_none cl te
          (ensure-eq-ok (not (is_some cl) || not (is_some te)) content_length_conflict once)

    -- On a connection on which no operation fails, a response that `decode` accepts has a head at
    -- the front of the stream, of fewer than 8192 bytes, of which no shorter prefix ends as a head
    -- does and which `httparse` finds complete, of version 1.1 and with a valid status code; it
    -- does not have both a Content-Length and a Transfer-Encoding; and its body is read from behind
    -- that head.
    pub decode_response-Accepted :
        (reader : R) (d : Received Response R T Sender Sending)
        → decode http lines_io now reader ≡ ok d
        → Accepted reader d
    unfolding decode
    decode_response-Accepted reader d h =
        go (read_head lines_io ends_head reader)
          (read_head-Reads closes_head closes_head-line lines_io lines ends_head ends_head-Decides
            closes_head-nil reader)
          h
      where
        go :
            (o : R × Result Ending)
            → Reads closes_head closes_head-line lines_io lines (lines.rest reader) o
            → after_head http {Sending = Sending} now o ≡ ok d
            → Accepted reader d
        go (behind, ok (complete head)) (begins, first) h =
            let (response, reads, with_it) = >>=-eq-ok (response_of http now head) _ h in
            record {
              head = head;
              behind = behind;
              begins = begins;
              first = first;
              is_head = response_of-IsResponseHead now head response reads;
              response = response;
              reads = reads;
              once = body-once behind response d with_it;
              body = with_it;
            }
        go (behind, ok (eof [])) r h = cc
        go (behind, ok (eof (c ∷ buf))) r h = cc
        go (behind, err e) r h = cc
        go (behind, panic) r h = absurd r
