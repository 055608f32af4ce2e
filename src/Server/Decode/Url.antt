-- ===== src/Server/Decode/Url.antt =====
-- Where `url_from_httparse_req` of src/server/decode.rs takes the URL from.
use async_h.Base.{◌≡◌, refl, false, none, some, ok, err, host_missing}
use async_h.Base.Bytes.{Bytes, codes, starts_with}
use async_h.Base.Bytes.Utf8.{from_utf8}
use async_h.Server.Decode.{HttparseRequest, Http, find_host, url_from_httparse_req}

-- A Host header with a valid value.
abbrev pub HasHost : HttparseRequest → Type 0
HasHost req =
    (value host : Bytes) × (find_host req.headers ≡ some value) × (from_utf8 value ≡ ok host)

module _ {Request Url Method Sender Channel Cell R T : Type 0}
    (http : Http Request Url Method Sender Channel Cell R T) where
  -- A request must have a Host header, also where the URL does not depend on it.
  pub url-host_missing :
      (req : HttparseRequest) (path : Bytes)
      → req.path ≡ some path
      → find_host req.headers ≡ none
      → url_from_httparse_req http req ≡ err host_missing
  unfolding url_from_httparse_req
  url-host_missing req path p h = rw (p, h) refl

  -- The Host header, valid as it must be, does not matter for a target that is not a path: neither
  -- for an absolute URL nor for the target of CONNECT.
  pub url-ignores_host :
      (a b : HttparseRequest) (path : Bytes)
      → a.path ≡ some path
      → b.path ≡ some path
      → a.method ≡ b.method
      → starts_with path (codes "/") ≡ false
      → HasHost a
      → HasHost b
      → url_from_httparse_req http a ≡ url_from_httparse_req http b
  unfolding url_from_httparse_req
  url-ignores_host a b path pa pb m other (va, ha, fa, ua) (vb, hb, fb, ub) =
      rw (pa, fa, ua, pb, fb, ub, other, m) refl
