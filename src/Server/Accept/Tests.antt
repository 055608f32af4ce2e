-- ===== src/Server/Accept/Tests.antt =====
-- Runs of src/server/mod.rs, and instances of its theorems: a connection is the bytes that are
-- still to be read, which the `BufReader` of a request takes whole; a response is its status.
use async_h.Base.{
  ℕ, suc, ◌<◌, ◌≡◌, ◌↔◌, refl, ap, ◌∙◌, subst, true, false, [], ◌∷◌, ◌++◌, Option, none, some,
  Result, ok, err, panic, foreign, arith, length, take, drop,
}
use async_h.Base.Act.{Act}
use async_h.Base.Bytes.{Bytes, codes}
use async_h.Io.{ready}
use async_h.Io.Samples.{bytes_io, bytes_stream}
use async_h.Chunked.Samples.{ext}
use async_h.Base.Bytes.Slices.{slice}
use async_h.Head.{ends_in, read_rounds}
use async_h.Head.Samples.{split_line, lines_io, lines}
use async_h.Server.Body.{BodyReader, chunked, fixed, no_body, poll_read}
use async_h.Server.Decode.{Decoded}
use async_h.Server.Decode as Decode
use async_h.Server.Decode.Samples.{
  Headers, parse, lookup, http, sized_head, sized_headers, sized_head-IsFirst, sized_request,
}
use async_h.Server.Decode.Frames.{decode-BodyOwes, sized}
use async_h.Server.Body.Delivers.{BodyOwes}
use async_h.Base.Bytes.Ints.{parse_unsigned}
use async_h.Server.Accept.{
  keep_alive, Calls, Endpoint, Server, default, accept_one, decode_request, accept_rounds,
  connection_header_is_upgrade,
}
use async_h.Server.Accept.Upgrade.{ListsUpgrade, connection_header_is_upgrade_iff}
use async_h.Server.Accept.Status.{KeepsAlive, accept_one-KeepsAlive_iff}
use async_h.Server.Accept.Session.{Session, accept_rounds-Session_iff}
use async_h.Server.Accept.Drains.{Reads, ReadsToEnd, ends, here, returns}
use async_h.Server.Accept.Bodies.{OnlyReads, IsRead, accept_one-IsRead}

abbrev Incoming : Type 0
Incoming = BodyReader Bytes Bytes (Unit {0}) (Unit {0})

abbrev copy_body : Act (Bytes × Incoming) ℕ
copy_body (w, chunked d) = ((w, chunked d), err (foreign 0))
copy_body (w, fixed t) = ((w, fixed []), ok (length t))
copy_body (w, no_body) = ((w, no_body), ok 0)

abbrev timed_out : {A : Type 0} → Bytes × Result A → Bytes × Option (Result A)
timed_out (w, r) = (w, some r)

abbrev parts : Calls Bytes Bytes Headers ℕ Incoming (Unit {0}) (Unit {0})
parts = record {
  buf_reader = λ w. w;
  after_decode = λ w. [];
  timeout = λ n first w. timed_out (first w);
  is_head = λ req. false;
  header = λ res name. none;
  status = λ res. res;
  has_upgrade = λ res. true;
  send_upgrade = λ res. (tt, res);
  copy_response = λ e s. (s, ok 19);
  copy_body = copy_body;
  send_connection = λ sender w. w;
}

abbrev endpoint : Endpoint Bytes Headers ℕ Incoming
endpoint req s = (s, ok 200)

abbrev server : Server Bytes Headers ℕ Incoming
server = record { io = sized_head ++ codes "Wiki"; endpoint = endpoint; opts = default }

connection_header_is_upgrade_iff_example :
    (connection_header_is_upgrade (codes "keep-alive, Upgrade ,x") ≡ true)
    ↔ ListsUpgrade (codes "keep-alive, Upgrade ,x")
connection_header_is_upgrade_iff_example =
    connection_header_is_upgrade_iff (codes "keep-alive, Upgrade ,x")

accept_one-KeepsAlive_iff_example :
    (accept_one http lines_io parts server ≡ ([], ok keep_alive))
    ↔ KeepsAlive http lines_io parts server []
accept_one-KeepsAlive_iff_example = accept_one-KeepsAlive_iff http lines_io parts server []

-- The second request meets the end of the stream.
accept_rounds-Session_iff_example :
    (accept_rounds http lines_io parts 3 server ≡ ([], ok tt))
    ↔ ((n : ℕ) × (n < 3) × Session http lines_io parts n server ([], ok tt))
accept_rounds-Session_iff_example =
    accept_rounds-Session_iff http lines_io parts 3 server ([], ok tt) λ h. cc

take_all : (t : Bytes) → take (suc (length t)) t ≡ t
take_all [] = refl
take_all (c ∷ t) = ap (◌∷◌ c) (take_all t)

drop_all : (t : Bytes) → drop (suc (length t)) t ≡ []
drop_all [] = refl
drop_all (c ∷ t) = drop_all t

unfoldable ToEnd : Incoming → Bytes → Incoming → Type 0
ToEnd b bytes b' = ReadsToEnd ext bytes_io bytes_io bytes_stream bytes_stream b bytes b'

fixed-ToEnd : (t : Bytes) → ToEnd (fixed t) t (fixed [])
unfolding ToEnd poll_read
fixed-ToEnd t =
    ends 1 1
      (returns 1 (suc (length t)) here (omega arith) (omega arith)
        (ap (λ x. (fixed x, ready (take (suc (length t)) t))) (drop_all t)
          ∙ ap (λ x. (fixed [], ready x)) (take_all t))
        refl)
      (omega arith) (omega arith) refl

no_body-ToEnd : ToEnd no_body [] no_body
unfolding ToEnd poll_read
no_body-ToEnd = ends 1 1 here (omega arith) (omega arith) refl

abbrev Copied : Incoming → (Bytes × Incoming) × Result ℕ → Type 0
Copied b (s, ok n) = (bytes : Bytes) × (length bytes ≡ n) × ToEnd b bytes s.1
Copied b (s, err e) = Unit
Copied b (s, panic) = Unit

copy_body-Copied : (s : Bytes × Incoming) → Copied s.1 (copy_body s)
copy_body-Copied (w, chunked d) = tt
copy_body-Copied (w, fixed t) = (t, refl, fixed-ToEnd t)
copy_body-Copied (w, no_body) = ([], refl, no_body-ToEnd)

only_reads : OnlyReads http lines_io parts ext bytes_io bytes_io bytes_stream bytes_stream endpoint
unfolding ToEnd
only_reads = record {
  endpoint_reads = λ req s s' res e. (
    [],
    subst (λ x. Reads ext bytes_io bytes_io bytes_stream bytes_stream s.1 [] x.1) (ap (λ x. x.0) e)
        here,
  );
  response_reads = λ encoder s s' n e. (
    [],
    subst (λ x. Reads ext bytes_io bytes_io bytes_stream bytes_stream s.1 [] x.1) (ap (λ x. x.0) e)
        here,
  );
  body_reads = λ s s' n e. subst (Copied s.1) e (copy_body-Copied s);
}

decoded_Wiki :
    (d : Decoded Headers Bytes Bytes (Unit {0}) (Unit {0})) × (Decode.decode http lines_io
        (sized_head ++ codes "Wiki")
      ≡ ok (some d))
    × BodyOwes ext bytes_io bytes_io bytes_stream bytes_stream d.body (codes "Wiki")
unfolding lookup parse_unsigned
decoded_Wiki =
    decode-BodyOwes http ext lines_io bytes_io bytes_io lines bytes_stream bytes_stream (λ r. refl)
      (λ r n. refl) (sized_head ++ codes "Wiki") sized_head sized_headers (codes "Wiki") refl
      sized_head-IsFirst sized_request (some 4) (codes "Wiki") refl (sized 4 refl refl refl)

owed :
    (w : Bytes) (d : Decoded Headers Bytes Bytes (Unit {0}) (Unit {0}))
    → decode_request http lines_io parts server.opts.headers_timeout server.io ≡ (w, ok (some d))
    → BodyOwes ext bytes_io bytes_io bytes_stream bytes_stream d.body (codes "Wiki")
unfolding decode_request
owed w d e =
    let (d', found, owes) = decoded_Wiki in
    let same : d' ≡ d = cc (found, ap (λ x. x.1) e) in
    subst
      (λ (x : Decoded Headers Bytes Bytes (Unit {0}) (Unit {0})).
        BodyOwes ext bytes_io bytes_io bytes_stream bytes_stream x.body (codes "Wiki"))
      same owes

-- The request of the sample is handled and the connection kept open.
kept : accept_one http lines_io parts server ≡ ([], ok keep_alive)
unfolding accept_one Decode.decode ends_in slice read_rounds split_line parse
    Decode.url_from_httparse_req lookup parse_unsigned Decode.choose_body
kept = refl

accept_one-IsRead_example :
    (k : KeepsAlive http lines_io parts server []) × IsRead http lines_io parts ext bytes_io
      bytes_io bytes_stream bytes_stream server [] k
      (codes "Wiki")
accept_one-IsRead_example =
    accept_one-IsRead http lines_io parts ext bytes_io bytes_io bytes_stream bytes_stream server
      only_reads (codes "Wiki") owed [] kept
