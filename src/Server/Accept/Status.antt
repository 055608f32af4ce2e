-- ===== src/Server/Accept/Status.antt =====
-- When `accept_one` of src/server/mod.rs keeps the connection open.
use async_h.Base.{
  map, ==_iff, [], ◌||◌, arith, ℕ, ◌≡◌, ◌↔◌, refl, sym, ap, ◌∙◌, Bool, true, false, ◌&&◌, Option,
  none, some, Result, ok,
}
use async_h.Base.Act.{and_then-eq-ok}
use async_h.Base.Bytes.{Bytes, codes, equal_iff, to_ascii_lowercase, eq_ignore_ascii_case, trim}
use async_h.Head.{BufRead}
use async_h.Server.Body.{BodyReader}
use async_h.Server.Decode.{Http, Decoded, is_some}
use async_h.Server.Encode.{Encoder}
use async_h.Server.Encode as Encode
use async_h.Server.Accept.Upgrade.{ListsUpgrade, connection_header_is_upgrade_iff}
use async_h.Server.Accept.{
  connection_header_is_upgrade, split_comma, any_upgrade, is_upgrade, keep_alive, Calls, Server,
  decode_request, upgrade_requested, upgrade_provided, unwrap_or, says_close, close_connection,
  upgrade_sender, finish, drain_body, reply, respond, keep_io, handle, accept_one,
}

false_of : (b : Bool) → (b ≡ true → ⊥) → b ≡ false
false_of true h = absurd (h refl)
false_of false h = refl

-- A header with the value `close`, in letters of either case.
abbrev pub IsClose : Option Bytes → Type 0
IsClose header =
    (value : Bytes) × (header ≡ some value) × (map to_ascii_lowercase value ≡ codes "close")

says_close_iff : (header : Option Bytes) → (says_close header ≡ true) ↔ IsClose header
unfolding says_close eq_ignore_ascii_case
says_close_iff none = ((λ h. cc), λ c. cc (c.1))
says_close_iff (some value) = (
  λ h. (value, refl, (equal_iff (map to_ascii_lowercase value) (codes "close")).0 h),
  λ (v, e, c).
      (equal_iff (map to_ascii_lowercase value) (codes "close")).1
        (ap (λ o. map to_ascii_lowercase (unwrap_or [] o)) e ∙ c),
)

connection_header-nil : connection_header_is_upgrade [] ≡ false
unfolding connection_header_is_upgrade split_comma any_upgrade is_upgrade trim eq_ignore_ascii_case
connection_header-nil = refl

module _
    {W Request Response Outgoing UpgradeSender Url Method Sender Sending Channel Cell R T : Type 0}
    (http : Http Request Url Method Sender Channel Cell R T) (lines_io : BufRead R)
    (calls : Calls W R Request Response
      (BodyReader R T Sender Sending)
      Outgoing
      UpgradeSender) where
  -- The request has an Upgrade header and a Connection header with the option `upgrade`, and the
  -- response is `101 Switching Protocols` with what takes the connection over.
  pub record UpgradeAgreed (req : Request) (res : Response) : Type 0 where
    pub asked : (protocol : Bytes) × (http.header req (codes "upgrade") ≡ some protocol)
    pub named :
        (value : Bytes) × (http.header req (codes "connection") ≡ some value) × ListsUpgrade value
    pub switches : calls.status res ≡ 101
    pub takes_over : calls.has_upgrade res ≡ true

  agreed-UpgradeAgreed :
      (req : Request) (res : Response)
      → (upgrade_requested http lines_io calls req && upgrade_provided http lines_io calls res)
        ≡ true
      → UpgradeAgreed req res
  unfolding upgrade_requested upgrade_provided
  agreed-UpgradeAgreed req res h =
      let named = lists (http.header req (codes "connection")) (ground (arith, h)) in
      record {
        asked = present (http.header req (codes "upgrade")) (ground (arith, h));
        named = named;
        switches = (==_iff (calls.status res) 101).0 (ground (arith, h));
        takes_over = ground (arith, h);
      }
    where
      present : (o : Option Bytes) → is_some o ≡ true → (v : Bytes) × (o ≡ some v)
      present none e = cc
      present (some v) e = (v, refl)

      lists :
          (o : Option Bytes)
          → connection_header_is_upgrade (unwrap_or [] o) ≡ true
          → (value : Bytes) × (o ≡ some value) × ListsUpgrade value
      lists none e = cc (connection_header-nil)
      lists (some value) e = (value, refl, (connection_header_is_upgrade_iff value).0 e)

  UpgradeAgreed-agreed :
      (req : Request) (res : Response)
      → UpgradeAgreed req res
      → (upgrade_requested http lines_io calls req && upgrade_provided http lines_io calls res)
        ≡ true
  unfolding upgrade_requested upgrade_provided
  UpgradeAgreed-agreed req res u =
      let (value, has, lists) = u.named in
      rw
        (u.asked.1, has, (connection_header_is_upgrade_iff value).1 lists, u.switches, u.takes_over)
        refl

  -- A request was decoded and answered, neither side asked to close or agreed to upgrade, the whole
  -- response was written, and what was left of the request's body was read.
  pub record KeepsAlive (server : Server W Request Response (BodyReader R T Sender Sending))
      (io : W) : Type 0 where
    pub decoded : Decoded Request R T Sender Sending
    pub response : Response
    pub before : W
    pub answered : W × BodyReader R T Sender Sending
    pub written : W × BodyReader R T Sender Sending
    pub drained : W × BodyReader R T Sender Sending
    pub response_bytes : ℕ
    pub body_bytes : ℕ
    pub decodes :
        decode_request http lines_io calls server.opts.headers_timeout server.io
        ≡ (before, ok (some decoded))
    pub answers : server.endpoint decoded.request (before, decoded.body) ≡ (answered, ok response)
    pub stays_http : UpgradeAgreed decoded.request response → ⊥
    pub request_stays_open : IsClose (http.header decoded.request (codes "connection")) → ⊥
    pub response_stays_open : IsClose (calls.header response (codes "connection")) → ⊥
    pub writes :
        calls.copy_response (Encode.new response (calls.is_head decoded.request)) answered
        ≡ (written, ok response_bytes)
    pub drains : calls.copy_body written ≡ (drained, ok body_bytes)
    pub ends : io ≡ drained.0

  says_close-unwrap_or : (o : Option Bytes) → says_close (some (unwrap_or [] o)) ≡ says_close o
  unfolding says_close eq_ignore_ascii_case
  says_close-unwrap_or none = refl
  says_close-unwrap_or (some value) = refl

  close_connection_eq :
      (req : Request) (res : Response)
      → close_connection http lines_io calls req res ≡ (
          says_close (http.header req (codes "connection"))
          || says_close (calls.header res (codes "connection")))
  unfolding close_connection
  close_connection_eq req res =
      rw (says_close-unwrap_or (http.header req (codes "connection"))) refl

  open_of : (o : Option Bytes) → (IsClose o → ⊥) → says_close o ≡ false
  open_of o h = false_of (says_close o) (λ e. h ((says_close_iff o).0 e))

  not_agreed :
      (req : Request) (res : Response)
      → (UpgradeAgreed req res → ⊥)
      → (upgrade_requested http lines_io calls req && upgrade_provided http lines_io calls res)
        ≡ false
  not_agreed req res h = false_of _ (λ e. h (agreed-UpgradeAgreed req res e))

  not_close : (o : Option Bytes) → says_close o ≡ false → IsClose o → ⊥
  not_close o e c = cc (e, (says_close_iff o).1 c)

  accept_one-KeepsAlive :
      (server : Server W Request Response (BodyReader R T Sender Sending)) (io : W)
      → KeepsAlive server io
      → accept_one http lines_io calls server ≡ (io, ok keep_alive)
  unfolding accept_one reply upgrade_sender finish
  accept_one-KeepsAlive server io k =
      let stays : close_connection http lines_io calls k.decoded.request k.response ≡ false =
        rw
          (
            close_connection_eq k.decoded.request k.response,
            open_of (http.header k.decoded.request (codes "connection")) k.request_stays_open,
            open_of (calls.header k.response (codes "connection")) k.response_stays_open,
          )
          refl in
      rw
        (
          k.decodes,
          k.answers,
          not_agreed k.decoded.request k.response k.stays_http,
          k.writes,
          k.drains,
          stays,
          k.ends,
        )
        refl

  finish-keep_alive :
      (sender : Option UpgradeSender) (closing : Bool) (s s' : W × BodyReader R T Sender Sending)
      → finish http lines_io calls sender closing s ≡ (s', ok keep_alive)
      → (sender ≡ none) × (closing ≡ false) × (s ≡ s')
  unfolding finish
  finish-keep_alive (some sender) closing (w, body) s' h = cc
  finish-keep_alive none true s s' h = cc
  finish-keep_alive none false s s' h = (refl, refl, ap (λ x. x.0) h)

  sender-none :
      (agreed : Bool) (res : Response)
      → (upgrade_sender http lines_io calls agreed res).0 ≡ none
      → (agreed ≡ false) × ((upgrade_sender http lines_io calls agreed res).1 ≡ res)
  unfolding upgrade_sender
  sender-none false res h = (refl, refl)
  sender-none true res h = cc

  keep_io-eq-ok :
      {A : Type 0} (o : (W × BodyReader R T Sender Sending) × Result A) {io : W} {a : A}
      → keep_io http lines_io calls o ≡ (io, ok a)
      → (s : W × BodyReader R T Sender Sending) × (o ≡ (s, ok a)) × (io ≡ s.0)
  keep_io-eq-ok (s, r) h = (s, cc, cc)

  accept_one-keep_alive :
      (server : Server W Request Response (BodyReader R T Sender Sending)) (io : W)
      → accept_one http lines_io calls server ≡ (io, ok keep_alive)
      → KeepsAlive server io
  unfolding accept_one reply
  accept_one-keep_alive server io h =
      let (w, found, dec, handled) =
        and_then-eq-ok (handle http lines_io calls server.endpoint)
          (decode_request http lines_io calls server.opts.headers_timeout server.io) h in
      go w found dec handled
    where
      both : (a b : Bool) → (a || b) ≡ false → (a ≡ false) × (b ≡ false)
      both a b h = ground arith

      go :
          (w : W) (found : Option (Decoded Request R T Sender Sending))
          → decode_request http lines_io calls server.opts.headers_timeout server.io ≡ (w, ok found)
          → handle http lines_io calls server.endpoint found w ≡ (io, ok keep_alive)
          → KeepsAlive server io
      go w none dec handled = cc
      go w (some d) dec handled =
          let (s, responded, last) =
            keep_io-eq-ok (respond http lines_io calls server.endpoint d.request (w, d.body))
              handled in
          let (s1, res, answered, rest1) =
            and_then-eq-ok (reply http lines_io calls d.request)
              (server.endpoint d.request (w, d.body)) responded in
          let agreed : Bool =
            upgrade_requested http lines_io calls d.request
            && upgrade_provided http lines_io calls res in
          let sender = (upgrade_sender http lines_io calls agreed res).0 in
          let closing = close_connection http lines_io calls d.request res in
          let encoder : Encoder Response Outgoing =
            Encode.new (upgrade_sender http lines_io calls agreed res).1
              (calls.is_head d.request) in
          let (s2, n, written, rest2) =
            and_then-eq-ok (λ x. drain_body http lines_io calls sender closing)
              (calls.copy_response encoder s1) rest1 in
          let (s3, m, drained, rest3) =
            and_then-eq-ok (λ x. finish http lines_io calls sender closing) (calls.copy_body s2)
              rest2 in
          let (no_sender, stays_open, same) = finish-keep_alive sender closing s3 s rest3 in
          let (stays_http, same_response) = sender-none agreed res no_sender in
          record {
            decoded = d;
            response = res;
            before = w;
            answered = s1;
            written = s2;
            drained = s3;
            response_bytes = n;
            body_bytes = m;
            decodes = dec;
            answers = answered;
            stays_http = λ u. cc (stays_http, UpgradeAgreed-agreed d.request res u);
            request_stays_open =
                not_close (http.header d.request (codes "connection"))
                  (both _ _ (sym (close_connection_eq d.request res) ∙ stays_open)).0;
            response_stays_open =
                not_close (calls.header res (codes "connection"))
                  (both _ _ (sym (close_connection_eq d.request res) ∙ stays_open)).1;
            writes =
                ap (λ r. calls.copy_response (Encode.new r (calls.is_head d.request)) s1)
                  (sym same_response)
                ∙ written;
            drains = drained;
            ends = last ∙ ap (λ x. x.0) (sym same);
          }

  -- `accept_one` returns that the connection may be kept open exactly where it decoded a request
  -- within the time, the endpoint answered it, neither the request nor the response has the
  -- Connection header `close`, in letters of either case, the two have not agreed on an upgrade (an
  -- Upgrade header, a Connection header that lists `upgrade`, and a response with status 101 that
  -- takes over), and the response was copied and the body of the request drained, with no error.
  pub accept_one-KeepsAlive_iff :
      (server : Server W Request Response (BodyReader R T Sender Sending)) (io : W)
      → (accept_one http lines_io calls server ≡ (io, ok keep_alive)) ↔ KeepsAlive server io
  accept_one-KeepsAlive_iff server io =
      (accept_one-keep_alive server io, accept_one-KeepsAlive server io)
