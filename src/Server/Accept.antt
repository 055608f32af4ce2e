-- ===== src/Server/Accept.antt =====
-- src/server/mod.rs: `Server`, which reads requests from a connection, has an endpoint answer them,
-- and writes the responses. The connection, whose clones share one state, is a state `W` that the
-- foreign code acts on; the body of a request is in a cell that the request and `accept_one` share,
-- so the endpoint and the copying of the response act on the connection and on that cell.
pub mod Upgrade
pub mod Status
pub mod Session
pub mod Safe
pub mod Serves
pub mod Drains
pub mod Bodies
pub mod Tests
use async_h.Base.{
  ℕ, zero, suc, Bool, true, false, not, ◌&&◌, ◌||◌, List, [], ◌∷◌, Option, none, some, Result, ok,
  err, panic, ◌==◌, if◌then◌else◌,
}
use async_h.Base.Act.{Act, and_then, ◌>>=◌}
use async_h.Base.Bytes.{Bytes, codes, eq_ignore_ascii_case, trim}
use async_h.Head.{BufRead}
use async_h.Server.Body.{BodyReader}
use async_h.Server.Decode.{Http, Decoded, is_some}
use async_h.Server.Decode as Decode
use async_h.Server.Encode.{Encoder}
use async_h.Server.Encode as Encode

pub record ServerOptions : Type 0 where
  -- in seconds
  pub headers_timeout : Option ℕ

abbrev pub default : ServerOptions
default = record { headers_timeout = some 60 }

-- Whether the server may accept another request.
pub data ConnectionStatus : Type 0 where
  close keep_alive : ConnectionStatus

-- `s.split(',')`: the first part, and the others.
unfoldable pub split_comma : Bytes → Bytes × List Bytes
split_comma [] = ([], [])
split_comma (c ∷ s) =
    let (part, parts) = split_comma s in if c == b',' then ([], part ∷ parts) else (c ∷ part, parts)

-- `s.trim().eq_ignore_ascii_case("upgrade")`
unfoldable pub is_upgrade : Bytes → Bool
unfolding trim eq_ignore_ascii_case
is_upgrade part = eq_ignore_ascii_case (trim part) (codes "upgrade")

unfoldable pub any_upgrade : List Bytes → Bool
unfolding is_upgrade
any_upgrade [] = false
any_upgrade (part ∷ parts) = is_upgrade part || any_upgrade parts

unfoldable pub connection_header_is_upgrade : Bytes → Bool
unfolding split_comma any_upgrade
connection_header_is_upgrade value =
    let (part, parts) = split_comma value in any_upgrade (part ∷ parts)

abbrev pub unwrap_or : Bytes → Option Bytes → Bytes
unwrap_or other none = other
unwrap_or other (some value) = value

-- `c.as_str().eq_ignore_ascii_case("close")`, false where there is no such header
unfoldable pub says_close : Option Bytes → Bool
unfolding eq_ignore_ascii_case
says_close none = false
says_close (some value) = eq_ignore_ascii_case value (codes "close")

-- The foreign calls of `accept_one`, beside those of `decode`.
pub record Calls (W R Request Response Incoming Outgoing UpgradeSender : Type 0) : Type 1 where
  -- `BufReader::new(io.clone())`, and the connection when `decode` has returned
  pub buf_reader : W → R
  pub after_decode : W → W
  -- `none` when the time is up
  pub timeout : {A : Type 0} → ℕ → Act W A → W → W × Option (Result A)
  pub is_head : Request → Bool
  -- `header(name).map(|c| c.as_str())`
  pub header : Response → Bytes → Option Bytes
  pub status : Response → ℕ
  pub has_upgrade : Response → Bool
  pub send_upgrade : Response → UpgradeSender × Response
  -- `io::copy(&mut encoder, &mut self.io)`, `io::copy(&mut body, &mut io::sink())`
  pub copy_response : Encoder Response Outgoing → Act (W × Incoming) ℕ
  pub copy_body : Act (W × Incoming) ℕ
  -- `upgrade_sender.send(Connection::new(self.io.clone()))`
  pub send_connection : UpgradeSender → W → W

abbrev pub Endpoint : (W Request Response Incoming : Type 0) → Type 0
Endpoint W Request Response Incoming = Request → Act (W × Incoming) Response

pub record Server (W Request Response Incoming : Type 0) : Type 0 where
  pub io : W
  pub endpoint : Endpoint W Request Response Incoming
  pub opts : ServerOptions

unfoldable pub new :
    {W Request Response Incoming : Type 0}
    → W
    → Endpoint W Request Response Incoming
    → Server W Request Response Incoming
new io endpoint = record { io = io; endpoint = endpoint; opts = default }

unfoldable pub with_opts :
    {W Request Response Incoming : Type 0}
    → Server W Request Response Incoming
    → ServerOptions
    → Server W Request Response Incoming
with_opts server opts = record server { opts = opts }

module _
    {W Request Response Outgoing UpgradeSender Url Method Sender Sending Channel Cell R T : Type 0}
    (http : Http Request Url Method Sender Channel Cell R T) (lines_io : BufRead R)
    (calls : Calls W R Request Response
      (BodyReader R T Sender Sending)
      Outgoing
      UpgradeSender) where
  abbrev pub Incoming : Type 0
  Incoming = BodyReader R T Sender Sending

  abbrev pub decode : Act W (Option (Decoded Request R T Sender Sending))
  decode w = (calls.after_decode w, Decode.decode http lines_io (calls.buf_reader w))

  abbrev pub timed : {A : Type 0} → W × Option (Result (Option A)) → W × Result (Option A)
  timed (w, none) = (w, ok none)
  timed (w, some r) = (w, r)

  -- A request, or none at the end of the stream and when the time is up.
  unfoldable pub decode_request : Option ℕ → Act W (Option (Decoded Request R T Sender Sending))
  decode_request none w = decode w
  decode_request (some timeout_duration) w = timed (calls.timeout timeout_duration decode w)

  unfoldable pub upgrade_requested : Request → Bool
  unfolding connection_header_is_upgrade
  upgrade_requested req =
      is_some (http.header req (codes "upgrade"))
      && connection_header_is_upgrade (unwrap_or [] (http.header req (codes "connection")))

  -- `StatusCode::SwitchingProtocols` is 101.
  unfoldable pub upgrade_provided : Response → Bool
  upgrade_provided res = calls.status res == 101 && calls.has_upgrade res

  unfoldable pub close_connection : Request → Response → Bool
  unfolding says_close
  close_connection req res =
      says_close (some (unwrap_or [] (http.header req (codes "connection"))))
      || says_close (calls.header res (codes "connection"))

  unfoldable pub upgrade_sender : Bool → Response → Option UpgradeSender × Response
  upgrade_sender false res = (none, res)
  upgrade_sender true res = let (sender, res') = calls.send_upgrade res in (some sender, res')

  unfoldable pub finish : Option UpgradeSender → Bool → Act (W × Incoming) ConnectionStatus
  finish (some sender) closing (w, body) = ((calls.send_connection sender w, body), ok close)
  finish none true s = (s, ok close)
  finish none false s = (s, ok keep_alive)

  abbrev pub drain_body : Option UpgradeSender → Bool → Act (W × Incoming) ConnectionStatus
  drain_body sender closing = calls.copy_body >>= λ body_bytes_discarded. finish sender closing

  unfoldable pub reply : Request → Response → Act (W × Incoming) ConnectionStatus
  unfolding upgrade_requested upgrade_provided close_connection upgrade_sender finish Encode.new
  reply req res =
      let (sender, res') = upgrade_sender (upgrade_requested req && upgrade_provided res) res in
      calls.copy_response (Encode.new res' (calls.is_head req)) >>= λ bytes_written.
      drain_body sender (close_connection req res)

  -- From the request to the status of the connection.
  abbrev pub respond :
      Endpoint W Request Response Incoming → Request → Act (W × Incoming) ConnectionStatus
  respond endpoint req = endpoint req >>= reply req

  abbrev pub keep_io : {A : Type 0} → (W × Incoming) × Result A → W × Result A
  keep_io ((w, body), r) = (w, r)

  abbrev pub handle :
      Endpoint W Request Response Incoming
      → Option (Decoded Request R T Sender Sending)
      → Act W ConnectionStatus
  handle endpoint none w = (w, ok close)
  handle endpoint (some d) w = keep_io (respond endpoint d.request (w, d.body))

  unfoldable pub accept_one : Server W Request Response Incoming → W × Result ConnectionStatus
  unfolding decode_request reply
  accept_one server =
      and_then (handle server.endpoint) (decode_request server.opts.headers_timeout server.io)

  abbrev pub again :
      (W → W × Result (Unit {0})) → W × Result ConnectionStatus → W × Result (Unit {0})
  again next (w, ok keep_alive) = next w
  again next (w, ok close) = (w, ok tt)
  again next (w, err e) = (w, err e)
  again next (w, panic) = (w, panic)

  -- The loop of `accept`, of at most so many rounds; one round beyond the fuel counts as a panic.
  unfoldable pub accept_rounds : ℕ → Server W Request Response Incoming → W × Result (Unit {0})
  unfolding accept_one
  accept_rounds zero server = (server.io, panic)
  accept_rounds (suc fuel) server =
      again (λ w. accept_rounds fuel (record server { io = w })) (accept_one server)

  -- The functions `accept_with_opts` and `accept`.
  unfoldable pub accept_with_opts :
      ℕ → W → Endpoint W Request Response Incoming → ServerOptions → W × Result (Unit {0})
  unfolding accept_rounds new with_opts
  accept_with_opts fuel io endpoint opts = accept_rounds fuel (with_opts (new io endpoint) opts)

  unfoldable pub accept : ℕ → W → Endpoint W Request Response Incoming → W × Result (Unit {0})
  unfolding accept_rounds new
  accept fuel io endpoint = accept_rounds fuel (new io endpoint)
