-- ===== src/Server/Accept/Serves.antt =====
-- A connection that `accept` of src/server/mod.rs serves ends without a panic, or goes on.
use async_h.Base.{
  ℕ, zero, suc, ◌<◌, ◌≡◌, ◌⊎◌, inl, inr, refl, arith, Result, ok, err, panic, IsSafe,
}
use async_h.Head.{BufRead}
use async_h.Server.Body.{BodyReader}
use async_h.Server.Decode.{Http}
use async_h.Server.Decode.Safe as DecodeSafe
use async_h.Server.Accept.{
  ConnectionStatus, close, keep_alive, Calls, Server, accept_one, again, accept_rounds,
}
use async_h.Server.Accept.Safe.{CallsAreSafe, accept_one-IsSafe}
use async_h.Server.Accept.Session.{Session, closes, fails, continues}

module _
    {W Request Response Outgoing UpgradeSender Url Method Sender Sending Channel Cell R T : Type 0}
    (http : Http Request Url Method Sender Channel Cell R T) (lines_io : BufRead R)
    (calls : Calls W R Request Response
      (BodyReader R T Sender Sending)
      Outgoing
      UpgradeSender) where
  -- So many requests after each of which the connection is kept open, and the connection after
  -- them.
  pub data Kept : ℕ → Server W Request Response (BodyReader R T Sender Sending) → W → Type 0 where
    at_once :
        {server : Server W Request Response (BodyReader R T Sender Sending)} {io : W}
        → server.io ≡ io
        → Kept zero server io
    after_one :
        {n : ℕ} {server : Server W Request Response (BodyReader R T Sender Sending)} {io last : W}
        → accept_one http lines_io calls server ≡ (io, ok keep_alive)
        → Kept n (record server { io = io }) last
        → Kept (suc n) server last

  abbrev pub Served :
      ℕ → Server W Request Response (BodyReader R T Sender Sending) → W × Result (Unit {0}) → Type 0
  Served fuel server o =
      ((n : ℕ) × (n < fuel) × Session http lines_io calls n server o)
      ⊎ ((io : W) × Kept fuel server io)

  module _ (decode_calls : DecodeSafe.CallsAreSafe http)
      (reads : (r : R) → IsSafe (lines_io.read_until 10 r).1)
      (safe_calls : CallsAreSafe http lines_io calls decode_calls reads) where
    round-Served :
        (fuel : ℕ) (server : Server W Request Response (BodyReader R T Sender Sending))
        (one : W × Result ConnectionStatus)
        → accept_one http lines_io calls server ≡ one
        → IsSafe one.1
        → ((w : W)
            → Served fuel
                (record server { io = w })
                (accept_rounds http lines_io calls fuel (record server { io = w })))
        → Served (suc fuel) server (
            again http lines_io calls
              (λ w. accept_rounds http lines_io calls fuel (record server { io = w }))
              one)
    round-Served fuel server (w, ok keep_alive) e safe rest = after (rest w)
      where
        after :
            {o : W × Result (Unit {0})}
            → Served fuel (record server { io = w }) o
            → Served (suc fuel) server o
        after (inl (n, less, s)) = inl (suc n, omega arith, continues e s)
        after (inr (last, kept)) = inr (last, after_one e kept)
    round-Served fuel server (w, ok close) e safe rest = inl (0, omega arith, closes e)
    round-Served fuel server (w, err why) e safe rest = inl (0, omega arith, fails e)
    round-Served fuel server (w, panic) e safe rest = absurd (safe.no_panic refl)

    -- If no foreign call and no run of the endpoint panics, then the loop of `accept`, in any
    -- number of rounds, either ends with no panic, after fewer kept requests than rounds and as its
    -- last request says, or has answered a request in each round and kept the connection open.
    pub accept_rounds-Served :
        (fuel : ℕ) (server : Server W Request Response (BodyReader R T Sender Sending))
        → ((req : Request) (s : W × BodyReader R T Sender Sending)
            → IsSafe (server.endpoint req s).1)
        → Served fuel server (accept_rounds http lines_io calls fuel server)
    unfolding accept_rounds
    accept_rounds-Served zero server answers = inr (server.io, at_once refl)
    accept_rounds-Served (suc fuel) server answers =
        round-Served fuel server (accept_one http lines_io calls server) refl
          (accept_one-IsSafe http lines_io calls decode_calls reads safe_calls server answers)
          λ w. accept_rounds-Served fuel (record server { io = w }) answers
