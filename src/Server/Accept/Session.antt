-- ===== src/Server/Accept/Session.antt =====
-- The loop of `accept` in src/server/mod.rs, as the sequence of the requests that it handles.
use async_h.Base.{
  ℕ, zero, suc, ◌<◌, ◌≡◌, ◌≢◌, ◌↔◌, refl, sym, ap, subst, arith, Error, Result, ok, err, panic,
}
use async_h.Head.{BufRead}
use async_h.Server.Body.{BodyReader}
use async_h.Server.Decode.{Http}
use async_h.Server.Accept.{
  ConnectionStatus, close, keep_alive, Calls, Server, accept_one, again, accept_rounds,
}

module _
    {W Request Response Outgoing UpgradeSender Url Method Sender Sending Channel Cell R T : Type 0}
    (http : Http Request Url Method Sender Channel Cell R T) (lines_io : BufRead R)
    (calls : Calls W R Request Response
      (BodyReader R T Sender Sending)
      Outgoing
      UpgradeSender) where
  -- The requests on one connection: so many after which it is kept open, and a last one, after
  -- which it is closed or which fails.
  pub data Session
      : ℕ
        → Server W Request Response (BodyReader R T Sender Sending)
        → W × Result (Unit {0})
        → Type 0 where
    closes :
        {server : Server W Request Response (BodyReader R T Sender Sending)} {io : W}
        → accept_one http lines_io calls server ≡ (io, ok close)
        → Session zero server (io, ok tt)
    fails :
        {server : Server W Request Response (BodyReader R T Sender Sending)} {io : W} {e : Error}
        → accept_one http lines_io calls server ≡ (io, err e)
        → Session zero server (io, err e)
    continues :
        {n : ℕ} {server : Server W Request Response (BodyReader R T Sender Sending)} {io : W}
        {o : W × Result (Unit {0})}
        → accept_one http lines_io calls server ≡ (io, ok keep_alive)
        → Session n (record server { io = io }) o
        → Session (suc n) server o

  -- A session of `n` kept connections is what the loop does, in any number of rounds above `n`.
  pub accept_rounds-Session :
      (fuel : ℕ) {n : ℕ} {server : Server W Request Response (BodyReader R T Sender Sending)}
      {o : W × Result (Unit {0})}
      → Session n server o
      → n < fuel
      → accept_rounds http lines_io calls fuel server ≡ o
  unfolding accept_rounds
  accept_rounds-Session zero s h = absurd (omega arith)
  accept_rounds-Session (suc fuel) (closes e) h = rw e refl
  accept_rounds-Session (suc fuel) (fails e) h = rw e refl
  accept_rounds-Session (suc fuel) (continues e s) h =
      rw e (accept_rounds-Session fuel s (omega arith))

  Session-again :
      (fuel : ℕ) (server : Server W Request Response (BodyReader R T Sender Sending))
      (one : W × Result ConnectionStatus) (o : W × Result (Unit {0}))
      → accept_one http lines_io calls server ≡ one
      → again http lines_io calls
          (λ w. accept_rounds http lines_io calls fuel (record server { io = w }))
          one
        ≡ o
      → o.1 ≢ panic
      → ((w : W)
          → accept_rounds http lines_io calls fuel (record server { io = w }) ≡ o
          → (n : ℕ) × (n < fuel) × Session n (record server { io = w }) o)
      → (n : ℕ) × (n < suc fuel) × Session n server o
  Session-again fuel server (w, ok keep_alive) o e h no_panic rest =
      let (n, enough, s) = rest w h in (suc n, omega arith, continues e s)
  Session-again fuel server (w, ok close) o e h no_panic rest =
      (0, omega arith, subst (Session 0 server) h (closes e))
  Session-again fuel server (w, err why) o e h no_panic rest =
      (0, omega arith, subst (Session 0 server) h (fails e))
  Session-again fuel server (w, panic) o e h no_panic rest =
      absurd (no_panic (ap (λ x. x.1) (sym h)))

  Session-accept_rounds :
      (fuel : ℕ) (server : Server W Request Response (BodyReader R T Sender Sending))
      (o : W × Result (Unit {0}))
      → accept_rounds http lines_io calls fuel server ≡ o
      → o.1 ≢ panic
      → (n : ℕ) × (n < fuel) × Session n server o
  unfolding accept_rounds
  Session-accept_rounds zero server o h no_panic = absurd (no_panic (ap (λ x. x.1) (sym h)))
  Session-accept_rounds (suc fuel) server o h no_panic =
      Session-again fuel server (accept_one http lines_io calls server) o refl h no_panic
        λ w e. Session-accept_rounds fuel (record server { io = w }) o e no_panic

  -- The loop of `accept` implements the relation `Session`: an outcome that is not a panic is what
  -- it returns, with some number of rounds, exactly where there is a session with that outcome in
  -- which fewer requests than that number leave the connection open: each of these keeps it open,
  -- and one more closes it, or fails with the error that is the outcome.
  pub accept_rounds-Session_iff :
      (fuel : ℕ) (server : Server W Request Response (BodyReader R T Sender Sending))
      (o : W × Result (Unit {0}))
      → o.1 ≢ panic
      → (accept_rounds http lines_io calls fuel server ≡ o)
        ↔ ((n : ℕ) × (n < fuel) × Session n server o)
  accept_rounds-Session_iff fuel server o no_panic = (
    λ h. Session-accept_rounds fuel server o h no_panic,
    λ (n, h, s). accept_rounds-Session fuel s h,
  )
