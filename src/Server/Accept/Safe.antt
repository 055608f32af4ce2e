-- ===== src/Server/Accept/Safe.antt =====
-- `accept_one` and `accept` of src/server/mod.rs never panic by themselves.
use async_h.Base.{
  ℕ, refl, Bool, true, false, ◌&&◌, Option, none, some, Result, ok, err, panic, IsSafe, IsSafe-ok,
  IsSafe-err,
}
use async_h.Base.Act.{Act, and_then}
use async_h.Head.{BufRead}
use async_h.Server.Body.{BodyReader}
use async_h.Server.Decode.{Http, Decoded}
use async_h.Server.Decode.Safe as DecodeSafe
use async_h.Server.Encode.{Encoder}
use async_h.Server.Encode as Encode
use async_h.Server.Accept.{
  close, keep_alive, Calls, Server, decode, timed, decode_request, finish, drain_body, reply,
  respond, upgrade_sender, upgrade_requested, upgrade_provided, close_connection, keep_io, handle,
  accept_one,
}

pub IsSafe-and_then :
    {S A B : Type 0} (next : A → Act S B) (o : S × Result A)
    → IsSafe o.1
    → ((s : S) (a : A) → IsSafe (next a s).1)
    → IsSafe (and_then next o).1
IsSafe-and_then next (s, ok a) h k = k s a
IsSafe-and_then next (s, err e) h k = IsSafe-err e
IsSafe-and_then next (s, panic) h k = absurd (h.no_panic refl)

module _
    {W Request Response Outgoing UpgradeSender Url Method Sender Sending Channel Cell R T : Type 0}
    (http : Http Request Url Method Sender Channel Cell R T) (lines_io : BufRead R)
    (calls : Calls W R Request Response (BodyReader R T Sender Sending) Outgoing UpgradeSender)
    (decode_calls : DecodeSafe.CallsAreSafe http)
    (reads : (r : R) → IsSafe (lines_io.read_until 10 r).1) where
  abbrev pub NoPanic : {A : Type 0} → W × Option (Result A) → Type 0
  NoPanic (w, none) = Unit
  NoPanic (w, some r) = IsSafe r

  -- The foreign calls return a value or an error; `timeout` panics only where what it runs does.
  pub record CallsAreSafe : Type 1 where
    pub timeout :
        {A : Type 0} (n : ℕ) (first : Act W A) (w : W)
        → ((w' : W) → IsSafe (first w').1)
        → NoPanic (calls.timeout n first w)
    pub copy_response :
        (e : Encoder Response Outgoing) (s : W × BodyReader R T Sender Sending)
        → IsSafe (calls.copy_response e s).1
    pub copy_body : (s : W × BodyReader R T Sender Sending) → IsSafe (calls.copy_body s).1

  timed-IsSafe :
      {A : Type 0} (o : W × Option (Result (Option A)))
      → NoPanic o
      → IsSafe (timed http lines_io calls o).1
  timed-IsSafe (w, none) h = IsSafe-ok none
  timed-IsSafe (w, some r) h = h

  module _ (safe : CallsAreSafe) where
    decode-IsSafe : (w : W) → IsSafe (decode http lines_io calls w).1
    decode-IsSafe w = DecodeSafe.decode-IsSafe http decode_calls lines_io reads (calls.buf_reader w)

    decode_request-IsSafe :
        (timeout : Option ℕ) (w : W) → IsSafe (decode_request http lines_io calls timeout w).1
    unfolding decode_request
    decode_request-IsSafe none w = decode-IsSafe w
    decode_request-IsSafe (some d) w =
        timed-IsSafe (calls.timeout d (decode http lines_io calls) w)
          (safe.timeout d (decode http lines_io calls) w decode-IsSafe)

    finish-IsSafe :
        (sender : Option UpgradeSender) (closing : Bool) (s : W × BodyReader R T Sender Sending)
        → IsSafe (finish http lines_io calls sender closing s).1
    unfolding finish
    finish-IsSafe (some sender) closing (w, body) = IsSafe-ok close
    finish-IsSafe none true s = IsSafe-ok close
    finish-IsSafe none false s = IsSafe-ok keep_alive

    drain_body-IsSafe :
        (sender : Option UpgradeSender) (closing : Bool) (s : W × BodyReader R T Sender Sending)
        → IsSafe (drain_body http lines_io calls sender closing s).1
    drain_body-IsSafe sender closing s =
        IsSafe-and_then (λ m. finish http lines_io calls sender closing) (calls.copy_body s)
          (safe.copy_body s) λ s' m. finish-IsSafe sender closing s'

    reply-IsSafe :
        (req : Request) (res : Response) (s : W × BodyReader R T Sender Sending)
        → IsSafe (reply http lines_io calls req res s).1
    unfolding reply
    reply-IsSafe req res s =
        let agreed : Bool =
          upgrade_requested http lines_io calls req && upgrade_provided http lines_io calls res in
        let sent = upgrade_sender http lines_io calls agreed res in
        let encoder : Encoder Response Outgoing = Encode.new sent.1 (calls.is_head req) in
        IsSafe-and_then
          (λ n.
            drain_body http lines_io calls sent.0 (close_connection http lines_io calls req res))
          (calls.copy_response encoder s) (safe.copy_response encoder s)
          λ s' n. drain_body-IsSafe sent.0 (close_connection http lines_io calls req res) s'

    keep_io-IsSafe :
        {A : Type 0} (o : (W × BodyReader R T Sender Sending) × Result A)
        → IsSafe o.1
        → IsSafe (keep_io http lines_io calls o).1
    keep_io-IsSafe ((w, body), r) h = h

    -- If no foreign call and no run of the endpoint panics, `accept_one` does not: whatever bytes
    -- arrive, it ends with a status or an error.
    pub accept_one-IsSafe :
        (server : Server W Request Response (BodyReader R T Sender Sending))
        → ((req : Request) (s : W × BodyReader R T Sender Sending)
            → IsSafe (server.endpoint req s).1)
        → IsSafe (accept_one http lines_io calls server).1
    unfolding accept_one
    accept_one-IsSafe server answers =
        IsSafe-and_then (handle http lines_io calls server.endpoint)
          (decode_request http lines_io calls server.opts.headers_timeout server.io)
          (decode_request-IsSafe server.opts.headers_timeout server.io) go
      where
        go :
            (w : W) (found : Option (Decoded Request R T Sender Sending))
            → IsSafe (handle http lines_io calls server.endpoint found w).1
        go w none = IsSafe-ok close
        go w (some d) =
            keep_io-IsSafe (respond http lines_io calls server.endpoint d.request (w, d.body)) (
              IsSafe-and_then (reply http lines_io calls d.request)
                (server.endpoint d.request (w, d.body)) (answers d.request (w, d.body))
                λ s res. reply-IsSafe d.request res s)
