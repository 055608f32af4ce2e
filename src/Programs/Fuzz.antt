-- ===== src/Programs/Fuzz.antt =====
-- fuzz/fuzz_targets/server_accept.rs: a connection that reads the input and drops what is written,
-- and the endpoint that sends the request's body back. The target passes an address to `accept`,
-- too, which takes none.
use async_h.Base.{ℕ, ◌≡◌, refl, Result, ok, err, panic, length, IsSafe, IsSafe-ok, ◌⊎◌, inl, inr}
use async_h.Base.Bytes.{Bytes}
use async_h.Io.{
  Poll, ready, failed, pending, panic as poll_panic, out_of_fuel, Read, Stream, Serves,
}
use async_h.Head.{BufRead}
use async_h.Server.Body.{BodyReader}
use async_h.Server.Decode.{Http}
use async_h.Server.Accept.{Calls, Endpoint, Server, accept, accept_rounds}
use async_h.Server.Accept as Accept
use async_h.Server.Decode.Safe as DecodeSafe
use async_h.Server.Accept.Safe.{CallsAreSafe}
use async_h.Server.Accept.Session.{Session, closes, fails, continues}
use async_h.Server.Accept.Serves.{Served, Kept, accept_rounds-Served}

-- The clones of a wrapper share the cursor.
pub record RwWrapper (Cursor : Type 0) : Type 0 where
  pub cursor : Cursor

module _ {Cursor : Type 0} where
  unfoldable pub new : (Bytes → Cursor) → Bytes → RwWrapper Cursor
  new cursor_new input = record { cursor = cursor_new input }

  abbrev pub keep : Cursor × Poll Bytes → RwWrapper Cursor × Poll Bytes
  keep (cursor, o) = (record { cursor = cursor }, o)

  unfoldable pub poll_read : Read Cursor → RwWrapper Cursor → ℕ → RwWrapper Cursor × Poll Bytes
  poll_read io w n = keep (io.poll_read w.cursor n)

  -- Nothing is written anywhere.
  unfoldable pub poll_write : RwWrapper Cursor → Bytes → RwWrapper Cursor × Poll ℕ
  poll_write w buf = (w, ready (length buf))

  unfoldable pub poll_flush : RwWrapper Cursor → RwWrapper Cursor × Poll (Unit {0})
  poll_flush w = (w, ready tt)

  unfoldable pub poll_close : RwWrapper Cursor → RwWrapper Cursor × Poll (Unit {0})
  poll_close w = (w, ready tt)

  abbrev pub wrapped : Read Cursor → Read (RwWrapper Cursor)
  wrapped io = record { poll_read = poll_read io }

  keep-Serves :
      (rest : Cursor → Bytes) (before : Bytes) (n : ℕ) (o : Cursor × Poll Bytes)
      → Serves rest before n o
      → Serves (λ (w : RwWrapper Cursor). rest w.cursor) before n (keep o)
  keep-Serves rest before n (c, ready bytes) h = h
  keep-Serves rest before n (c, pending) h = h
  keep-Serves rest before n (c, failed e) h = h
  keep-Serves rest before n (c, poll_panic) h = h
  keep-Serves rest before n (c, out_of_fuel) h = h

  -- The reads of the wrapper are those of the cursor.
  pub wrapped_stream : {io : Read Cursor} → Stream io → Stream (wrapped io)
  unfolding poll_read
  wrapped_stream {io} stream = record {
    rest = λ w. stream.rest w.cursor;
    serves = λ w n.
        keep-Serves stream.rest (stream.rest w.cursor) n (io.poll_read w.cursor n)
          (stream.serves w.cursor n);
  }

module _
    {Cursor Request Response Outgoing UpgradeSender Url Method Sender Sending Channel Cell R
      T : Type 0}
    (http : Http Request Url Method Sender Channel Cell R T) (lines_io : BufRead R)
    (calls : Calls
      (RwWrapper Cursor)
      R
      Request
      Response
      (BodyReader R T Sender Sending)
      Outgoing
      UpgradeSender)
    (response_new : ℕ → Response) (set_body : Response → Request → Response)
    (cursor_new : Bytes → Cursor) where
  unfoldable pub endpoint :
      Endpoint (RwWrapper Cursor) Request Response (BodyReader R T Sender Sending)
  endpoint req s = let res = response_new 200 in (s, ok (set_body res req))

  -- `.ok()`: only a panic is a finding of the fuzzer.
  abbrev pub discard : {A : Type 0} → A × Result (Unit {0}) → Result (Unit {0})
  discard (s, ok u) = ok tt
  discard (s, err e) = ok tt
  discard (s, panic) = panic

  unfoldable pub fuzz_target : ℕ → Bytes → Result (Unit {0})
  unfolding new endpoint
  fuzz_target fuel request =
      discard (accept http lines_io calls fuel (new cursor_new request) endpoint)

  module _ (decode_calls : DecodeSafe.CallsAreSafe http)
      (reads : (r : R) → IsSafe (lines_io.read_until 10 r).1)
      (safe_calls : CallsAreSafe http lines_io calls decode_calls reads) where
    Session-discard :
        {n : ℕ} {s : Server (RwWrapper Cursor) Request Response (BodyReader R T Sender Sending)}
        {o : RwWrapper Cursor × Result (Unit {0})}
        → Session http lines_io calls n s o
        → discard o ≡ ok tt
    Session-discard (closes e) = refl
    Session-discard (fails e) = refl
    Session-discard (continues e rest) = Session-discard rest

    -- The fuzzer finds no panic where no foreign call panics: on any input, the target ends, or it
    -- has answered as many requests as it has rounds.
    pub fuzz_target-Kept :
        (fuel : ℕ) (request : Bytes)
        → (fuzz_target fuel request ≡ ok tt)
          ⊎ ((w : RwWrapper Cursor) × Kept http lines_io calls fuel
                (Accept.new (new cursor_new request) endpoint)
                w)
    unfolding fuzz_target accept
    fuzz_target-Kept fuel request = after (
        accept_rounds-Served http lines_io calls decode_calls reads safe_calls fuel
          (Accept.new (new cursor_new request) endpoint)
          (unfold Accept.new endpoint in λ req s. IsSafe-ok _))
      where
        after :
            Served http lines_io calls fuel (Accept.new (new cursor_new request) endpoint) (
              accept_rounds http lines_io calls fuel (Accept.new (new cursor_new request) endpoint))
            → (fuzz_target fuel request ≡ ok tt)
              ⊎ ((w : RwWrapper Cursor) × Kept http lines_io calls fuel
                    (Accept.new (new cursor_new request) endpoint)
                    w)
        after (inl (n, less, s)) = inl (Session-discard s)
        after (inr kept) = inr kept
