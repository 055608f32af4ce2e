-- ===== src/TestUtils/TestServer.antt =====
-- tests/test_utils.rs: `TestServer`, a server of src/server/mod.rs on one end of the connection
-- with the other end in the hands of the test. The state of the server's connection is the store of
-- both ends.
use async_h.Base.{ℕ, Bool, Result, ok, List}
use async_h.Base.Act.{Act, ◌>>=◌}
use async_h.Base.Bytes.{Bytes}
use async_h.Io.{Poll}
use async_h.Head.{BufRead}
use async_h.Server.Body.{BodyReader}
use async_h.Server.Decode.{Http}
use async_h.Server.Accept.{ConnectionStatus, Calls, Endpoint, Server}
use async_h.Server.Accept as Accept
use async_h.Client.Encode.{Encoder}
use async_h.Client.Encode as Encode
use async_h.TestUtils.{Store, TestIo}
use async_h.TestUtils

pub record TestServer (Waker Request Response Incoming : Type 0) : Type 0 where
  pub server : Server (Store Waker) Request Response Incoming
  pub client : TestIo

module _ {Waker Request Response Incoming : Type 0} where
  unfoldable pub new :
      Endpoint (Store Waker) Request Response Incoming → TestServer Waker Request Response Incoming
  unfolding Accept.new
  new f =
      let ((client, server), store) = TestUtils.new {Waker = Waker} in
      record { server = Accept.new store f; client = client }

  -- The server and the test share the connection.
  abbrev pub with_store :
      TestServer Waker Request Response Incoming
      → Store Waker
      → TestServer Waker Request Response Incoming
  with_store t s = record t { server = record t.server { io = s } }

  unfoldable pub close :
      TestServer Waker Request Response Incoming
      → TestServer Waker Request Response Incoming × List Waker
  unfolding TestUtils.close
  close t = let (s, ws) = TestUtils.close t.server.io t.client in (with_store t s, ws)

  unfoldable pub all_read : TestServer Waker Request Response Incoming → Bool
  unfolding TestUtils.all_read
  all_read t = TestUtils.all_read t.server.io t.client

  unfoldable pub poll_read :
      TestServer Waker Request Response Incoming
      → Waker
      → ℕ
      → TestServer Waker Request Response Incoming × Poll Bytes
  unfolding TestUtils.poll_read
  poll_read t w n = let (s, o) = TestUtils.poll_read t.server.io t.client w n in (with_store t s, o)

  unfoldable pub poll_write :
      TestServer Waker Request Response Incoming
      → Bytes
      → TestServer Waker Request Response Incoming × List Waker × Poll ℕ
  unfolding TestUtils.poll_write
  poll_write t buf =
      let (s, ws, o) = TestUtils.poll_write t.server.io t.client buf in (with_store t s, ws, o)

  -- `async_std::io::copy(&mut Encoder::new(request), self)`; `copy` is foreign.
  unfoldable pub write_request :
      {Outgoing Body : Type 0}
      → (Encoder Outgoing Body → Act (TestServer Waker Request Response Incoming) ℕ)
      → Outgoing
      → Act (TestServer Waker Request Response Incoming) (Unit {0})
  unfolding Encode.new
  write_request copy request = copy (Encode.new request) >>= λ bytes_written t. (t, ok tt)

module _
    {Waker R Request Response Outgoing UpgradeSender Url Method Sender Sending Channel Cell
      T : Type 0}
    (http : Http Request Url Method Sender Channel Cell R T) (lines_io : BufRead R)
    (calls : Calls
      (Store Waker)
      R
      Request
      Response
      (BodyReader R T Sender Sending)
      Outgoing
      UpgradeSender) where
  unfoldable pub accept_one :
      TestServer Waker Request Response (BodyReader R T Sender Sending)
      → TestServer Waker Request Response (BodyReader R T Sender Sending) × Result ConnectionStatus
  unfolding Accept.accept_one
  accept_one t = let (s, r) = Accept.accept_one http lines_io calls t.server in (with_store t s, r)
