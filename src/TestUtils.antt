-- ===== src/TestUtils.antt =====
-- tests/test_utils.rs: `TestIO`, the connection of the integration tests, of which the client and
-- the server hold one end each. The two ends share two `Arc<CloseableCursor>`: they are names
-- in a `Store` that holds both cursors, and a run is one sequence of calls of the two ends.
pub mod Cursor
pub mod Fifo
pub mod Delivers
pub mod Wakes
pub mod Reader
pub mod ClientDecode
pub mod TestServer
pub mod Tests
use async_h.Base.{ℕ, ◌≡◌, Bool, List, [], ◌∷◌, ◌++◌}
use async_h.Base.Bytes.{Bytes}
use async_h.Io.{Poll, Read}
use async_h.TestUtils.Cursor.{CloseableCursor, default, current}
use async_h.TestUtils.Cursor

-- The two cursors of `TestIO::new`, by their names there.
pub data Shared : Type 0 where
  client server : Shared

pub record Store (Waker : Type 0) : Type 0 where
  pub client : CloseableCursor Waker
  pub server : CloseableCursor Waker

pub record TestIo : Type 0 where
  pub read : Shared
  pub write : Shared

module _ {Waker : Type 0} where
  abbrev pub deref : Store Waker → Shared → CloseableCursor Waker
  deref s client = s.client
  deref s server = s.server

  abbrev pub assign : Store Waker → Shared → CloseableCursor Waker → Store Waker
  assign s client c = record s { client = c }
  assign s server c = record s { server = c }

-- `TestIO::new`: the ends of the client and of the server.
abbrev pub client_end : TestIo
client_end = record { read = client; write = server }

abbrev pub server_end : TestIo
server_end = record { read = server; write = client }

abbrev pub new : {Waker : Type 0} → (TestIo × TestIo) × Store Waker
new = ((client_end, server_end), record { client = default; server = default })

-- A call of one end. `closes` is `TestIO::close` and also `poll_close`, which do the same.
pub data Call (Waker : Type 0) : Type 0 where
  reads : Waker → ℕ → Call Waker
  writes : Bytes → Call Waker
  flushes closes asks_all_read : Call Waker

pub data Reply : Type 0 where
  was_read : Poll Bytes → Reply
  was_written : Poll ℕ → Reply
  was_flushed was_closed : Reply
  all_read_is : Bool → Reply

module _ {Waker : Type 0} where
  unfoldable pub poll_read : Store Waker → TestIo → Waker → ℕ → Store Waker × Poll Bytes
  unfolding Cursor.poll_read
  poll_read s io w n =
      let (c, o) = Cursor.poll_read (deref s io.read) w n in (assign s io.read c, o)

  unfoldable pub poll_write : Store Waker → TestIo → Bytes → Store Waker × List Waker × Poll ℕ
  unfolding Cursor.poll_write
  poll_write s io buf =
      let (c, ws, o) = Cursor.poll_write (deref s io.write) buf in (assign s io.write c, ws, o)

  unfoldable pub close : Store Waker → TestIo → Store Waker × List Waker
  unfolding Cursor.close
  close s io = let (c, ws) = Cursor.close (deref s io.write) in (assign s io.write c, ws)

  unfoldable pub all_read : Store Waker → TestIo → Bool
  unfolding current
  all_read s io = current (deref s io.write)

  -- The store after a call, the wakers that it wakes, and what it returns.
  unfoldable pub call : Store Waker → TestIo → Call Waker → Store Waker × List Waker × Reply
  unfolding poll_read poll_write close all_read
  call s io (reads w n) = let (s', o) = poll_read s io w n in (s', [], was_read o)
  call s io (writes buf) = let (s', ws, o) = poll_write s io buf in (s', ws, was_written o)
  call s io flushes = (s, [], was_flushed)
  call s io closes = let (s', ws) = close s io in (s', ws, was_closed)
  call s io asks_all_read = (s, [], all_read_is (all_read s io))

-- The end that calls.
pub data End : Type 0 where
  client server : End

abbrev pub io_of : End → TestIo
io_of End.client = client_end
io_of End.server = server_end

module _ {Waker : Type 0} where
  -- Calls of the two ends in any order.
  unfoldable pub run : Store Waker → List (End × Call Waker) → Store Waker × List Waker × List Reply
  unfolding call
  run s [] = (s, [], [])
  run s ((e, c) ∷ cs) =
      let (s', ws, o) = call s (io_of e) c in
      let (s'', ws', os) = run s' cs in (s'', ws ++ ws', o ∷ os)
