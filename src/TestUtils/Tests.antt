-- ===== src/TestUtils/Tests.antt =====
-- Runs of the connection of tests/test_utils.rs: one as in tests/continue.rs, where the server
-- reads before the client has written the body.
use mathlib.Core.List.{Memᴰ}
use async_h.Base.{none, ℕ, ◌≡◌, refl, ◌⊎◌, true, false, List, [], ◌∷◌, ◌++◌, take, drop, arith}
use async_h.Base.Bytes.{codes}
use async_h.Base.Bytes.Slices.{slice}
use async_h.Io.{ready, pending}
use async_h.Chunked.Decoder.{done}
use async_h.Chunked.Decoder as Chunked
use async_h.TestUtils.Cursor.{CloseableCursor, current, wake}
use async_h.TestUtils.Cursor
use async_h.TestUtils.Fifo.{link, fresh, answers, run-new}
use async_h.TestUtils.Delivers.{sent_by}
use async_h.Chunked.Decoder.Waits.{Parks, poll_read-Waits}
use async_h.Chunked.Samples.{ext, wire, wire-IsChunked}
use async_h.Chunked.RoundTrip.{drain}
use async_h.TestUtils.Reader.{cursor_io, cursor_stream, cursor-OnPending, drain-sent}
use async_h.TestUtils.Wakes.{Asleep, reads_none, run-Wakes}
use async_h.TestUtils.{
  Call, reads, writes, closes, asks_all_read, was_read, was_written, was_closed, all_read_is, End,
  io_of, run, call, poll_read, poll_write, close, all_read, new,
}

-- The server waits with waker 7, the client writes and closes, and the server reads to the end.
abbrev later : List (End × Call ℕ)
later =
    (End.client, writes (codes "01234"))
    ∷ (End.client, asks_all_read)
    ∷ (End.client, closes)
    ∷ (End.client, writes (codes "56789"))
    ∷ []

abbrev body_arrives : List (End × Call ℕ)
body_arrives =
    (End.server, reads 7 8) ∷ later
    ++ (End.server, reads 7 3)
      ∷ (End.server, reads 7 8)
      ∷ (End.server, reads 7 8)
      ∷ (End.client, asks_all_read)
      ∷ []

replies :
    (run (new {Waker = ℕ}).1 body_arrives).2
    ≡ was_read pending
      ∷ was_written (ready 5)
      ∷ all_read_is false
      ∷ was_closed
      ∷ was_written (ready 0)
      ∷ was_read (ready (codes "012"))
      ∷ was_read (ready (codes "34"))
      ∷ was_read (ready [])
      ∷ all_read_is true
      ∷ []
unfolding run call poll_read poll_write close all_read Cursor.poll_read Cursor.poll_write
    Cursor.close current wake slice
replies = refl

wakes_once : (run (new {Waker = ℕ}).1 body_arrives).1 ≡ 7 ∷ []
unfolding run call poll_read poll_write close all_read Cursor.poll_read Cursor.poll_write
    Cursor.close current wake slice
wakes_once = refl

run-new_example :
    let (s, ws, os) = run (new {Waker = ℕ}).1 body_arrives in
    (link s, os) ≡ answers fresh body_arrives
run-new_example = run-new body_arrives

waits : (poll_read (new {Waker = ℕ}).1 (io_of End.server) 7 8).1 ≡ pending
unfolding poll_read Cursor.poll_read
waits = refl

no_read : reads_none End.server later ≡ true
unfolding reads_none
no_read = refl

run-Wakes_example :
    let (s', ws, os) = run (poll_read (new {Waker = ℕ}).1 (io_of End.server) 7 8).0 later in
    Memᴰ 7 ws ⊎ ((w' n' : ℕ) → (poll_read s' (io_of End.server) w' n').1 ≡ pending)
run-Wakes_example = run-Wakes (new {Waker = ℕ}).1 End.server 7 8 later waits no_read

-- A chunked body that the client writes in two parts, read by the server.
abbrev sends_wire : List (End × Call ℕ)
sends_wire = (End.client, writes (take 4 wire)) ∷ (End.client, writes (drop 4 wire)) ∷ []

all_sent : sent_by End.client sends_wire (run (new {Waker = ℕ}).1 sends_wire).2 ≡ wire
unfolding sent_by run call poll_write Cursor.poll_write wake
all_sent = refl

server_drains :
    (drain ext
      (cursor_io 7)
      (cursor_stream 7)
      (Chunked.new (run (new {Waker = ℕ}).1 sends_wire).0.server tt)
      (3 ∷ 9 ∷ 1 ∷ [])).1
    ≡ codes "Wiki"
unfolding sent_by run call poll_write Cursor.poll_write wake reads_none drain Chunked.decoder slice
    Cursor.poll_read
server_drains =
    drain-sent 7 ext End.server sends_wire tt (3 ∷ 9 ∷ 1 ∷ []) (codes "Wiki") refl
      (omega arith, (omega arith, (omega arith, tt))) wire-IsChunked refl

-- A decoder that has read the size of the last chunk, and finds no trailers yet.
abbrev last_chunk : Chunked.ChunkedDecoder (CloseableCursor ℕ) (Unit {0}) (Unit {0})
last_chunk =
    Chunked.new (record { written = codes "0\r\n"; cursor = 0; waker = none; closed = false }) tt

waits_for_trailers : (Chunked.poll_read ext (cursor_io 7) 9 last_chunk 8).1 ≡ pending
unfolding Chunked.decoder slice Cursor.poll_read
waits_for_trailers = refl

-- The cursor keeps the waker 7.
abbrev IsAsleep : CloseableCursor ℕ → Type 0
IsAsleep c = Asleep c 7

poll_read-Waits_example :
    IsAsleep (Chunked.poll_read ext (cursor_io 7) 9 last_chunk 8).0.inner
    ⊎ Parks ext (Chunked.poll_read ext (cursor_io 7) 9 last_chunk 8).0.state
poll_read-Waits_example =
    poll_read-Waits ext IsAsleep (cursor_io 7) (cursor-OnPending 7) 9 8 last_chunk
      waits_for_trailers

-- The first byte of the trailers has arrived: the call is pending, the cursor keeps no waker, and
-- the write of the other byte wakes nobody.
abbrev half_trailers : Chunked.ChunkedDecoder (CloseableCursor ℕ) (Unit {0}) (Unit {0})
half_trailers =
    Chunked.new (record { written = codes "0\r\n\r"; cursor = 0; waker = none; closed = false }) tt

not_woken :
    let (d, o) = Chunked.poll_read ext (cursor_io 7) 9 half_trailers 8 in
    let (c, ws, n) = Cursor.poll_write d.inner (codes "\n") in (o ≡ pending) × (ws ≡ [])
unfolding Chunked.decoder slice Cursor.poll_read Cursor.poll_write wake
not_woken = (refl, refl)
