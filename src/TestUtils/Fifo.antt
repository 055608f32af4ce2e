-- ===== src/TestUtils/Fifo.antt =====
-- tests/test_utils.rs against two queues of bytes, one for each direction.
use async_h.Base.{
  ℕ, ◌+◌, ◌-◌, ◌≤◌, min, ◌≡◌, refl, ap, ◌∙◌, arith, Bool, true, false, List, [], ◌∷◌, ◌++◌, ◌==◌,
  if◌then◌else◌, length, take, drop, length-drop, length-append, drop-drop, drop-min, take-min,
  drop-append_le,
}
use async_h.Base.Bytes.{Bytes}
use async_h.Base.Bytes.Slices.{slice}
use async_h.Io.{Poll, ready, pending}
use async_h.TestUtils.Cursor.{CloseableCursor, current, wake}
use async_h.TestUtils.Cursor
use async_h.TestUtils.{
  Store, TestIo, Call, reads, writes, flushes, closes, asks_all_read, Reply, was_read, was_written,
  was_flushed, was_closed, all_read_is, End, io_of, run, new,
}
use async_h.TestUtils

-- The bytes on their way in one direction, and whether the sender has closed it.
pub record Queue : Type 0 where
  pub bytes : Bytes
  pub closed : Bool

unfoldable pub receive : Queue → ℕ → Queue × Poll Bytes
receive q n =
    if length q.bytes == 0
    then (q, (if q.closed then ready [] else pending))
    else (record q { bytes = drop n q.bytes }, ready (take n q.bytes))

unfoldable pub send : Queue → Bytes → Queue × Poll ℕ
send q buf =
    if q.closed then (q, ready 0) else (record q { bytes = q.bytes ++ buf }, ready (length buf))

module _ {Waker : Type 0} where
  abbrev pub contents : CloseableCursor Waker → Queue
  contents c = record { bytes = drop c.cursor c.written; closed = c.closed }

  -- The cursor is not behind the end of what was written.
  abbrev pub IsValid : CloseableCursor Waker → Type 0
  IsValid c = c.cursor ≤ length c.written

module _ {Waker : Type 0} where
  poll_read-receive :
      (c : CloseableCursor Waker) (w : Waker) (n : ℕ)
      → IsValid c
      → let (c', o) = Cursor.poll_read c w n in (contents c', o) ≡ receive (contents c) n
  unfolding Cursor.poll_read receive slice
  poll_read-receive c w n h =
      let k = min n (length c.written - c.cursor) in
      ground (
        arith,
        length-drop c.cursor c.written,
        drop-drop c.cursor k (c.cursor + k) c.written refl,
        drop-min n k (drop c.cursor c.written),
        take-min n k (drop c.cursor c.written),
      )

  poll_read-IsValid :
      (c : CloseableCursor Waker) (w : Waker) (n : ℕ)
      → IsValid c
      → IsValid (Cursor.poll_read c w n).0
  unfolding Cursor.poll_read slice
  poll_read-IsValid c w n h = ground arith

  poll_write-send :
      (c : CloseableCursor Waker) (buf : Bytes)
      → IsValid c
      → let (c', ws, o) = Cursor.poll_write c buf in (contents c', o) ≡ send (contents c) buf
  unfolding Cursor.poll_write send wake
  poll_write-send c buf h = ground (arith, drop-append_le c.cursor c.written buf h)

  poll_write-IsValid :
      (c : CloseableCursor Waker) (buf : Bytes) → IsValid c → IsValid (Cursor.poll_write c buf).0
  unfolding Cursor.poll_write wake
  poll_write-IsValid c buf h = ground (arith, length-append c.written buf)

  close-contents :
      (c : CloseableCursor Waker)
      → contents (Cursor.close c).0 ≡ record (contents c) { closed = true }
  unfolding Cursor.close wake
  close-contents c = refl

  close-IsValid : (c : CloseableCursor Waker) → IsValid c → IsValid (Cursor.close c).0
  unfolding Cursor.close wake
  close-IsValid c h = h

  current-contents :
      (c : CloseableCursor Waker) → IsValid c → current c ≡ (length (contents c).bytes == 0)
  unfolding current
  current-contents c h = ground (arith, length-drop c.cursor c.written)

-- The two directions.
pub record Link : Type 0 where
  pub to_client : Queue
  pub to_server : Queue

abbrev empty : Queue
empty = record { bytes = []; closed = false }

abbrev pub fresh : Link
fresh = record { to_client = empty; to_server = empty }

abbrev pub inbound : Link → End → Queue
inbound l End.client = l.to_client
inbound l End.server = l.to_server

abbrev pub outbound : Link → End → Queue
outbound l End.client = l.to_server
outbound l End.server = l.to_client

abbrev pub with_inbound : Link → End → Queue → Link
with_inbound l End.client q = record l { to_client = q }
with_inbound l End.server q = record l { to_server = q }

abbrev pub with_outbound : Link → End → Queue → Link
with_outbound l End.client q = record l { to_server = q }
with_outbound l End.server q = record l { to_client = q }

module _ {Waker : Type 0} where
  abbrev pub answer : Link → End → Call Waker → Link × Reply
  answer l e (reads w n) = let (q, o) = receive (inbound l e) n in (with_inbound l e q, was_read o)
  answer l e (writes buf) =
      let (q, o) = send (outbound l e) buf in (with_outbound l e q, was_written o)
  answer l e flushes = (l, was_flushed)
  answer l e closes = (with_outbound l e (record (outbound l e) { closed = true }), was_closed)
  answer l e asks_all_read = (l, all_read_is (length (outbound l e).bytes == 0))

  unfoldable pub answers : Link → List (End × Call Waker) → Link × List Reply
  unfolding receive send
  answers l [] = (l, [])
  answers l ((e, c) ∷ cs) =
      let (l', o) = answer l e c in let (l'', os) = answers l' cs in (l'', o ∷ os)

  abbrev pub link : Store Waker → Link
  link s = record { to_client = contents s.client; to_server = contents s.server }

  abbrev pub StoreIsValid : Store Waker → Type 0
  StoreIsValid s = IsValid s.client × IsValid s.server

  pub call-answer :
      (e : End) (c : Call Waker) (s : Store Waker)
      → StoreIsValid s
      → let (s', ws, o) = TestUtils.call s (io_of e) c in
        StoreIsValid s' × ((link s', o) ≡ answer (link s) e c)
  unfolding TestUtils.call TestUtils.poll_read TestUtils.poll_write TestUtils.close
      TestUtils.all_read
  call-answer End.client (reads w n) s (hc, hs) = (
    (poll_read-IsValid s.client w n hc, hs),
    ap (λ p. (with_inbound (link s) End.client p.0, was_read p.1))
        (poll_read-receive s.client w n hc),
  )
  call-answer End.server (reads w n) s (hc, hs) = (
    (hc, poll_read-IsValid s.server w n hs),
    ap (λ p. (with_inbound (link s) End.server p.0, was_read p.1))
        (poll_read-receive s.server w n hs),
  )
  call-answer End.client (writes buf) s (hc, hs) = (
    (hc, poll_write-IsValid s.server buf hs),
    ap (λ p. (with_outbound (link s) End.client p.0, was_written p.1))
        (poll_write-send s.server buf hs),
  )
  call-answer End.server (writes buf) s (hc, hs) = (
    (poll_write-IsValid s.client buf hc, hs),
    ap (λ p. (with_outbound (link s) End.server p.0, was_written p.1))
        (poll_write-send s.client buf hc),
  )
  call-answer End.client closes s (hc, hs) = (
    (hc, close-IsValid s.server hs),
    ap (λ q. (with_outbound (link s) End.client q, was_closed)) (close-contents s.server),
  )
  call-answer End.server closes s (hc, hs) = (
    (close-IsValid s.client hc, hs),
    ap (λ q. (with_outbound (link s) End.server q, was_closed)) (close-contents s.client),
  )
  call-answer End.client asks_all_read s (hc, hs) =
      ((hc, hs), ap (λ b. (link s, all_read_is b)) (current-contents s.server hs))
  call-answer End.server asks_all_read s (hc, hs) =
      ((hc, hs), ap (λ b. (link s, all_read_is b)) (current-contents s.client hc))
  call-answer e flushes s h = (h, refl)

  run-answers :
      (cs : List (End × Call Waker)) (s : Store Waker)
      → StoreIsValid s
      → let (s', ws, os) = run s cs in StoreIsValid s' × ((link s', os) ≡ answers (link s) cs)
  unfolding run answers
  run-answers [] s h = (h, refl)
  run-answers ((e, c) ∷ cs) s h =
      let (s', ws, o) = TestUtils.call s (io_of e) c in
      let (h', one) = call-answer e c s h in
      let (h'', rest) = run-answers cs s' h' in
      (
        h'',
        ap (λ p. (p.0, o ∷ p.1)) rest
            ∙ ap (λ p. let (l'', os) = answers p.0 cs in (l'', p.1 ∷ os)) one,
      )

  -- Any calls of the two ends that `TestIO::new` makes, in any order, are answered as two queues of
  -- bytes, one for each direction, answer them: a read takes the bytes at the front, as many as its
  -- buffer has room for; of an empty queue it gives none if the other end has closed, and is
  -- pending otherwise; a write to a closed queue takes none. The cursors hold the queues after the
  -- calls.
  pub run-new :
      (cs : List (End × Call Waker))
      → let (s, ws, os) = run (new {Waker = Waker}).1 cs in (link s, os) ≡ answers fresh cs
  run-new cs = (run-answers cs (new {Waker = Waker}).1 (omega arith, omega arith)).1
