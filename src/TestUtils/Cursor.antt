-- ===== src/TestUtils/Cursor.antt =====
-- tests/test_utils.rs: `CloseableCursor`, one direction of the connection of the tests. Each
-- operation holds the lock from its start to its end, so that it is one function of the contents
-- `CloseableCursorInner`; `written` is the field `data`. A `Waker` is foreign: an operation
-- gives those that it wakes.
use async_h.Base.{
  ℕ, ◌+◌, ◌-◌, min, Bool, true, false, List, [], ◌∷◌, ◌++◌, Option, none, some, Result, ok, err,
  panic, ltb, ◌==◌, if◌then◌else◌, length,
}
use async_h.Base.Bytes.{Bytes}
use async_h.Base.Bytes.Slices.{slice}
use async_h.Io.{Poll, ready, failed, pending}
use async_h.Io as Io

pub record CloseableCursor (Waker : Type 0) : Type 0 where
  pub written : Bytes
  pub cursor : ℕ
  pub waker : Option Waker
  pub closed : Bool

module _ {Waker : Type 0} where
  -- `CloseableCursor::default()`
  abbrev pub default : CloseableCursor Waker
  default = record { written = []; cursor = 0; waker = none; closed = false }

  unfoldable pub len : CloseableCursor Waker → ℕ
  len inner = length inner.written

  unfoldable pub is_empty : CloseableCursor Waker → Bool
  unfolding len
  is_empty inner = len inner == 0

  unfoldable pub current : CloseableCursor Waker → Bool
  current inner = length inner.written == inner.cursor

  abbrev pub woken : Option Waker → List Waker
  woken none = []
  woken (some w) = w ∷ []

  -- `if let Some(waker) = inner.waker.take() { waker.wake(); }`
  unfoldable pub wake : CloseableCursor Waker → CloseableCursor Waker × List Waker
  wake inner = (record inner { waker = none }, woken inner.waker)

  unfoldable pub close : CloseableCursor Waker → CloseableCursor Waker × List Waker
  unfolding wake
  close inner = wake (record inner { closed = true })

  -- The copy of the bytes from the cursor on, and the advance.
  abbrev pub copied : CloseableCursor Waker → ℕ → Result Bytes → CloseableCursor Waker × Poll Bytes
  copied inner bytes_to_copy (ok bytes) =
      (record inner { cursor = inner.cursor + bytes_to_copy }, ready bytes)
  copied inner bytes_to_copy (err e) = (inner, Io.panic)
  copied inner bytes_to_copy panic = (inner, Io.panic)

  -- `n` is the length of the buffer.
  unfoldable pub poll_read : CloseableCursor Waker → Waker → ℕ → CloseableCursor Waker × Poll Bytes
  unfolding slice
  poll_read inner w n =
      let bytes_to_copy = min n (length inner.written - inner.cursor) in
      let bytes = slice inner.written inner.cursor (inner.cursor + bytes_to_copy) in
      if ltb inner.cursor (length inner.written)
      then copied inner bytes_to_copy bytes
      else if inner.closed
      then (inner, ready [])
      else (record inner { waker = some w }, pending)

  unfoldable pub poll_write :
      CloseableCursor Waker → Bytes → CloseableCursor Waker × List Waker × Poll ℕ
  unfolding wake
  poll_write inner buf =
      let (inner', ws) = wake (record inner { written = inner.written ++ buf }) in
      if inner.closed then (inner, [], ready 0) else (inner', ws, ready (length buf))

  -- `std::io::Write`, the writing of a test that is no task: it tests for no closing, and wakes
  -- nothing.
  unfoldable pub write : CloseableCursor Waker → Bytes → CloseableCursor Waker × ℕ
  write inner buf = (record inner { written = inner.written ++ buf }, length buf)
