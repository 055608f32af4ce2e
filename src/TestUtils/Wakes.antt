-- ===== src/TestUtils/Wakes.antt =====
-- tests/test_utils.rs: an end that waits for bytes is woken when there is something for it.
use mathlib.Core.List.{Memᴰ}
use mathlib.Core.List.Memᴰ
use async_h.Base.{
  ℕ, ◌≡◌, refl, arith, Bool, true, false, not, ◌&&◌, inl, inr, ◌⊎◌, List, [], ◌∷◌, some, ltb,
  length,
}
use async_h.Base.Bytes.{Bytes}
use async_h.Base.Bytes.Slices.{slice}
use async_h.Io.{pending}
use async_h.TestUtils.Cursor.{CloseableCursor, wake}
use async_h.TestUtils.Cursor
use async_h.TestUtils.Delivers.{same}
use async_h.TestUtils.{
  Store, deref, Call, reads, writes, flushes, closes, asks_all_read, End, io_of, run,
}
use async_h.TestUtils

module _ {Waker : Type 0} where
  -- The cursor keeps the waker, has no byte left, and is open.
  pub record Asleep (c : CloseableCursor Waker) (w : Waker) : Type 0 where
    pub kept : c.waker ≡ some w
    pub at_end : ltb c.cursor (length c.written) ≡ false
    pub open_end : c.closed ≡ false

  pub poll_read-Asleep :
      (c : CloseableCursor Waker) (w : Waker) (n : ℕ)
      → (Cursor.poll_read c w n).1 ≡ pending
      → Asleep (Cursor.poll_read c w n).0 w
  unfolding Cursor.poll_read slice
  poll_read-Asleep c w n h = record {
    kept = ground arith;
    at_end = ground arith;
    open_end = ground arith;
  }

  Asleep-pending :
      (c : CloseableCursor Waker) {w : Waker}
      → Asleep c w
      → (w' : Waker) (n : ℕ) → (Cursor.poll_read c w' n).1 ≡ pending
  unfolding Cursor.poll_read
  Asleep-pending c a w' n = rw (a.at_end, a.open_end) refl

  poll_write-wakes :
      (c : CloseableCursor Waker) {w : Waker} (buf : Bytes)
      → Asleep c w
      → Memᴰ w (Cursor.poll_write c buf).1
  unfolding Cursor.poll_write wake
  poll_write-wakes c buf a = rw (a.open_end, a.kept) (Memᴰ.head refl)

  close-wakes : (c : CloseableCursor Waker) {w : Waker} → Asleep c w → Memᴰ w (Cursor.close c).1
  unfolding Cursor.close wake
  close-wakes c a = rw a.kept (Memᴰ.head refl)

  abbrev pub is_read : Call Waker → Bool
  is_read (reads w n) = true
  is_read (writes buf) = false
  is_read flushes = false
  is_read closes = false
  is_read asks_all_read = false

  -- Whether an end makes no read in the calls.
  unfoldable pub reads_none : End → List (End × Call Waker) → Bool
  reads_none e [] = true
  reads_none e ((e', c) ∷ cs) = not (same e e' && is_read c) && reads_none e cs

  call-Asleep :
      (e e' : End) (c : Call Waker) (s : Store Waker) (w : Waker)
      → not (same e e' && is_read c) ≡ true
      → Asleep (deref s (io_of e).read) w
      → let (s', ws, o) = TestUtils.call s (io_of e') c in
        Memᴰ w ws ⊎ Asleep (deref s' (io_of e).read) w
  unfolding TestUtils.call TestUtils.poll_read TestUtils.poll_write TestUtils.close
      TestUtils.all_read
  call-Asleep End.client End.client (reads w' n) s w h a = cc
  call-Asleep End.server End.server (reads w' n) s w h a = cc
  call-Asleep End.client End.server (reads w' n) s w h a = inr a
  call-Asleep End.server End.client (reads w' n) s w h a = inr a
  call-Asleep End.client End.client (writes buf) s w h a = inr a
  call-Asleep End.server End.server (writes buf) s w h a = inr a
  call-Asleep End.client End.server (writes buf) s w h a = inl (poll_write-wakes s.client buf a)
  call-Asleep End.server End.client (writes buf) s w h a = inl (poll_write-wakes s.server buf a)
  call-Asleep End.client End.client closes s w h a = inr a
  call-Asleep End.server End.server closes s w h a = inr a
  call-Asleep End.client End.server closes s w h a = inl (close-wakes s.client a)
  call-Asleep End.server End.client closes s w h a = inl (close-wakes s.server a)
  call-Asleep e e' flushes s w h a = inr a
  call-Asleep e e' asks_all_read s w h a = inr a

  run-Asleep :
      (e : End) (cs : List (End × Call Waker)) (s : Store Waker) (w : Waker)
      → reads_none e cs ≡ true
      → Asleep (deref s (io_of e).read) w
      → let (s', ws, os) = run s cs in Memᴰ w ws ⊎ Asleep (deref s' (io_of e).read) w
  unfolding run reads_none
  run-Asleep e [] s w h a = inr a
  run-Asleep e ((e', c) ∷ cs) s w h a =
      let (s', ws, o) = TestUtils.call s (io_of e') c in
      elim (call-Asleep e e' c s w (ground (arith, h)) a) [
        | inl m ↦ inl (Memᴰ.append_left (run s' cs).1 m)
        | inr a' ↦ elim (run-Asleep e cs s' w (ground (arith, h)) a') [
          | inl m ↦ inl (Memᴰ.append_right ws m)
          | inr a'' ↦ inr a''
        ]
      ]

  -- If a read of an end is pending, then after any calls of the two ends that have no read of
  -- that end among them, either its waker has been woken, or a read of that end would still be
  -- pending.
  pub run-Wakes :
      (s : Store Waker) (e : End) (w : Waker) (n : ℕ) (cs : List (End × Call Waker))
      → (TestUtils.poll_read s (io_of e) w n).1 ≡ pending
      → reads_none e cs ≡ true
      → let (s', ws, os) = run (TestUtils.poll_read s (io_of e) w n).0 cs in
        Memᴰ w ws ⊎ ((w' : Waker) (n' : ℕ) → (TestUtils.poll_read s' (io_of e) w' n').1 ≡ pending)
  unfolding TestUtils.poll_read
  run-Wakes s e w n cs h none =
      let s0 = (TestUtils.poll_read s (io_of e) w n).0 in
      elim (run-Asleep e cs s0 w none (after e h)) [
        | inl m ↦ inl m
        | inr a ↦ inr (λ w' n'. Asleep-pending (deref (run s0 cs).0 (io_of e).read) a w' n')
      ]
    where
      after :
          (e' : End)
          → (TestUtils.poll_read s (io_of e') w n).1 ≡ pending
          → Asleep (deref (TestUtils.poll_read s (io_of e') w n).0 (io_of e').read) w
      after End.client p = poll_read-Asleep s.client w n p
      after End.server p = poll_read-Asleep s.server w n p
