-- ===== src/TestUtils/Reader.antt =====
-- tests/test_utils.rs: an end of the connection as the reader that src/ is given, and the chunked
-- decoder of src/chunked/decoder.rs on it.
use async_h.Base.{
  ℕ, ◌+◌, ◌-◌, ◌≤◌, ◌<◌, min, ◌≡◌, refl, sym, ap, ◌∙◌, subst, arith, Bool, true, false, not, ◌&&◌,
  inl, inr, List, [], ◌∷◌, ◌++◌, some, ltb, if◌then◌else◌, length, take, drop, length-take,
  length-drop, take-append-drop, drop-drop, Bool-cases,
}
use async_h.Base.Bytes.{Bytes}
use async_h.Base.Bytes.Slices.{slice}
use async_h.Io.{Poll, ready, pending, failed, panic, out_of_fuel, Read, Stream, Serves}
use async_h.Chunked.Wire.{IsChunked}
use async_h.Chunked.Decoder.{Trailing, done}
use async_h.Chunked.Decoder as Chunked
use async_h.Chunked.Decoder.Owes.{IsTrailer}
use async_h.Chunked.Decoder.Waits.{OnPending}
use async_h.Chunked.RoundTrip.{AllPositive, drain, drain-payload}
use async_h.TestUtils.Cursor.{CloseableCursor, poll_read}
use async_h.TestUtils.Delivers.{peer, same, taken, read_by, sent_by, run-delivers}
use async_h.TestUtils.Wakes.{Asleep, is_read, reads_none, poll_read-Asleep}
use async_h.TestUtils.{Call, Reply, End, io_of, run, new, deref}

nil_of_length : (xs : Bytes) → length xs ≡ 0 → xs ≡ []
nil_of_length [] h = refl
nil_of_length (x ∷ xs) h = absurd (omega arith)

module _ {Waker : Type 0} (w : Waker) where
  -- A task that reads with its waker.
  abbrev pub cursor_io : Read (CloseableCursor Waker)
  cursor_io = record { poll_read = λ c n. poll_read c w n }

  abbrev pub unread : CloseableCursor Waker → Bytes
  unread c = drop c.cursor c.written

  abbrev room : CloseableCursor Waker → ℕ → ℕ
  room c n = min n (length c.written - c.cursor)

  poll_read-copied :
      (c : CloseableCursor Waker) (n : ℕ)
      → ltb c.cursor (length c.written) ≡ true
      → poll_read c w n
        ≡ (record c { cursor = c.cursor + room c n }, ready (take (room c n) (unread c)))
  unfolding poll_read slice
  poll_read-copied c n h = ground arith

  poll_read-ended :
      (c : CloseableCursor Waker) (n : ℕ)
      → ltb c.cursor (length c.written) ≡ false
      → poll_read c w n
        ≡ (if c.closed then (c, ready []) else (record c { waker = some w }, pending))
  unfolding poll_read
  poll_read-ended c n h = rw h refl

  take-positive : (k : ℕ) (xs : Bytes) → take k xs ≡ [] → 0 < k → 0 < length xs → ⊥
  take-positive k xs e h g = omega (arith, length-take k xs, ap length e)

  copied-Serves :
      (c : CloseableCursor Waker) (n : ℕ)
      → c.cursor < length c.written
      → Serves unread
          (unread c)
          n
          (record c { cursor = c.cursor + room c n }, ready (take (room c n) (unread c)))
  copied-Serves c n h =
      let k = room c n in
      (
        sym (take-append-drop k (unread c))
            ∙ ap (λ back. take k (unread c) ++ back)
                (sym (drop-drop c.cursor k (c.cursor + k) c.written refl)),
        omega (arith, length-take k (unread c)),
        λ e positive. absurd (
            take-positive k (unread c) e (omega arith)
              (omega (arith, length-drop c.cursor c.written))),
      )

  ended-Serves :
      (c : CloseableCursor Waker) (n : ℕ) (b : Bool)
      → length c.written ≤ c.cursor
      → Serves unread
          (unread c)
          n
          (if b then (c, ready []) else (record c { waker = some w }, pending))
  ended-Serves c n true h = (
    refl,
    omega arith,
    λ e positive. nil_of_length (unread c) (omega (arith, length-drop c.cursor c.written)),
  )
  ended-Serves c n false h = refl

  pub cursor-Serves :
      (c : CloseableCursor Waker) (n : ℕ) → Serves unread (unread c) n (poll_read c w n)
  cursor-Serves c n = elim (Bool-cases (ltb c.cursor (length c.written))) [
    | inl e ↦
        subst (λ o. Serves unread (unread c) n o) (sym (poll_read-copied c n e))
          (copied-Serves c n (ground arith))
    | inr e ↦
        subst (λ o. Serves unread (unread c) n o) (sym (poll_read-ended c n e))
          (ended-Serves c n c.closed (ground arith))
  ]

  abbrev pub cursor_stream : Stream cursor_io
  cursor_stream = record { rest = unread; serves = cursor-Serves }

  -- A read that is pending leaves the waker in the cursor.
  pub cursor-OnPending :
      (c : CloseableCursor Waker) (n : ℕ) → OnPending (λ c'. Asleep c' w) (poll_read c w n)
  cursor-OnPending c n = go (poll_read c w n) (poll_read-Asleep c w n)
    where
      go :
          (o : CloseableCursor Waker × Poll Bytes)
          → (o.1 ≡ pending → Asleep o.0 w)
          → OnPending (λ c'. Asleep c' w) o
      go (c', ready bytes) h = tt
      go (c', pending) h = h refl
      go (c', failed e) h = tt
      go (c', panic) h = tt
      go (c', out_of_fuel) h = tt

module _ {Waker : Type 0} where
  not_read-taken :
      (b : Bool) (c : Call Waker) (o : Reply)
      → not (b && is_read c) ≡ true
      → (if b then taken c o else []) ≡ []
  not_read-taken false c o h = refl
  not_read-taken true (Call.reads w n) o h = cc
  not_read-taken true (Call.writes buf) o h = refl
  not_read-taken true Call.flushes o h = refl
  not_read-taken true Call.closes o h = refl
  not_read-taken true Call.asks_all_read o h = refl

  reads_none-read_by :
      (e : End) (cs : List (End × Call Waker)) (os : List Reply)
      → reads_none e cs ≡ true
      → read_by e cs os ≡ []
  unfolding reads_none read_by
  reads_none-read_by e [] os h = refl
  reads_none-read_by e (c ∷ cs) [] h = refl
  reads_none-read_by e ((e', c) ∷ cs) (o ∷ os) h =
      rw
        (
          not_read-taken (same e e') c o (ground (arith, h)),
          reads_none-read_by e cs os (ground (arith, h)),
        )
        refl

-- If the bytes that one end has written in any calls, among them no read of the other end,
-- are a chunked message, then a new decoder that reads at the other end returns its payload until
-- it is done, on buffers that are not empty.
pub drain-sent :
    {Waker Trailers Sender Sending : Type 0} (w : Waker) (ext : Trailing Trailers Sender Sending)
    (e : End) (cs : List (End × Call Waker)) (sender : Sender) (ns : List ℕ) (p : Bytes)
    → let (s, ws, os) = run (new {Waker = Waker}).1 cs in
      let d = Chunked.new (deref s (io_of e).read) sender in
      let (d', out) = drain ext (cursor_io w) (cursor_stream w) d ns in
      reads_none e cs ≡ true
      → AllPositive ns
      → IsChunked (IsTrailer ext) (sent_by (peer e) cs os) p
      → d'.state ≡ done
      → out ≡ p
drain-sent {Waker} w ext e cs sender ns p none positive message finished =
    let (s, ws, os) = run (new {Waker = Waker}).1 cs in
    drain-payload ext (cursor_io w) (cursor_stream w) (deref s (io_of e).read) sender ns p positive
      (subst (λ bs. IsChunked (IsTrailer ext) bs p)
        (sym (run-delivers e cs)
          ∙ ap (λ front. front ++ unread w (deref s (io_of e).read))
              (reads_none-read_by e cs os none))
        message)
      finished
