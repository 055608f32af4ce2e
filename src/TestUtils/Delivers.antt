-- ===== src/TestUtils/Delivers.antt =====
-- tests/test_utils.rs: what arrives at an end of the connection is what the other end sent.
use async_h.Base.{
  ℕ, ◌≡◌, refl, sym, ap, subst, ◌∙◌, Bool, true, false, inl, inr, List, [], ◌∷◌, ◌++◌, append-nil,
  append_assoc, if◌then◌else◌, length, take, take-append-drop, take-length, ◌==◌, Bool-cases,
}
use async_h.Base.Bytes.{Bytes}
use async_h.Io.{Poll, ready, failed, pending, panic, out_of_fuel}
use async_h.TestUtils.Fifo.{
  Queue, Link, fresh, receive, send, inbound, answer, answers, run-new, contents, link,
}
use async_h.TestUtils.{
  Call, reads, writes, flushes, closes, asks_all_read, Reply, was_read, was_written, was_flushed,
  was_closed, all_read_is, End, io_of, run, new, deref, Store,
}

abbrev pub peer : End → End
peer End.client = End.server
peer End.server = End.client

abbrev pub same : End → End → Bool
same End.client End.client = true
same End.client End.server = false
same End.server End.client = false
same End.server End.server = true

abbrev pub given : Poll Bytes → Bytes
given (ready bytes) = bytes
given (failed e) = []
given pending = []
given panic = []
given out_of_fuel = []

abbrev pub accepted : Bytes → Poll ℕ → Bytes
accepted buf (ready n) = take n buf
accepted buf (failed e) = []
accepted buf pending = []
accepted buf panic = []
accepted buf out_of_fuel = []

receive-given : (q : Queue) (n : ℕ) → let (q', o) = receive q n in given o ++ q'.bytes ≡ q.bytes
unfolding receive
receive-given q n = elim (Bool-cases (length q.bytes == 0)) [
  | inl e ↦ rw e (closed-given q.closed)
  | inr e ↦ rw e (take-append-drop n q.bytes)
]
  where
    closed-given : (b : Bool) → given (if b then ready [] else pending) ++ q.bytes ≡ q.bytes
    closed-given true = refl
    closed-given false = refl

send-accepted :
    (q : Queue) (buf : Bytes) → let (q', o) = send q buf in q.bytes ++ accepted buf o ≡ q'.bytes
unfolding send
send-accepted q buf = elim (Bool-cases q.closed) [
  | inl e ↦ rw e (append-nil q.bytes)
  | inr e ↦ rw e (ap (◌++◌ q.bytes) (take-length buf))
]

-- What was there and is put, is what is taken and is left; so it is for one call and the others.
join :
    (before one more first left rest after : Bytes)
    → before ++ one ≡ first ++ left
    → left ++ more ≡ rest ++ after
    → before ++ (one ++ more) ≡ (first ++ rest) ++ after
join before one more first left rest after h k =
    sym (append_assoc before one more)
    ∙ ap (λ bs. bs ++ more) h
    ∙ append_assoc first left more
    ∙ ap (◌++◌ first) k
    ∙ sym (append_assoc first rest after)

module _ {Waker : Type 0} where
  -- The bytes that a call reads, by its reply, and those that it writes.
  abbrev pub taken : Call Waker → Reply → Bytes
  taken (reads w n) (was_read o) = given o
  taken (reads w n) (was_written o) = []
  taken (reads w n) was_flushed = []
  taken (reads w n) was_closed = []
  taken (reads w n) (all_read_is b) = []
  taken (writes buf) o = []
  taken flushes o = []
  taken closes o = []
  taken asks_all_read o = []

  abbrev pub put : Call Waker → Reply → Bytes
  put (writes buf) (was_written o) = accepted buf o
  put (writes buf) (was_read o) = []
  put (writes buf) was_flushed = []
  put (writes buf) was_closed = []
  put (writes buf) (all_read_is b) = []
  put (reads w n) o = []
  put flushes o = []
  put closes o = []
  put asks_all_read o = []

  -- All that an end reads, and all that it writes.
  unfoldable pub read_by : End → List (End × Call Waker) → List Reply → Bytes
  read_by e [] os = []
  read_by e (c ∷ cs) [] = []
  read_by e ((e', c) ∷ cs) (o ∷ os) = (if same e e' then taken c o else []) ++ read_by e cs os

  unfoldable pub sent_by : End → List (End × Call Waker) → List Reply → Bytes
  sent_by e [] os = []
  sent_by e (c ∷ cs) [] = []
  sent_by e ((e', c) ∷ cs) (o ∷ os) = (if same e e' then put c o else []) ++ sent_by e cs os

  answer-moves :
      (e e' : End) (c : Call Waker) (l : Link)
      → let (l', o) = answer l e' c in
        (inbound l e).bytes ++ (if same (peer e) e' then put c o else [])
        ≡ (if same e e' then taken c o else []) ++ (inbound l' e).bytes
  answer-moves End.client End.client (reads w n) l =
      append-nil _ ∙ sym (receive-given l.to_client n)
  answer-moves End.client End.server (reads w n) l = append-nil _
  answer-moves End.server End.client (reads w n) l = append-nil _
  answer-moves End.server End.server (reads w n) l =
      append-nil _ ∙ sym (receive-given l.to_server n)
  answer-moves End.client End.client (writes buf) l = append-nil _
  answer-moves End.client End.server (writes buf) l = send-accepted l.to_client buf
  answer-moves End.server End.client (writes buf) l = send-accepted l.to_server buf
  answer-moves End.server End.server (writes buf) l = append-nil _
  answer-moves End.client End.client flushes l = append-nil _
  answer-moves End.client End.server flushes l = append-nil _
  answer-moves End.server End.client flushes l = append-nil _
  answer-moves End.server End.server flushes l = append-nil _
  answer-moves End.client End.client closes l = append-nil _
  answer-moves End.client End.server closes l = append-nil _
  answer-moves End.server End.client closes l = append-nil _
  answer-moves End.server End.server closes l = append-nil _
  answer-moves End.client End.client asks_all_read l = append-nil _
  answer-moves End.client End.server asks_all_read l = append-nil _
  answer-moves End.server End.client asks_all_read l = append-nil _
  answer-moves End.server End.server asks_all_read l = append-nil _

  answers-move :
      (e : End) (cs : List (End × Call Waker)) (l : Link)
      → let (l', os) = answers l cs in
        (inbound l e).bytes ++ sent_by (peer e) cs os ≡ read_by e cs os ++ (inbound l' e).bytes
  unfolding answers read_by sent_by
  answers-move e [] l = append-nil _
  answers-move e ((e', c) ∷ cs) l =
      let (l', o) = answer l e' c in
      let (l'', os) = answers l' cs in
      join (inbound l e).bytes (if same (peer e) e' then put c o else []) (sent_by (peer e) cs os)
        (if same e e' then taken c o else []) (inbound l' e).bytes (read_by e cs os)
        (inbound l'' e).bytes (answer-moves e e' c l) (answers-move e cs l')

  from_fresh :
      (e : End) (cs : List (End × Call Waker))
      → let (l, os) = answers fresh cs in
        read_by e cs os ++ (inbound l e).bytes ≡ sent_by (peer e) cs os
  from_fresh End.client cs = sym (answers-move End.client cs fresh)
  from_fresh End.server cs = sym (answers-move End.server cs fresh)

  contents-inbound :
      (s : Store Waker) (e : End) → contents (deref s (io_of e).read) ≡ inbound (link s) e
  contents-inbound s End.client = refl
  contents-inbound s End.server = refl

  -- In any calls of the two ends that `TestIO::new` makes, in any order, what an end reads is
  -- what the other end writes, byte for byte and in order, but for the bytes that are still in the
  -- cursor.
  pub run-delivers :
      (e : End) (cs : List (End × Call Waker))
      → let (s, ws, os) = run (new {Waker = Waker}).1 cs in
        read_by e cs os ++ (contents (deref s (io_of e).read)).bytes ≡ sent_by (peer e) cs os
  run-delivers e cs =
      let (s, ws, os) = run (new {Waker = Waker}).1 cs in
      ap (λ q. read_by e cs os ++ q.bytes) (contents-inbound s e)
      ∙ subst (λ p. read_by e cs p.1 ++ (inbound p.0 e).bytes ≡ sent_by (peer e) cs p.1)
          (sym (run-new cs)) (from_fresh e cs)
