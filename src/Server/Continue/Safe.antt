-- ===== src/Server/Continue/Safe.antt =====
-- However the polls interleave, `CONTINUE_RESPONSE` is written at most once, and not before a read.
use async_h.Base.{
  ℕ, suc, ◌+◌, ◌≡◌, ◌≢◌, refl, sym, ap, ◌∙◌, Bool, true, false, List, [], ◌∷◌, ◌++◌, arith,
  append_assoc, append-nil,
}
use async_h.Base.Bytes.{Bytes}
use async_h.Io.{Read}
use async_h.Notify.{
  ReadNotifier, BufRead, Call, reads, fills, consumes, call, notify, poll_read, poll_fill_buf,
  consume, Channel, flag, call-once,
}
use async_h.Server.Decode.{continue_response}
use async_h.Server.Continue.{
  RecvOutcome, message, closed, empty, Task, not_spawned, waiting, finished, writing, Writer,
  continue_task, server, Exchange, spawn, after_recv, after_write, start, received, Step, receives,
  continues, gives_up, responds, Reach, here, next, continued, responded, Taken,
}
use async_h.Server.Continue as Continue

continued-append : (a b : List (Writer × Bytes)) → continued (a ++ b) ≡ continued a ++ continued b
unfolding continued
continued-append [] b = refl
continued-append ((continue_task, bytes) ∷ a) b =
    ap (λ (t : Bytes). bytes ++ t) (continued-append a b)
    ∙ sym (append_assoc bytes (continued a) (continued b))
continued-append ((server, bytes) ∷ a) b = continued-append a b

responded-append : (a b : List (Writer × Bytes)) → responded (a ++ b) ≡ responded a ++ responded b
unfolding responded
responded-append [] b = refl
responded-append ((continue_task, bytes) ∷ a) b = responded-append a b
responded-append ((server, bytes) ∷ a) b =
    ap (λ (t : Bytes). bytes ++ t) (responded-append a b)
    ∙ sym (append_assoc bytes (responded a) (responded b))

-- One more write.
module _ (ws : List (Writer × Bytes)) (front : Bytes) where
  pub continued-task : continued (ws ++ (continue_task, front) ∷ []) ≡ continued ws ++ front
  unfolding continued
  continued-task =
      continued-append ws ((continue_task, front) ∷ [])
      ∙ ap (λ o. continued ws ++ o) (append-nil front)

  continued-server : continued (ws ++ (server, front) ∷ []) ≡ continued ws
  unfolding continued
  continued-server = continued-append ws ((server, front) ∷ []) ∙ append-nil (continued ws)

  responded-task : responded (ws ++ (continue_task, front) ∷ []) ≡ responded ws
  unfolding responded
  responded-task = responded-append ws ((continue_task, front) ∷ []) ∙ append-nil (responded ws)

  responded-server : responded (ws ++ (server, front) ∷ []) ≡ responded ws ++ front
  unfolding responded
  responded-server =
      responded-append ws ((server, front) ∷ []) ∙ ap (λ o. responded ws ++ o) (append-nil front)

-- What holds of the task, of the messages held, of `has_been_read` and of the bytes written so far.
abbrev pub TaskIn : Bool → Task → ℕ → Bool → Bytes → Type 0
TaskIn expects not_spawned held read out = (expects ≡ false) × (out ≡ [])
TaskIn expects waiting held read out = (expects ≡ true) × (held ≡ flag read) × (out ≡ [])
TaskIn expects (writing left) held read out =
    (expects ≡ true) × (read ≡ true) × (continue_response ≡ out ++ left)
TaskIn expects finished held read out =
    (expects ≡ true) × (out ≢ [] → read ≡ true) × ((left : Bytes) × continue_response ≡ out ++ left)

-- The bytes of the task are a beginning of the one response, and there are none unless the client
-- expects them and the body has been read. Those of the server are its response, as far as written.
pub record Continues {B Sender : Type 0} (expects : Bool) (response : Bytes) (s : Exchange B Sender)
    : Type 0 where
  pub once : (left : Bytes) × continue_response ≡ continued s.written ++ left
  pub expected : continued s.written ≢ [] → (expects ≡ true) × (s.body.has_been_read ≡ true)
  pub answer : response ≡ responded s.written ++ s.response

module _ {B Sender : Type 0} (io : Read B) (buf_io : BufRead B) (try_send : Sender → Sender × Bool)
    (recv : Sender → Sender × RecvOutcome) (channel : Channel try_send)
    (takes : (s : Sender) → Taken channel.count (channel.count s) (recv s)) where
  pub record IsKept (expects : Bool) (response : Bytes) (s : Exchange B Sender) : Type 0 where
    pub task_in :
        TaskIn expects s.task
          (channel.count s.body.sender)
          s.body.has_been_read
          (continued s.written)
    pub answer : response ≡ responded s.written ++ s.response

  call-has_been_read :
      (r : ReadNotifier B Sender) (c : Call)
      → r.has_been_read ≡ true
      → (call io buf_io try_send r c).0.has_been_read ≡ true
  unfolding poll_read notify poll_fill_buf consume
  call-has_been_read r (reads n) h = rw (h, notify) refl
  call-has_been_read r fills h = h
  call-has_been_read r (consumes amt) h = h

  read-TaskIn :
      (expects : Bool) (t : Task) (held held' : ℕ) (read read' : Bool) (out : Bytes)
      → held' + flag read ≡ held + flag read'
      → (read ≡ true → read' ≡ true)
      → TaskIn expects t held read out
      → TaskIn expects t held' read' out
  read-TaskIn expects not_spawned held held' read read' out e stays i = i
  read-TaskIn expects waiting held held' read read' out e stays (x, h, w) = (x, omega (arith, e), w)
  read-TaskIn expects (writing left) held held' read read' out e stays (x, r, w) = (x, stays r, w)
  read-TaskIn expects finished held held' read read' out e stays (x, r, w) =
      (x, λ some_out. stays (r some_out), w)

  positive_flag : (read : Bool) (n : ℕ) → suc n ≡ flag read → read ≡ true
  positive_flag true n e = refl
  positive_flag false n e = absurd (omega arith)

  recv-TaskIn :
      (expects read : Bool) (before : ℕ) (out : Bytes) (r : Sender × RecvOutcome)
      → Taken channel.count before r
      → TaskIn expects waiting before read out
      → TaskIn expects (after_recv r.1) (channel.count r.0) read out
  unfolding after_recv
  recv-TaskIn expects read before out (s, message) e (x, h, w) =
      (x, positive_flag read (channel.count s) (e ∙ h), sym (ap (λ o. o ++ continue_response) w))
  recv-TaskIn expects read before out (s, closed) e (x, h, w) = (
    x,
    λ some_out. absurd (some_out w),
    (continue_response, sym (ap (λ o. o ++ continue_response) w)),
  )
  recv-TaskIn expects read before out (s, empty) e (x, h, w) = (x, e ∙ h, w)

  write-TaskIn :
      (expects : Bool) (held : ℕ) (read : Bool) (out front back : Bytes)
      → TaskIn expects (writing (front ++ back)) held read out
      → TaskIn expects (after_write back) held read (out ++ front)
  unfolding after_write
  write-TaskIn expects held read out front [] (x, r, w) =
      (x, λ some_out. r, ([], w ∙ sym (append_assoc out front [])))
  write-TaskIn expects held read out front (byte ∷ back) (x, r, w) =
      (x, r, w ∙ sym (append_assoc out front (byte ∷ back)))

  Step-IsKept :
      (expects : Bool) (response : Bytes) {s t : Exchange B Sender}
      → Step io buf_io try_send recv s t
      → IsKept expects response s
      → IsKept expects response t
  Step-IsKept expects response (Continue.reads s c) k = record {
    task_in =
        read-TaskIn expects s.task (channel.count s.body.sender) _ s.body.has_been_read _
          (continued s.written) (call-once io buf_io try_send channel s.body c)
          (call-has_been_read s.body c) k.task_in;
    answer = k.answer;
  }
  Step-IsKept expects response (receives s e) k = record {
    task_in =
        recv-TaskIn expects s.body.has_been_read (channel.count s.body.sender) (continued s.written)
          (recv s.body.sender) (takes s.body.sender) (rw e at k.task_in);
    answer = k.answer;
  }
  Step-IsKept expects response (continues s front back e some_front) k = record {
    task_in = rw (continued-task s.written front) (
        write-TaskIn expects (channel.count s.body.sender) s.body.has_been_read
          (continued s.written) front back (rw e at k.task_in));
    answer = k.answer ∙ ap (λ o. o ++ s.response) (sym (responded-task s.written front));
  }
  Step-IsKept expects response (gives_up s left e) k =
      let (x, r, w) = rw e at k.task_in in
      record { task_in = (x, λ some_out. r, (left, w)); answer = k.answer }
  Step-IsKept expects response (responds s front back e) k = record {
    task_in = rw (continued-server s.written front) k.task_in;
    answer =
        k.answer
        ∙ ap (λ o. responded s.written ++ o) e
        ∙ sym (append_assoc (responded s.written) front back)
        ∙ ap (λ o. o ++ back) (sym (responded-server s.written front));
  }

  final :
      (expects read : Bool) (t : Task) (held : ℕ) (out : Bytes)
      → TaskIn expects t held read out
      → ((left : Bytes) × continue_response ≡ out ++ left)
        × (out ≢ [] → (expects ≡ true) × (read ≡ true))
  final expects read not_spawned held out (x, w) = (
    (continue_response, sym (ap (λ o. o ++ continue_response) w)),
    λ some_out. absurd (some_out w),
  )
  final expects read waiting held out (x, h, w) = (
    (continue_response, sym (ap (λ o. o ++ continue_response) w)),
    λ some_out. absurd (some_out w),
  )
  final expects read (writing left) held out (x, r, w) = ((left, w), λ some_out. (x, r))
  final expects read finished held out (x, r, w) = (w, λ some_out. (x, r some_out))

  pub start-IsKept :
      (expects : Bool) (reader : B) (sender : Sender) (response : Bytes)
      → channel.count sender ≡ 0
      → IsKept expects response (start io buf_io try_send recv expects reader sender response)
  unfolding start continued responded
  start-IsKept true reader sender response h = record { task_in = (refl, h, refl); answer = refl }
  start-IsKept false reader sender response h = record { task_in = (refl, refl); answer = refl }

  pub Reach-IsKept :
      (expects : Bool) (response : Bytes) {s t : Exchange B Sender}
      → IsKept expects response s
      → Reach io buf_io try_send recv s t
      → IsKept expects response t
  Reach-IsKept expects response k here = k
  Reach-IsKept expects response k (next r step) =
      Step-IsKept expects response step (Reach-IsKept expects response k r)

  -- In every state that any interleaving of the polls reaches, from an empty channel that keeps its
  -- promises: what the task has written is a beginning of one `CONTINUE_RESPONSE`; it has written
  -- nothing unless the client expects it and the body has been read; and the server's own bytes are
  -- the response in its order, as far as it has been written.
  pub Reach-Continues :
      (expects : Bool) (reader : B) (sender : Sender) (response : Bytes) {t : Exchange B Sender}
      → channel.count sender ≡ 0
      → Reach io buf_io try_send recv
          (start io buf_io try_send recv expects reader sender response)
          t
      → Continues expects response t
  Reach-Continues expects reader sender response {t} h r =
      let k = Reach-IsKept expects response (start-IsKept expects reader sender response h) r in
      let (once, expected) =
        final expects t.body.has_been_read t.task (channel.count t.body.sender)
          (continued t.written) k.task_in in
      record { once = once; expected = expected; answer = k.answer }
