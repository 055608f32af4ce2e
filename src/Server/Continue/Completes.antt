-- ===== src/Server/Continue/Completes.antt =====
-- The task of `100-continue` has its way: once the body has been read, it can write its response.
use async_h.Base.{◌<◌, ◌≡◌, ◌≢◌, refl, sym, ap, ◌∙◌, Bool, true, [], ◌∷◌, ◌++◌, arith, append-nil}
use async_h.Base.Bytes.{Bytes}
use async_h.Io.{Read}
use async_h.Notify.{BufRead, Channel, flag}
use async_h.Server.Decode.{continue_response}
use async_h.Server.Continue.{
  RecvOutcome, message, Task, not_spawned, waiting, finished, writing, Exchange, after_recv, start,
  received, Step, receives, continues, Reach, here, next, continued, Taken,
}
use async_h.Server.Continue.Safe.{TaskIn, start-IsKept, Reach-IsKept, continued-task}

module _ {B Sender : Type 0} (io : Read B) (buf_io : BufRead B) (try_send : Sender → Sender × Bool)
    (recv : Sender → Sender × RecvOutcome) where
  -- One step, and others after it.
  before_Reach :
      {s t u : Exchange B Sender}
      → Step io buf_io try_send recv s t
      → Reach io buf_io try_send recv t u
      → Reach io buf_io try_send recv s u
  before_Reach step here = next here step
  before_Reach step (next r last) = next (before_Reach step r) last

  abbrev pub Completes : Exchange B Sender → Type 0
  Completes s =
      (u : Exchange B Sender) × Reach io buf_io try_send recv s u
      × (continued u.written ≡ continue_response)

  -- What is left is taken by one write.
  writing-Completes :
      (s : Exchange B Sender) (left : Bytes)
      → s.task ≡ writing left
      → continue_response ≡ continued s.written ++ left
      → Completes s
  writing-Completes s [] e w = (s, here, sym (w ∙ append-nil (continued s.written)))
  writing-Completes s (byte ∷ left) e w = (
    _,
    next here (
        continues s (byte ∷ left) [] (e ∙ ap writing (sym (append-nil (byte ∷ left)))) (λ h. cc h)),
    continued-task s.written (byte ∷ left) ∙ sym w,
  )

  module _ (channel : Channel try_send)
      (takes : (s : Sender) → Taken channel.count (channel.count s) (recv s))
      (arrives : (s : Sender) → 0 < channel.count s → (recv s).1 ≡ message) where
    after-Completes :
        {s t : Exchange B Sender} → Step io buf_io try_send recv s t → Completes t → Completes s
    after-Completes step (u, r, w) = (u, before_Reach step r, w)

    task-Completes :
        (s : Exchange B Sender) (t : Task)
        → s.task ≡ t
        → TaskIn true t (channel.count s.body.sender) s.body.has_been_read (continued s.written)
        → s.body.has_been_read ≡ true
        → t ≢ finished
        → Completes s
    task-Completes s not_spawned e (x, w) read going = absurd (cc x)
    task-Completes s finished e i read going = absurd (going refl)
    task-Completes s (writing left) e (x, r, w) read going = writing-Completes s left e w
    task-Completes s waiting e (x, held, w) read going =
        let got : (recv s.body.sender).1 ≡ message =
          arrives s.body.sender (omega (arith, held, ap flag read)) in
        after-Completes (receives s e) (
          writing-Completes (received io buf_io try_send recv s (recv s.body.sender))
            continue_response (unfold after_recv in ap after_recv got)
            (sym (ap (λ o. o ++ continue_response) w)))

    -- For a channel that keeps its promises and gives up the message that it holds: from every
    -- reachable state in which the client expects it, the body has been read and the task has not
    -- ended, steps lead to one in which the whole of `CONTINUE_RESPONSE` has been written, once.
    pub Reach-Completes :
        (reader : B) (sender : Sender) (response : Bytes) (t : Exchange B Sender)
        → channel.count sender ≡ 0
        → Reach io buf_io try_send recv
            (start io buf_io try_send recv true reader sender response)
            t
        → t.body.has_been_read ≡ true
        → t.task ≢ finished
        → Completes t
    Reach-Completes reader sender response t h r read going =
        let begins =
          start-IsKept io buf_io try_send recv channel takes true reader sender response h in
        let k = Reach-IsKept io buf_io try_send recv channel takes true response begins r in
        task-Completes t t.task refl k.task_in read going
