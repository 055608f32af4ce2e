-- ===== src/Server/Continue/Late.antt =====
-- Nothing in src/server/decode.rs orders the task's write before the response of the server.
use async_h.Base.{ℕ, ◌≡◌, refl, ap, sym, ◌∙◌, Bool, true, [], ◌∷◌, ◌++◌, append-nil}
use async_h.Base.Bytes.{Bytes}
use async_h.Io.{Read}
use async_h.Notify.{BufRead, Call, call, new, notify, poll_read}
use async_h.Notify as Notify
use async_h.Server.Decode.{continue_response}
use async_h.Server.Continue.{
  RecvOutcome, message, Task, waiting, writing, finished, Writer, continue_task, server, Exchange,
  spawn, after_recv, after_write, start, received, Step, receives, continues, responds, Reach, here,
  next,
}
use async_h.Server.Continue as Continue

module _ {B Sender : Type 0} (io : Read B) (buf_io : BufRead B) (try_send : Sender → Sender × Bool)
    (recv : Sender → Sender × RecvOutcome) (reader : B) (sender : Sender) (first second : Bytes)
    (n : ℕ) where
  abbrev begin : Exchange B Sender
  begin = start io buf_io try_send recv true reader sender (first ++ second)

  abbrev read : Exchange B Sender
  read = record begin { body = (call io buf_io try_send begin.body (Notify.reads n)).0 }

  abbrev half : Exchange B Sender
  half = record read { response = second; written = (server, first) ∷ [] }

  abbrev woken : Exchange B Sender
  woken = received io buf_io try_send recv half (recv half.body.sender)

  abbrev interrupted : Exchange B Sender
  interrupted = record woken {
    task = finished;
    written = woken.written ++ (continue_task, continue_response) ∷ [];
  }

  abbrev answered : Exchange B Sender
  answered = record interrupted {
    response = [];
    written = interrupted.written ++ (server, second) ∷ [];
  }

  notified : {sender' : Sender} → try_send sender ≡ (sender', true) → half.body.sender ≡ sender'
  unfolding start new poll_read notify
  notified e = rw e refl

  -- Where the channel has room and the notification arrives, the whole of `CONTINUE_RESPONSE` can
  -- come anywhere within the response, at its end too, once the endpoint has read the body.
  pub late_continue :
      (sender' sender'' : Sender)
      → try_send sender ≡ (sender', true)
      → recv sender' ≡ (sender'', message)
      → (t : Exchange B Sender) × Reach io buf_io try_send recv begin t
        × (t.written ≡ (server, first) ∷ (continue_task, continue_response) ∷ (server, second) ∷ [])
  unfolding start spawn after_write
  late_continue sender' sender'' sent arrives = (
    answered,
    next
        (next
          (next
            (next (next here (Continue.reads begin (Notify.reads n)))
              (responds read first second refl))
            (receives half refl))
          (continues woken continue_response [] task_writes λ h. cc h))
        (responds interrupted second [] (sym (append-nil second))),
    refl,
  )
    where
      task_writes : woken.task ≡ writing (continue_response ++ [])
      task_writes =
          let got : recv half.body.sender ≡ (sender'', message) =
            ap recv (notified sent) ∙ arrives in
          unfold after_recv in ap (λ (r : Sender × RecvOutcome). after_recv r.1) got
