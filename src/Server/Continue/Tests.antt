-- ===== src/Server/Continue/Tests.antt =====
-- An interleaving of the task of `100-continue` with a response, with a channel that is the number
-- of its messages, and instances of the theorems about it.
use async_h.Base.{ℕ, zero, suc, ◌<◌, ◌≡◌, refl, arith, Bool, true, false, [], ◌∷◌}
use async_h.Base.Bytes.{Bytes, codes}
use async_h.Io.{ready}
use async_h.Io.Samples.{bytes_io}
use async_h.Notify.{BufRead, Attempt, Channel, call}
use async_h.Server.Continue.{
  RecvOutcome, message, empty, continue_task, server, Exchange, start, spawn, Reach, here, next,
  Taken,
}
use async_h.Server.Decode.{continue_response}
use async_h.Server.Continue.Safe.{Continues, Reach-Continues}
use async_h.Server.Continue.Completes.{Completes, Reach-Completes}
use async_h.Server.Continue as Continue
use async_h.Notify as Notify
use async_h.Server.Continue.Late.{late_continue}

abbrev bytes_buf_io : BufRead Bytes
bytes_buf_io = record { poll_fill_buf = λ b. (b, ready b); consume = λ b n. b }

-- A channel for one message.
abbrev try_send : ℕ → ℕ × Bool
try_send zero = (1, true)
try_send (suc n) = (suc n, false)

abbrev recv : ℕ → ℕ × RecvOutcome
recv zero = (0, empty)
recv (suc n) = (n, message)

try_send-Attempt : (n : ℕ) → Attempt (λ (m : ℕ). m) n (try_send n)
try_send-Attempt zero = refl
try_send-Attempt (suc n) = refl

recv-Taken : (n : ℕ) → Taken (λ (m : ℕ). m) n (recv n)
recv-Taken zero = refl
recv-Taken (suc n) = refl

abbrev channel : Channel try_send
channel = record { count = λ n. n; sends = try_send-Attempt }

-- The status line is cut in two.
run :
    (t : Exchange Bytes ℕ) × Reach bytes_io bytes_buf_io try_send recv
      (start bytes_io bytes_buf_io try_send recv true (codes "Wiki") 0 (codes "HTTP/1.1 200 OK"))
      t
    × (t.written
        ≡ (server, codes "HTTP/1.1 200")
          ∷ (continue_task, continue_response)
          ∷ (server, codes " OK")
          ∷ [])
run =
    late_continue bytes_io bytes_buf_io try_send recv (codes "Wiki") 0 (codes "HTTP/1.1 200")
      (codes " OK") 4 1 0 refl refl

Reach-Continues_example : Continues true (codes "HTTP/1.1 200 OK") run.0
Reach-Continues_example =
    Reach-Continues bytes_io bytes_buf_io try_send recv channel recv-Taken true (codes "Wiki") 0
      (codes "HTTP/1.1 200 OK") refl run.1

abbrev begin : Exchange Bytes ℕ
begin = start bytes_io bytes_buf_io try_send recv true (codes "Wiki") 0 (codes "HTTP/1.1 200 OK")

-- The body has been read, and the task has not been polled since.
abbrev asked : Exchange Bytes ℕ
asked = record begin { body = (call bytes_io bytes_buf_io try_send begin.body (Notify.reads 4)).0 }

recv-message : (n : ℕ) → 0 < n → (recv n).1 ≡ message
recv-message zero h = absurd (omega arith)
recv-message (suc n) h = refl

Reach-Completes_example : Completes bytes_io bytes_buf_io try_send recv asked
unfolding start spawn Notify.poll_read Notify.new
Reach-Completes_example =
    Reach-Completes bytes_io bytes_buf_io try_send recv channel recv-Taken recv-message
      (codes "Wiki") 0 (codes "HTTP/1.1 200 OK") asked refl
      (next here (Continue.reads begin (Notify.reads 4))) refl (λ h. cc h)
