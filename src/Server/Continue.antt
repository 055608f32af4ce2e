-- ===== src/Server/Continue.antt =====
-- src/server/decode.rs, `100-continue`: the task that `decode` spawns, which waits for the first
-- read of the body and then writes `CONTINUE_RESPONSE`, beside the code that reads the body and
-- writes the response on the same connection. A step is one poll of either side. Foreign are the
-- channel and the connection, which may take any part of what it is given.
pub mod Safe
pub mod Completes
pub mod Late
pub mod Tests
use async_h.Base.{ℕ, suc, ◌≡◌, ◌≢◌, Bool, true, false, List, [], ◌∷◌, ◌++◌, if◌then◌else◌}
use async_h.Base.Bytes.{Bytes}
use async_h.Io.{Read}
use async_h.Notify.{ReadNotifier, BufRead, Call, call, new}
use async_h.Server.Decode.{continue_response}

-- The outcomes of a poll of `body_read_receiver.recv()`.
pub data RecvOutcome : Type 0 where
  message : RecvOutcome
  -- all senders are gone
  closed : RecvOutcome
  empty : RecvOutcome

pub data Task : Type 0 where
  not_spawned waiting finished : Task
  -- `write_all`, with what it has still to write
  writing : Bytes → Task

pub data Writer : Type 0 where
  continue_task server : Writer

-- The body of the request with its notifier, the task, what is left of the response, and the writes
-- so far, the first one first.
pub record Exchange (B Channel : Type 0) : Type 0 where
  pub body : ReadNotifier B Channel
  pub task : Task
  pub response : Bytes
  pub written : List (Writer × Bytes)

-- The task is spawned if the client expects it.
unfoldable pub spawn : Bool → Task
spawn expects = if expects then waiting else not_spawned

-- `if let Ok(()) = body_read_receiver.recv().await { … }`
unfoldable pub after_recv : RecvOutcome → Task
after_recv message = writing continue_response
after_recv closed = finished
after_recv empty = waiting

-- The rounds of `write_all`: a write that leaves nothing is the last.
unfoldable pub after_write : Bytes → Task
after_write [] = finished
after_write (byte ∷ back) = writing (byte ∷ back)

module _ {B Channel : Type 0} (io : Read B) (buf_io : BufRead B)
    (try_send : Channel → Channel × Bool) (recv : Channel → Channel × RecvOutcome) where
  unfoldable pub start : Bool → B → Channel → Bytes → Exchange B Channel
  unfolding spawn new
  start expects reader channel response = record {
    body = new reader channel;
    task = spawn expects;
    response = response;
    written = [];
  }

  abbrev pub received : Exchange B Channel → Channel × RecvOutcome → Exchange B Channel
  received s (channel, r) = record s {
    body = record s.body { sender = channel };
    task = after_recv r;
  }

  pub data Step : Exchange B Channel → Exchange B Channel → Type 0 where
    -- the endpoint, or the copying of a response that carries the body, reads
    reads :
        (s : Exchange B Channel) (c : Call)
        → Step s (record s { body = (call io buf_io try_send s.body c).0 })
    -- the task polls the channel
    receives :
        (s : Exchange B Channel) → s.task ≡ waiting → Step s (received s (recv s.body.sender))
    -- the connection takes a part of what the task writes
    continues :
        (s : Exchange B Channel) (front back : Bytes)
        → s.task ≡ writing (front ++ back)
        → front ≢ []
        → Step s (record s {
          task = after_write back;
          written = s.written ++ (continue_task, front) ∷ [];
        })
    -- a write of the task fails, and `ok()` drops the error
    gives_up :
        (s : Exchange B Channel) (left : Bytes)
        → s.task ≡ writing left
        → Step s (record s { task = finished })
    -- the connection takes a part of the response
    responds :
        (s : Exchange B Channel) (front back : Bytes)
        → s.response ≡ front ++ back
        → Step s (record s { response = back; written = s.written ++ (server, front) ∷ [] })

  pub data Reach (s : Exchange B Channel) : Exchange B Channel → Type 0 where
    here : Reach s s
    next : {t u : Exchange B Channel} → Reach s t → Step t u → Reach s u

-- The bytes that the task has written, and those of the server.
unfoldable pub continued : List (Writer × Bytes) → Bytes
continued [] = []
continued ((continue_task, bytes) ∷ ws) = bytes ++ continued ws
continued ((server, bytes) ∷ ws) = continued ws

unfoldable pub responded : List (Writer × Bytes) → Bytes
responded [] = []
responded ((continue_task, bytes) ∷ ws) = responded ws
responded ((server, bytes) ∷ ws) = bytes ++ responded ws

-- What the documentation of the channel promises: `held` counts the messages in it.
abbrev pub Taken : {Channel : Type 0} → (Channel → ℕ) → ℕ → Channel × RecvOutcome → Type 0
Taken held before (channel, message) = suc (held channel) ≡ before
Taken held before (channel, closed) = held channel ≡ before
Taken held before (channel, empty) = held channel ≡ before
