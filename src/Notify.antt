-- ===== src/Notify.antt =====
-- src/read_notifier.rs: `ReadNotifier`, which sends one message when it is first read. The channel
-- is foreign: `try_send` gives the channel after the attempt, and whether it succeeded.
pub mod Tests
use async_h.Base.{
  Option, some, none, ℕ, zero, suc, ◌+◌, ◌≡◌, refl, ap, ◌∙◌, arith, Bool, true, false, not, List,
  [], ◌∷◌, if◌then◌else◌,
}
use async_h.Base.Bytes.{Bytes}
use async_h.Io.{Poll, Read}

pub record ReadNotifier (B Sender : Type 0) : Type 0 where
  pub reader : B
  pub sender : Sender
  pub has_been_read : Bool

unfoldable pub new : {B Sender : Type 0} → B → Sender → ReadNotifier B Sender
new reader sender = record { reader = reader; sender = sender; has_been_read = false }

-- What a reader with a buffer does beside: `poll_fill_buf` gives the bytes in the buffer.
pub record BufRead (B : Type 0) : Type 0 where
  pub poll_fill_buf : B → B × Poll Bytes
  pub consume : B → ℕ → B

-- A call of one of the three functions, with the length of the buffer or the bytes consumed.
pub data Call : Type 0 where
  reads : ℕ → Call
  fills : Call
  consumes : ℕ → Call

module _ {B Sender : Type 0} (io : Read B) (buf_io : BufRead B)
    (try_send : Sender → Sender × Bool) where
  abbrev pub sent : ReadNotifier B Sender → Sender × Bool → ReadNotifier B Sender
  sent r (sender, true) = record r { sender = sender; has_been_read = true }
  sent r (sender, false) = record r { sender = sender }

  unfoldable pub notify : ReadNotifier B Sender → ReadNotifier B Sender
  notify r = if not r.has_been_read then sent r (try_send r.sender) else r

  abbrev pub forward : ReadNotifier B Sender → B × Poll Bytes → ReadNotifier B Sender × Poll Bytes
  forward r (reader, o) = (record r { reader = reader }, o)

  unfoldable pub poll_read : ReadNotifier B Sender → ℕ → ReadNotifier B Sender × Poll Bytes
  unfolding notify
  poll_read r n = let r' = notify r in forward r' (io.poll_read r'.reader n)

  unfoldable pub poll_fill_buf : ReadNotifier B Sender → ReadNotifier B Sender × Poll Bytes
  poll_fill_buf r = forward r (buf_io.poll_fill_buf r.reader)

  unfoldable pub consume : ReadNotifier B Sender → ℕ → ReadNotifier B Sender
  consume r amt = record r { reader = buf_io.consume r.reader amt }

  abbrev pub some_outcome : {R : Type 0} → R × Poll Bytes → R × Option (Poll Bytes)
  some_outcome (r, o) = (r, some o)

  abbrev pub call : ReadNotifier B Sender → Call → ReadNotifier B Sender × Option (Poll Bytes)
  call r (reads n) = some_outcome (poll_read r n)
  call r fills = some_outcome (poll_fill_buf r)
  call r (consumes amt) = (consume r amt, none)

  -- Any calls, and their outcomes.
  unfoldable pub calls :
      ReadNotifier B Sender → List Call → ReadNotifier B Sender × List (Option (Poll Bytes))
  unfolding poll_read poll_fill_buf consume
  calls r [] = (r, [])
  calls r (c ∷ cs) = let (r', o) = call r c in let (r'', os) = calls r' cs in (r'', o ∷ os)

-- The same calls of the reader alone.
module _ {B : Type 0} (io : Read B) (buf_io : BufRead B) where
  abbrev pub plain_call : B → Call → B × Option (Poll Bytes)
  plain_call b (reads n) = let (b', o) = io.poll_read b n in (b', some o)
  plain_call b fills = let (b', o) = buf_io.poll_fill_buf b in (b', some o)
  plain_call b (consumes amt) = (buf_io.consume b amt, none)

  unfoldable pub plain : B → List Call → B × List (Option (Poll Bytes))
  plain b [] = (b, [])
  plain b (c ∷ cs) = let (b', o) = plain_call b c in let (b'', os) = plain b' cs in (b'', o ∷ os)

-- A channel that counts its messages.
abbrev pub Attempt : {Sender : Type 0} → (Sender → ℕ) → ℕ → Sender × Bool → Type 0
Attempt count before (s, true) = count s ≡ suc before
Attempt count before (s, false) = count s ≡ before

pub record Channel {Sender : Type 0} (try_send : Sender → Sender × Bool) : Type 0 where
  pub count : Sender → ℕ
  pub sends : (s : Sender) → Attempt count (count s) (try_send s)

-- Whether there is a `poll_read` among the calls.
abbrev pub reads_any : List Call → Bool
reads_any [] = false
reads_any (reads n ∷ cs) = true
reads_any (fills ∷ cs) = reads_any cs
reads_any (consumes amt ∷ cs) = reads_any cs

abbrev pub flag : Bool → ℕ
flag true = 1
flag false = 0

module _ {B Sender : Type 0} (io : Read B) (buf_io : BufRead B)
    (try_send : Sender → Sender × Bool) where
  abbrev notifier : B → Sender → Bool → ReadNotifier B Sender
  notifier b s read = record { reader = b; sender = s; has_been_read = read }

  sent-reader :
      (r : ReadNotifier B Sender) (s : Sender × Bool)
      → (sent io buf_io try_send r s).reader ≡ r.reader
  sent-reader r (s, true) = refl
  sent-reader r (s, false) = refl

  notifier-reader :
      (b : B) (s : Sender) (read : Bool)
      → (notify io buf_io try_send (notifier b s read)).reader ≡ b
  unfolding notify
  notifier-reader b s true = refl
  notifier-reader b s false = sent-reader (notifier b s false) (try_send s)

  notify-reader : (r : ReadNotifier B Sender) → (notify io buf_io try_send r).reader ≡ r.reader
  notify-reader r = notifier-reader r.reader r.sender r.has_been_read

  call-plain :
      (r : ReadNotifier B Sender) (c : Call)
      → ((call io buf_io try_send r c).1 ≡ (plain_call io buf_io r.reader c).1)
        × ((call io buf_io try_send r c).0.reader ≡ (plain_call io buf_io r.reader c).0)
  unfolding poll_read poll_fill_buf consume
  call-plain r (reads n) = (
    ap (λ b. some (io.poll_read b n).1) (notify-reader r),
    ap (λ b. (io.poll_read b n).0) (notify-reader r),
  )
  call-plain r fills = (refl, refl)
  call-plain r (consumes amt) = (refl, refl)

  -- With any outcomes of the channel and of the reader, the notifier returns what the reader alone
  -- returns, and leaves the reader as those calls leave it.
  calls-plain :
      (cs : List Call) (r : ReadNotifier B Sender)
      → ((calls io buf_io try_send r cs).1 ≡ (plain io buf_io r.reader cs).1)
        × ((calls io buf_io try_send r cs).0.reader ≡ (plain io buf_io r.reader cs).0)
  unfolding calls plain
  calls-plain [] r = (refl, refl)
  calls-plain (c ∷ cs) r =
      let (ih, rest) = calls-plain cs (call io buf_io try_send r c).0 in
      let (same, left) = call-plain r c in
      (cc (ih, same, left), rest ∙ ap (λ b. (plain io buf_io b cs).0) left)

  module _ (channel : Channel try_send) where
    sent-once :
        (b : B) (before : Sender) (s : Sender × Bool)
        → Attempt channel.count (channel.count before) s
        → channel.count (sent io buf_io try_send (notifier b before false) s).sender
          ≡ channel.count before
            + flag (sent io buf_io try_send (notifier b before false) s).has_been_read
    sent-once b before (s, true) h = omega (arith, h)
    sent-once b before (s, false) h = omega (arith, h)

    notifier-once :
        (b : B) (s : Sender) (read : Bool)
        → channel.count (notify io buf_io try_send (notifier b s read)).sender + flag read
          ≡ channel.count s + flag (notify io buf_io try_send (notifier b s read)).has_been_read
    unfolding notify
    notifier-once b s true = refl
    notifier-once b s false = omega (arith, sent-once b s (try_send s) (channel.sends s))

    notify-once :
        (r : ReadNotifier B Sender)
        → channel.count (notify io buf_io try_send r).sender + flag r.has_been_read
          ≡ channel.count r.sender + flag (notify io buf_io try_send r).has_been_read
    notify-once r = notifier-once r.reader r.sender r.has_been_read

    pub call-once :
        (r : ReadNotifier B Sender) (c : Call)
        → channel.count (call io buf_io try_send r c).0.sender + flag r.has_been_read
          ≡ channel.count r.sender + flag (call io buf_io try_send r c).0.has_been_read
    unfolding poll_read poll_fill_buf consume
    call-once r (reads n) = notify-once r
    call-once r fills = refl
    call-once r (consumes amt) = refl

    -- The messages sent by any number of calls are one if they set `has_been_read`, and none
    -- otherwise.
    calls-once :
        (cs : List Call) (r : ReadNotifier B Sender)
        → channel.count (calls io buf_io try_send r cs).0.sender + flag r.has_been_read
          ≡ channel.count r.sender + flag (calls io buf_io try_send r cs).0.has_been_read
    unfolding calls
    calls-once [] r = refl
    calls-once (c ∷ cs) r =
        let ih = calls-once cs (call io buf_io try_send r c).0 in omega (arith, ih, call-once r c)

    call-kept :
        (r : ReadNotifier B Sender) (c : Call)
        → r.has_been_read ≡ true
        → (call io buf_io try_send r c).0.has_been_read ≡ true
    unfolding poll_read poll_fill_buf consume notify
    call-kept r (reads n) h = rw h refl
    call-kept r fills h = h
    call-kept r (consumes amt) h = h

    calls-kept :
        (cs : List Call) (r : ReadNotifier B Sender)
        → r.has_been_read ≡ true
        → (calls io buf_io try_send r cs).0.has_been_read ≡ true
    unfolding calls
    calls-kept [] r h = h
    calls-kept (c ∷ cs) r h = calls-kept cs (call io buf_io try_send r c).0 (call-kept r c h)

    module _ (accepts : (s : Sender) → channel.count s ≡ 0 → (try_send s).1 ≡ true) where
      sent-flag :
          (r : ReadNotifier B Sender) (s : Sender × Bool)
          → s.1 ≡ true
          → (sent io buf_io try_send r s).has_been_read ≡ true
      sent-flag r (s, true) h = refl
      sent-flag r (s, false) h = cc

      reads-flag :
          (r : ReadNotifier B Sender) (n : ℕ)
          → r.has_been_read ≡ false
          → channel.count r.sender ≡ 0
          → (call io buf_io try_send r (reads n)).0.has_been_read ≡ true
      unfolding poll_read notify
      reads-flag r n h k =
          rw h (
            sent-flag (record r { has_been_read = false }) (try_send r.sender) (accepts r.sender k))

      calls-flag :
          (cs : List Call) (r : ReadNotifier B Sender)
          → r.has_been_read ≡ false
          → channel.count r.sender ≡ 0
          → (calls io buf_io try_send r cs).0.has_been_read ≡ reads_any cs
      unfolding calls poll_fill_buf consume
      calls-flag [] r h k = h
      calls-flag (reads n ∷ cs) r h k =
          calls-kept cs (call io buf_io try_send r (reads n)).0 (reads-flag r n h k)
      calls-flag (fills ∷ cs) r h k =
          calls-flag cs (record r { reader = (buf_io.poll_fill_buf r.reader).0 }) h k
      calls-flag (consumes amt ∷ cs) r h k =
          calls-flag cs (record r { reader = buf_io.consume r.reader amt }) h k

      -- For any number of calls on a new notifier, of reads and of the two of `BufRead`, with a
      -- channel that counts its messages, is empty, and accepts one while it is empty: the notifier
      -- returns what the reader alone returns and leaves the reader as those calls leave it, and it
      -- has sent one message if there was a `poll_read` among the calls, and none otherwise.
      pub calls-notify :
          (cs : List Call) (b : B) (s : Sender)
          → channel.count s ≡ 0
          → let (r, os) = calls io buf_io try_send (new b s) cs in
            (os ≡ (plain io buf_io b cs).1)
            × (r.reader ≡ (plain io buf_io b cs).0)
            × (channel.count r.sender ≡ flag (reads_any cs))
      unfolding new
      calls-notify cs b s empty =
          let r0 = new b s in
          let (same, left) = calls-plain cs r0 in
          let count = calls-once cs r0 in
          let is_flag = ap flag (calls-flag cs r0 refl empty) in
          (same, left, omega (arith, count, empty, is_flag))
