-- ===== src/Notify/Tests.antt =====
-- Instances of the theorems on src/read_notifier.rs: a channel with room for one message, as
-- `bounded` makes it, and a reader that is a list of bytes.
use async_h.Base.{arith, refl, List, ℕ, zero, suc, ◌≡◌, Bool, true, false, [], ◌∷◌, drop}
use async_h.Base.Bytes.{Bytes, codes}
use async_h.Io.{ready}
use async_h.Io.Samples.{bytes_io}
use async_h.Notify.{
  new, BufRead, Call, reads, fills, consumes, calls, plain, Attempt, Channel, flag, reads_any,
  calls-notify,
}

-- Its own bytes are its buffer.
abbrev buf_io : BufRead Bytes
buf_io = record { poll_fill_buf = λ bytes. (bytes, ready bytes); consume = λ bytes n. drop n bytes }

abbrev some_calls : List Call
some_calls = reads 2 ∷ fills ∷ consumes 1 ∷ reads 9 ∷ []

-- The messages in the channel.
abbrev try_send : ℕ → ℕ × Bool
try_send zero = (1, true)
try_send (suc n) = (suc n, false)

attempts : (s : ℕ) → Attempt (λ n. n) s (try_send s)
attempts zero = refl
attempts (suc n) = refl

counted : Channel try_send
counted = record { count = λ s. s; sends = attempts }

accepts_first : (s : ℕ) → counted.count s ≡ 0 → (try_send s).1 ≡ true
unfolding counted
accepts_first zero h = refl
accepts_first (suc n) h = absurd (omega (arith, h))

none_yet : counted.count 0 ≡ 0
unfolding counted
none_yet = refl

calls-notify_example :
    let (r, os) = calls bytes_io buf_io try_send (new (codes "Hello") 0) some_calls in
    (os ≡ (plain bytes_io buf_io (codes "Hello") some_calls).1)
    × (r.reader ≡ (plain bytes_io buf_io (codes "Hello") some_calls).0)
    × (counted.count r.sender ≡ flag (reads_any some_calls))
calls-notify_example =
    calls-notify bytes_io buf_io try_send counted accepts_first some_calls (codes "Hello") 0
      none_yet
