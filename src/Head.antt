-- ===== src/Head.antt =====
-- src/server/decode.rs and src/client/decode.rs: the loop that reads a head line by line, which the
-- two decoders share but for the test of its end. `BufReader::read_until` is foreign: it gives the
-- bytes that it appends to the buffer. The loop runs on fuel; a round beyond the fuel counts as a
-- panic, and `Head.First` shows that there is none.
pub mod First
pub mod Unique
pub mod Safe
pub mod Suffix
pub mod Samples
pub mod Tests
use async_h.Base.{
  ℕ, zero, suc, Bool, true, false, not, List, [], ◌∷◌, ◌++◌, Result, ok, err, panic, head_too_long,
  ltb, leb, ◌+◌, ◌>>=◌, if◌then◌else◌, length,
}
use async_h.Base.Bytes.{Bytes, equal}
use async_h.Base.Bytes.Slices.{checked_sub, slice}
use async_h.Chunked.Wire.{lf}

pub record BufRead (R : Type 0) : Type 0 where
  pub read_until : ℕ → R → R × Result Bytes

-- The maximum amount of headers parsed, and of bytes of a head.
abbrev pub max_headers : ℕ
max_headers = 128

abbrev pub max_head_length : ℕ
max_head_length = 8192

-- How the loop ends: with the head, or at the end of the stream with what was read of it.
pub data Ending : Type 0 where
  complete : Bytes → Ending
  eof : Bytes → Ending

-- `idx >= n && buf[idx - n..=idx] == end`
unfoldable pub ends_in : Bytes → ℕ → ℕ → Bytes → Result Bool
unfolding equal
ends_in buf idx n end =
    if leb n idx
    then (checked_sub idx n >>= λ first. slice buf first (idx + 1) >>= λ last. ok (equal last end))
    else ok false

module _ {R : Type 0} where
  -- The end of a round, when the test of the end has been made.
  abbrev pub tested : R → Bytes → R × Result Ending → Result Bool → R × Result Ending
  tested r buf more (ok true) = (r, ok (complete buf))
  tested r buf more (ok false) = more
  tested r buf more (err e) = (r, err e)
  tested r buf more panic = (r, panic)

module _ {R : Type 0} (io : BufRead R) (ends : Bytes → Result Bool) where
  -- The rest of a round, when `read_until` has returned.
  abbrev pub after_line :
      (R → Bytes → R × Result Ending) → Bytes → R × Result Bytes → R × Result Ending
  after_line again buf (r, err e) = (r, err e)
  after_line again buf (r, panic) = (r, panic)
  after_line again buf (r, ok []) = (r, ok (eof buf))
  after_line again buf (r, ok (c ∷ line)) =
      let buf' = buf ++ c ∷ line in
      let more = again r buf' in
      if not (ltb (length buf') max_head_length)
      then (r, err head_too_long)
      else tested r buf' more (ends buf')

  unfoldable pub read_rounds : ℕ → R → Bytes → R × Result Ending
  read_rounds zero r buf = (r, panic)
  read_rounds (suc fuel) r buf = after_line (read_rounds fuel) buf (io.read_until lf r)

  unfoldable pub read_head : R → R × Result Ending
  read_head r = read_rounds max_head_length r []
