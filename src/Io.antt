-- ===== src/Io.antt =====
-- `Poll<io::Result<_>>` and the readers that the code is given (`async_std::io::Read`). A reader is
-- a state with `poll_read`, which takes the length of the buffer and returns the bytes that it puts
-- at the buffer's front. `Stream` adds what the documentation of `Read` promises of a connection on
-- which no operation fails.
pub mod Samples
use async_h.Base.{ℕ, ◌≤◌, ◌<◌, ◌≡◌, [], ◌++◌, length}
use async_h.Base.Bytes.{Bytes}

pub data IoError : Type 0 where
  unexpected_eof : IoError
  unexpected_byte : ℕ → IoError
  size_overflow : IoError
  invalid_headers : IoError
  unexpected_end_of_body : IoError
  missing_hostname : IoError
  no_default_port : IoError
  foreign_io : ℕ → IoError

-- The outcome of a poll; `panic` is a panic of the thread, and `out_of_fuel` is no outcome of the
-- code, but a model loop that was given too few rounds.
pub data Poll {ℓ} (A : Type ℓ) : Type ℓ where
  ready : A → Poll A
  failed : IoError → Poll A
  pending panic out_of_fuel : Poll A

pub record Read (R : Type 0) : Type 0 where
  pub poll_read : R → ℕ → R × Poll Bytes

-- The outcomes of one read into a buffer of length `n`, where `rest` are the bytes still to come.
abbrev pub Serves : {R : Type 0} → (R → Bytes) → Bytes → ℕ → R × Poll Bytes → Type 0
Serves rest before n (r, ready bytes) =
    (before ≡ bytes ++ rest r) × (length bytes ≤ n) × (bytes ≡ [] → 0 < n → before ≡ [])
Serves rest before n (r, pending) = rest r ≡ before
Serves rest before n (r, failed e) = ⊥
Serves rest before n (r, panic) = ⊥
Serves rest before n (r, out_of_fuel) = ⊥

pub record Stream {R : Type 0} (io : Read R) : Type 0 where
  pub rest : R → Bytes
  pub serves : (r : R) (n : ℕ) → Serves rest (rest r) n (io.poll_read r n)
