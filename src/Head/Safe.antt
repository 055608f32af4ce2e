-- ===== src/Head/Safe.antt =====
-- The loop that reads a head in src/server/decode.rs and src/client/decode.rs never panics, also on
-- a connection that fails, if the test of its end does not: the fuel is enough, and every error is
-- returned.
use async_h.Base.{
  ℕ, zero, suc, ◌+◌, ◌≤◌, ◌<◌, refl, inl, inr, Bool, true, false, [], ◌∷◌, ◌++◌, Result, ok, err,
  panic, IsSafe, IsSafe-ok, IsSafe-err, Bool-cases, arith, ltb, length, length-append,
  head_too_long,
}
use async_h.Base.Bytes.{Bytes}
use async_h.Chunked.Wire.{lf}
use async_h.Head.{BufRead, max_head_length, tested, after_line, read_rounds, read_head}

module _ {R : Type 0} (io : BufRead R) (test : Bytes → Result Bool)
    (tests : (a b : Bytes) (c : ℕ) → IsSafe (test (a ++ c ∷ b)))
    (reads : (r : R) → IsSafe (io.read_until lf r).1) where
  round-IsSafe :
      (fuel : ℕ) (buf : Bytes) (o : R × Result Bytes)
      → IsSafe o.1
      → ((r : R) (c : ℕ) (line : Bytes)
          → length (buf ++ c ∷ line) < max_head_length
          → IsSafe (read_rounds io test fuel r (buf ++ c ∷ line)).1)
      → IsSafe (after_line io test (read_rounds io test fuel) buf o).1
  round-IsSafe fuel buf (r, err e) safe again = IsSafe-err e
  round-IsSafe fuel buf (r, panic) safe again = absurd (safe.no_panic refl)
  round-IsSafe fuel buf (r, ok []) safe again = IsSafe-ok _
  round-IsSafe fuel buf (r, ok (c ∷ line)) safe again =
      elim (Bool-cases (ltb (length (buf ++ c ∷ line)) max_head_length)) [
        | inl fits ↦
            rw fits (go (test (buf ++ c ∷ line)) (tests buf line c) (again r c line (ground arith)))
        | inr long ↦ rw long (IsSafe-err head_too_long)
      ]
    where
      go :
          (t : Result Bool)
          → IsSafe t
          → IsSafe (read_rounds io test fuel r (buf ++ c ∷ line)).1
          → IsSafe (tested r (buf ++ c ∷ line) (read_rounds io test fuel r (buf ++ c ∷ line)) t).1
      go (ok true) safe more = IsSafe-ok _
      go (ok false) safe more = more
      go (err e) safe more = IsSafe-err e
      go panic safe more = absurd (safe.no_panic refl)

  rounds-IsSafe :
      (fuel : ℕ) (r : R) (buf : Bytes)
      → max_head_length ≤ length buf + fuel
      → length buf < max_head_length
      → IsSafe (read_rounds io test fuel r buf).1
  unfolding read_rounds
  rounds-IsSafe zero r buf enough short = absurd (omega arith)
  rounds-IsSafe (suc fuel) r buf enough short =
      round-IsSafe fuel buf (io.read_until lf r) (reads r) λ r' c line short'.
        rounds-IsSafe fuel r' (buf ++ c ∷ line) (omega (arith, length-append buf (c ∷ line))) short'

  pub read_head-IsSafe : (r : R) → IsSafe (read_head io test r).1
  unfolding read_head
  read_head-IsSafe r = rounds-IsSafe max_head_length r [] (omega arith) (omega arith)
