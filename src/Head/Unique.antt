-- ===== src/Head/Unique.antt =====
-- The head that the loop of src/server/decode.rs and src/client/decode.rs finds is the one that the
-- stream begins with.
use async_h.Base.{
  ℕ, ◌≤◌, ◌<◌, ◌≡◌, inl, inr, refl, sym, ap, ◌∙◌, Bool, true, false, [], ◌∷◌, ◌++◌, Result, ok, err,
  panic, Bool-cases, arith, leb, length, length-append, append-cut, append-nil, append_assoc, drop,
  take, take-append-drop, ltb, if◌then◌else◌, head_too_long,
}
use async_h.Base.Bytes.{Bytes}
use async_h.Chunked.Wire.{lf}
use async_h.Head.{BufRead, Ending, complete, eof, max_head_length, read_head}
use async_h.Head.First.{Lines, IsFirst, Decides, Reads, read_head-Reads}

-- The test of a head looks at its last bytes, and these end a line.
pub line_suffix :
    (k : ℕ) (a t : Bytes) → drop k a ≡ t ++ lf ∷ [] → (front : Bytes) × (a ≡ front ++ lf ∷ [])
line_suffix k a t e = (
  take k a ++ t,
  sym (take-append-drop k a)
      ∙ ap (λ (s : Bytes). take k a ++ s) e
      ∙ sym (append_assoc (take k a) t (lf ∷ [])),
)

module _ (ends : Bytes → Bool)
    (ends_line : (a : Bytes) → ends a ≡ true → (front : Bytes) × (a ≡ front ++ lf ∷ [])) where
  -- Two heads of one stream are the same.
  heads_eq :
      (a after b after' : Bytes)
      → a ++ after ≡ b ++ after'
      → length a ≤ length b
      → ends a ≡ true
      → IsFirst ends ends_line b
      → (a ≡ b) × (after ≡ after')
  heads_eq a after b after' e short is_end first =
      let (more, longer, back) = append-cut a after b after' e short in go more longer back
    where
      go : (more : Bytes) → b ≡ a ++ more → after ≡ more ++ after' → (a ≡ b) × (after ≡ after')
      go [] longer back = (sym (longer ∙ append-nil a), back)
      go (x ∷ more) longer back = absurd (cc (first.shortest a (x ∷ more) longer λ h. cc))

  module _ {R : Type 0} (io : BufRead R) (stream : Lines io) where
    Reads-complete :
        (before head after : Bytes) (o : R × Result Ending)
        → before ≡ head ++ after
        → IsFirst ends ends_line head
        → Reads ends ends_line io stream before o
        → (o.1 ≡ ok (complete head)) × (stream.rest o.0 ≡ after)
    Reads-complete before head after (r, ok (complete head')) whole first (whole', first') =
        elim (Bool-cases (leb (length head) (length head'))) [
          | inl le ↦
              let same =
                heads_eq head after head' (stream.rest r) (sym whole ∙ whole') (ground arith)
                  first.is_head first' in
              (ap (λ (h : Bytes). ok (complete h)) (sym same.0), sym same.1)
          | inr gt ↦
              let same =
                heads_eq head' (stream.rest r) head after (sym whole' ∙ whole) (ground arith)
                  first'.is_head first in
              (ap (λ (h : Bytes). ok (complete h)) same.0, same.1)
        ]
    Reads-complete before head after (r, ok (eof buf)) whole first (e, ended, none, short) =
        absurd (cc (none head after whole, first.is_head))
    Reads-complete before head after (r, err e) whole first (too_long, read, whole', long, none) =
        let (more, longer, back) =
          append-cut head after read (stream.rest r) (sym whole ∙ whole')
            (omega (arith, first.bounded)) in
        absurd (cc (none head more longer first.bounded, first.is_head))
    Reads-complete before head after (r, panic) whole first h = absurd h

    -- Where the stream begins with a head, the loop returns it and leaves what follows.
    pub read_head-complete :
        (test : Bytes → Result Bool)
        → Decides ends ends_line test
        → ends [] ≡ false
        → (r : R) (head after : Bytes) → stream.rest r ≡ head ++ after
        → IsFirst ends ends_line head
        → ((read_head io test r).1 ≡ ok (complete head))
          × (stream.rest (read_head io test r).0 ≡ after)
    read_head-complete test decides empty r head after whole first =
        Reads-complete (stream.rest r) head after (read_head io test r) whole first
          (read_head-Reads ends ends_line io stream test decides empty r)

    -- What the loop returns where the stream has no head.
    abbrev pub no_head : Bytes → Result Ending
    no_head before =
        if ltb (length before) max_head_length then ok (eof before) else err head_too_long

    Reads-no_head :
        (before : Bytes) (o : R × Result Ending)
        → ((a b : Bytes) → before ≡ a ++ b → length a < max_head_length → ends a ≡ false)
        → Reads ends ends_line io stream before o
        → o.1 ≡ no_head before
    Reads-no_head before (r, ok (complete head)) none (whole, first) =
        absurd (cc (none head (stream.rest r) whole first.bounded, first.is_head))
    Reads-no_head before (r, ok (eof buf)) none (e, ended, all, short) =
        let test : ltb (length before) max_head_length ≡ true = ground arith in rw (test, e) refl
    Reads-no_head before (r, err e) none (too_long, read, whole, long, shorter) =
        let test : ltb (length before) max_head_length ≡ false =
          ground (arith, ap length whole, length-append read (stream.rest r)) in
        rw (test, too_long) refl
    Reads-no_head before (r, panic) none h = absurd h

    -- A stream without a head in its first 8191 bytes: its end, or the error of a long head.
    pub read_head-no_head :
        (test : Bytes → Result Bool)
        → Decides ends ends_line test
        → ends [] ≡ false
        → (r : R)
        → ((a b : Bytes) → stream.rest r ≡ a ++ b → length a < max_head_length → ends a ≡ false)
        → (read_head io test r).1 ≡ no_head (stream.rest r)
    read_head-no_head test decides empty r none =
        Reads-no_head (stream.rest r) (read_head io test r) none
          (read_head-Reads ends ends_line io stream test decides empty r)
