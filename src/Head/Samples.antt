-- ===== src/Head/Samples.antt =====
-- `read_until` of a `BufReader` whose stream is a list of bytes, and a test for the prefixes that
-- are no heads, for the runs of the decoders.
use async_h.Base.{
  ◌≡◌, ◌≢◌, refl, sym, ap, ◌∙◌, inl, inr, Bool-cases, arith, Bool, true, false, not, ◌&&◌, [], ◌∷◌,
  ◌++◌, append-nil, append_assoc, ok, ◌==◌, if◌then◌else◌,
}
use async_h.Base.Bytes.{Bytes}
use async_h.Chunked.Wire.{lf}
use async_h.Head.{BufRead}
use async_h.Head.First.{IsLine, Lines}

unfoldable pub split_line : Bytes → Bytes × Bytes
split_line [] = ([], [])
split_line (c ∷ s) =
    let (line, after) = split_line s in if c == lf then (c ∷ [], s) else (c ∷ line, after)

pub split_line-IsLine :
    (s : Bytes)
    → (s ≡ (split_line s).0 ++ (split_line s).1) × IsLine (split_line s).0 (split_line s).1
unfolding split_line
split_line-IsLine [] = (refl, ([], [], refl, tt, inr (refl, refl)))
split_line-IsLine (c ∷ s) =
    let (whole, (content, tail, cut, no_lf, end)) = split_line-IsLine s in
    elim (Bool-cases (c == lf)) [
      | inl is_lf ↦ rw is_lf (refl, ([], c ∷ [], refl, tt, inl (ap (λ x. x ∷ []) (ground arith))))
      | inr other ↦
          rw other (
            ap (◌∷◌ c) whole,
            (c ∷ content, tail, ap (◌∷◌ c) cut, ((λ e. ground arith), no_lf), end),
          )
    ]

abbrev pub lines_io : BufRead Bytes
lines_io = record { read_until = λ byte s. ((split_line s).1, ok (split_line s).0) }

abbrev pub lines : Lines lines_io
lines = record { rest = λ s. s; lines = λ s. split_line-IsLine s }

-- No prefix of `seen ++ s` ends as a head does, but for those shorter than `seen` and for the
-- whole.
unfoldable pub none_before : (Bytes → Bool) → Bytes → Bytes → Bool
none_before ends seen [] = true
none_before ends seen (c ∷ s) =
    let more = none_before ends (seen ++ c ∷ []) s in not (ends seen) && more

none_before-shortest :
    (ends : Bytes → Bool) (seen s : Bytes)
    → none_before ends seen s ≡ true
    → (a b : Bytes) → s ≡ a ++ b
    → b ≢ []
    → ends (seen ++ a) ≡ false
unfolding none_before
none_before-shortest ends seen [] h [] b e some_left = absurd (some_left (sym e))
none_before-shortest ends seen [] h (x ∷ a) b e some_left = cc
none_before-shortest ends seen (c ∷ s) h [] b e some_left = ap ends (append-nil seen) ∙ ground arith
none_before-shortest ends seen (c ∷ s) h (x ∷ a) b e some_left =
    let shorter = none_before-shortest ends (seen ++ c ∷ []) s (ground arith) a b (cc) some_left in
    ap (λ y. ends (seen ++ y ∷ a)) (cc) ∙ ap ends (sym (append_assoc seen (c ∷ []) a)) ∙ shorter

pub shortest_of :
    (ends : Bytes → Bool) (s : Bytes)
    → none_before ends [] s ≡ true
    → (a b : Bytes) → s ≡ a ++ b
    → b ≢ []
    → ends a ≡ false
shortest_of ends s h = none_before-shortest ends [] s h

pub none_of :
    (ends : Bytes → Bool) (s : Bytes)
    → none_before ends [] s ≡ true
    → ends s ≡ false
    → (a b : Bytes) → s ≡ a ++ b
    → ends a ≡ false
none_of ends s h whole a [] e = ap ends (sym (e ∙ append-nil a)) ∙ whole
none_of ends s h whole a (x ∷ b) e = shortest_of ends s h a (x ∷ b) e λ nil. cc
