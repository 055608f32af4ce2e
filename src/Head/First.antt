-- ===== src/Head/First.antt =====
-- The loop that reads a head finds the shortest prefix of the stream that ends as a head does,
-- within its bound on the length.
use async_h.Base.{
  ℕ, zero, suc, ◌+◌, ◌≤◌, ◌<◌, ◌≡◌, ◌≢◌, ◌⊎◌, inl, inr, refl, sym, ap, ◌∙◌, Bool, true, false, [],
  ◌∷◌, ◌++◌, Result, ok, err, panic, head_too_long, Bool-cases, arith, ltb, leb, length,
  length-append, append-cut, append_assoc, append-nil,
}
use async_h.Base.Bytes.{Bytes}
use async_h.Chunked.Wire.{lf}
use async_h.Head.{
  BufRead, Ending, complete, eof, max_head_length, after_line, read_rounds, read_head,
}

-- No line feed.
abbrev pub NoLf : Bytes → Type 0
NoLf [] = Unit
NoLf (c ∷ s) = (c ≢ lf) × NoLf s

-- A line with its line feed, or what is left before the end of the stream.
abbrev pub IsLine : Bytes → Bytes → Type 0
IsLine line after =
    (content tail : Bytes) × (line ≡ content ++ tail)
    × NoLf content
    × ((tail ≡ lf ∷ []) ⊎ ((tail ≡ []) × (after ≡ [])))

abbrev pub ReadsLine : {R : Type 0} → (R → Bytes) → Bytes → R × Result Bytes → Type 0
ReadsLine rest before (r, ok line) = (before ≡ line ++ rest r) × IsLine line (rest r)
ReadsLine rest before (r, err e) = ⊥
ReadsLine rest before (r, panic) = ⊥

-- What the documentation of `read_until` promises of a connection on which no operation fails.
pub record Lines {R : Type 0} (io : BufRead R) : Type 0 where
  pub rest : R → Bytes
  pub lines : (r : R) → ReadsLine rest (rest r) (io.read_until lf r)

line_end :
    (front after content tail : Bytes)
    → front ++ lf ∷ after ≡ content ++ tail
    → NoLf content
    → length tail ≤ 1
    → after ≡ []
line_end [] after [] tail e n short = nil after (omega (arith, ap length e))
  where
    nil : (s : Bytes) → length s ≤ 0 → s ≡ []
    nil [] h = refl
    nil (c ∷ s) h = absurd (omega arith)
line_end [] after (c ∷ content) tail e n short = absurd (n.0 (cc))
line_end (x ∷ front) after [] tail e n short =
    absurd (omega (arith, ap length e, length-append front (lf ∷ after)))
line_end (x ∷ front) after (c ∷ content) tail e n short =
    line_end front after content tail (cc) n.1 short

tail_short :
    (tail after : Bytes) → (tail ≡ lf ∷ []) ⊎ ((tail ≡ []) × (after ≡ [])) → length tail ≤ 1
tail_short tail after (inl e) = rw e (omega arith)
tail_short tail after (inr e) = rw e.0 (omega arith)

module _ (ends : Bytes → Bool)
    (ends_line : (a : Bytes) → ends a ≡ true → (front : Bytes) × (a ≡ front ++ lf ∷ [])) where
  -- No prefix ends as a head does.
  abbrev pub NoneEnds : Bytes → Type 0
  NoneEnds buf = (a b : Bytes) → buf ≡ a ++ b → ends a ≡ false

  -- A head, of which no shorter prefix is one.
  pub record IsFirst (head : Bytes) : Type 0 where
    pub is_head : ends head ≡ true
    pub shortest : (a b : Bytes) → head ≡ a ++ b → b ≢ [] → ends a ≡ false
    pub bounded : length head < max_head_length

  -- A prefix of what was read before and one line more.
  prefixes :
      (buf line after a b : Bytes)
      → NoneEnds buf
      → IsLine line after
      → buf ++ line ≡ a ++ b
      → (ends a ≡ false) ⊎ (b ≡ [])
  prefixes buf line after a b none l e = elim (Bool-cases (leb (length a) (length buf))) [
    | inl inside ↦
        let (more, front, _) = append-cut a b buf line (sym e) (ground arith) in
        inl (none a more front)
    | inr beyond ↦
        let (more, front, back) = append-cut buf line a b e (ground arith) in
        beyond_buf buf line after a b more none l front back
  ]
    where
      beyond_buf :
          (buf line after a b more : Bytes)
          → NoneEnds buf
          → IsLine line after
          → a ≡ buf ++ more
          → line ≡ more ++ b
          → (ends a ≡ false) ⊎ (b ≡ [])
      beyond_buf buf line after a b [] none l front back =
          inl (none a [] (sym (append-nil buf) ∙ sym front ∙ sym (append-nil a)))
      beyond_buf buf line after a b (x ∷ more) none (content, tail, cut, n, t) front back =
          elim (Bool-cases (ends a)) [
            | inl is_end ↦
                let (before, whole) = ends_line a is_end in
                let same = sym front ∙ whole in
                let short = length-append buf (x ∷ more) in
                let short' = length-append before (lf ∷ []) in
                let (m, _, found) =
                  append-cut buf (x ∷ more) before (lf ∷ []) same (omega (arith, ap length same)) in
                inr (
                  line_end m b content tail
                    (sym (append_assoc m (lf ∷ []) b)
                      ∙ ap (λ (s : Bytes). s ++ b) (sym found)
                      ∙ sym back
                      ∙ cut)
                    n (tail_short tail after t))
            | inr other ↦ inl other
          ]

  -- The test of the code makes this decision on what has a line, without a panic.
  abbrev pub Decides : (Bytes → Result Bool) → Type 0
  Decides test = (a b : Bytes) (c : ℕ) → test (a ++ c ∷ b) ≡ ok (ends (a ++ c ∷ b))

  module _ {R : Type 0} (io : BufRead R) (stream : Lines io) where
    -- The outcome of the loop on a stream that holds `before`.
    abbrev pub Reads : Bytes → R × Result Ending → Type 0
    Reads before (r, ok (complete head)) = (before ≡ head ++ stream.rest r) × IsFirst head
    Reads before (r, ok (eof buf)) =
        (before ≡ buf) × (stream.rest r ≡ []) × NoneEnds before × (length before < max_head_length)
    Reads before (r, err e) =
        (e ≡ head_too_long)
        × (read : Bytes) × (before ≡ read ++ stream.rest r)
        × (max_head_length ≤ length read)
        × ((a b : Bytes) → read ≡ a ++ b → length a < max_head_length → ends a ≡ false)
    Reads before (r, panic) = ⊥

    eof_line : (after : Bytes) → IsLine [] after → after ≡ []
    eof_line after (content, tail, cut, n, inl t) =
        absurd (omega (arith, ap length cut, ap length t, length-append content tail))
    eof_line after (content, tail, cut, n, inr t) = t.1

    left_of : {a : Bytes} {b : Bytes} → (ends a ≡ false) ⊎ (b ≡ []) → b ≢ [] → ends a ≡ false
    left_of (inl f) h = f
    left_of (inr e) h = absurd (h e)

    longer :
        (buf a b : Bytes)
        → buf ≡ a ++ b
        → b ≡ []
        → max_head_length ≤ length buf
        → length a < max_head_length
        → ⊥
    longer buf a b e none_left h k =
        omega (arith, ap length e, length-append a b, ap length none_left)

    none_longer :
        (buf a b : Bytes)
        → ends buf ≡ false
        → buf ≡ a ++ b
        → (ends a ≡ false) ⊎ (b ≡ [])
        → ends a ≡ false
    none_longer buf a b other e (inl f) = f
    none_longer buf a b other e (inr none_left) =
        ap ends (sym (e ∙ ap (λ (s : Bytes). a ++ s) none_left ∙ append-nil a)) ∙ other

    round-Reads :
        (test : Bytes → Result Bool) (decides : Decides test) (fuel : ℕ) (before buf : Bytes)
        (o : R × Result Bytes)
        → max_head_length ≤ length buf + suc fuel
        → NoneEnds buf
        → length buf < max_head_length
        → (rest : Bytes) → before ≡ buf ++ rest
        → ReadsLine stream.rest rest o
        → ((r : R) (buf' : Bytes)
            → max_head_length ≤ length buf' + fuel
            → NoneEnds buf'
            → length buf' < max_head_length
            → before ≡ buf' ++ stream.rest r
            → Reads before (read_rounds io test fuel r buf'))
        → Reads before (after_line io test (read_rounds io test fuel) buf o)
    round-Reads test decides fuel before buf (r, err e) enough none short rest whole h again =
        absurd h
    round-Reads test decides fuel before buf (r, panic) enough none short rest whole h again =
        absurd h
    round-Reads test decides fuel before buf (r, ok []) enough none short rest whole (cut, l)
          again =
        let ended = eof_line (stream.rest r) l in
        let all : before ≡ buf =
          whole ∙ ap (λ (s : Bytes). buf ++ s) (cut ∙ ended) ∙ append-nil buf in
        (all, ended, (λ a b e. none a b (sym all ∙ e)), omega (arith, ap length all))
    round-Reads test decides fuel before buf (r, ok (c ∷ line)) enough none short rest whole
          (cut, l) again =
        let buf' : Bytes = buf ++ c ∷ line in
        let whole' : before ≡ buf' ++ stream.rest r =
          whole
          ∙ ap (λ (s : Bytes). buf ++ s) cut
          ∙ sym (append_assoc buf (c ∷ line) (stream.rest r)) in
        let pre = prefixes buf (c ∷ line) (stream.rest r) in
        let more = length-append buf (c ∷ line) in
        elim (Bool-cases (ltb (length buf') max_head_length)) [
          | inl fits ↦ elim (Bool-cases (ends buf')) [
            | inl is_end ↦
                rw (fits, decides buf line c, is_end)
                  (
                    whole',
                    record {
                      is_head = is_end;
                      shortest = λ a b e some_left. left_of (pre a b none l e) some_left;
                      bounded = ground arith;
                    },
                  )
            | inr other ↦
                rw (fits, decides buf line c, other)
                  (again r buf' (omega arith)
                    (λ a b e. none_longer buf' a b other e (pre a b none l e)) (ground arith)
                    whole')
          ]
          | inr long ↦ rw long (
            refl,
            buf',
            whole',
            ground arith,
            λ a b e h.
                left_of (pre a b none l e) λ e'. absurd (longer buf' a b e e' (ground arith) h),
          )
        ]

    rounds-Reads :
        (test : Bytes → Result Bool) (decides : Decides test) (fuel : ℕ) (before : Bytes) (r : R)
        (buf : Bytes)
        → max_head_length ≤ length buf + fuel
        → NoneEnds buf
        → length buf < max_head_length
        → before ≡ buf ++ stream.rest r
        → Reads before (read_rounds io test fuel r buf)
    unfolding read_rounds
    rounds-Reads test decides zero before r buf enough none short whole = absurd (omega arith)
    rounds-Reads test decides (suc fuel) before r buf enough none short whole =
        round-Reads test decides fuel before buf (io.read_until lf r) enough none short
          (stream.rest r) whole (stream.lines r) (rounds-Reads test decides fuel before)

    -- On a connection on which no operation fails, and with a test that decides, without a panic,
    -- which bytes end as a head does, the loop ends within its fuel. It returns the
    -- shortest prefix of the stream that ends as a head does, if that is shorter than 8192 bytes;
    -- the end of the stream, where all of it is shorter and no prefix ends so; or it fails, having
    -- read at least 8192 bytes, of which no shorter prefix ends so.
    pub read_head-Reads :
        (test : Bytes → Result Bool)
        → Decides test
        → ends [] ≡ false
        → (r : R) → Reads (stream.rest r) (read_head io test r)
    unfolding read_head
    read_head-Reads test decides empty r =
        rounds-Reads test decides max_head_length (stream.rest r) r [] (omega arith)
          (λ a b e. ap ends (nil a b e) ∙ empty) (omega arith) refl
      where
        nil : (a b : Bytes) → [] ≡ a ++ b → a ≡ []
        nil [] b e = refl
        nil (x ∷ a) b e = cc
