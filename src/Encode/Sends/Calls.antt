-- ===== src/Encode/Sends/Calls.antt =====
-- A call of the machine of Encode sends what comes next of its message.
use async_h.Base.{
  ℕ, zero, suc, ◌<◌, ◌≡◌, inl, inr, refl, sym, ap, subst, ◌∙◌, Bool, true, false, [], ◌∷◌, ◌++◌,
  Option, Option-cases, arith, length, take, drop, append_assoc, append-nil, take-append,
  take-append-drop,
}
use async_h.Base.Bytes.{Bytes}
use async_h.Io.{ready, Read, Stream}
use async_h.Io.Samples.{take-nil}
use async_h.Chunked.Wire.{cr, lf}
use async_h.Chunked.Encoder.Frame.{IsExact}
use async_h.Chunked.Encoder.Emits.{Fits}
use async_h.Encode.{
  EncoderState, start, head, body, end, BodyEncoder, chunked, fixed, into, cursor_poll_read, Round,
  continue, return,
}
use async_h.Encode as Encode
use async_h.Encode.Machine.{after_head, head_round, step_in, poll_rounds, poll_read}
use async_h.Encode.Sends.{
  new-chunked, new-fixed, Whole, SentIn, Sends, rank, After, chunked-After, fixed-After,
}

module _ {Body : Type 0} (body_len : Body → Option ℕ) (ceil_log16 : ℕ → ℕ)
    (exact : IsExact ceil_log16) {io : Read Body} (stream : Stream io) (IsTrailer : Bytes → Type 0)
    (eol : IsTrailer (cr ∷ lf ∷ [])) (is_head : Bool) (text : Bytes) (given : Body)
    (declared : Option ℕ) (declares : body_len given ≡ declared) where
  abbrev pub Sent : EncoderState Body → Bytes → Type 0
  Sent = SentIn body_len ceil_log16 exact stream IsTrailer eol is_head text given declared

  abbrev pub AfterRound : ℕ → Bytes → Round (EncoderState Body) → Type 0
  AfterRound = After body_len ceil_log16 exact stream IsTrailer eol is_head text given declared

  after_head-Sent :
      (h : Bool)
      → h ≡ is_head
      → (out : Bytes) → out ≡ text
      → AfterRound 2 out (continue (after_head body_len ceil_log16 io is_head text given declared))
  unfolding after_head
  after_head-Sent true same out e = rw (sym same) (e, omega arith)
  after_head-Sent false same out e = elim (Option-cases declared) [
    | inl l ↦
        let b = new-chunked body_len given (declares ∙ l) in
        rw (b, l, sym same)
          ((refl, refl, refl, [], e ∙ sym (append-nil text), (λ f. cc), λ f w' m. m), omega arith)
    | inr (m, l) ↦
        let b = new-fixed body_len given m (declares ∙ l) in
        rw (b, sym same)
          ((refl, refl, m, l, [], e ∙ sym (append-nil text), refl, refl), omega arith)
  ]

  module _ (out buf : Bytes) where
    head-After :
        (rest rest' taken : Bytes)
        → out ++ rest ≡ text
        → rest ≡ taken ++ rest'
        → (taken ≡ [] → rest ≡ [])
        → AfterRound 2 out (
            head_round body_len ceil_log16 io is_head text given declared
              (into buf (rest', ready taken)))
    head-After rest rest' [] sent cut stop =
        after_head-Sent is_head refl out
          (sym (append-nil out) ∙ ap (λ (r : Bytes). out ++ r) (sym (stop refl)) ∙ sent)
    head-After rest rest' (x ∷ taken) sent cut stop = (
      append_assoc out _ rest'
          ∙ ap (λ (r : Bytes). out ++ (r ++ rest'))
              (take-append (x ∷ taken) (drop (suc (length taken)) buf) (suc (length taken)) refl)
          ∙ ap (λ (r : Bytes). out ++ r) (sym cut)
          ∙ sent,
      λ e. absurd (omega (arith, e)),
    )

    cursor-After :
        (rest : Bytes)
        → 0 < length buf
        → out ++ rest ≡ text
        → AfterRound 2 out (
            head_round body_len ceil_log16 io is_head text given declared
              (into buf (cursor_poll_read rest (length buf))))
    unfolding cursor_poll_read
    cursor-After rest room sent =
        head-After rest (drop (length buf) rest) (take (length buf) rest) sent
          (sym (take-append-drop (length buf) rest)) (λ e. take-nil (length buf) rest e room)

    -- One round, in any state.
    step-After :
        (state : EncoderState Body)
        → Fits buf
        → Sent state out
        → AfterRound
            (rank body_len ceil_log16 exact stream IsTrailer eol is_head text given declared state)
            out
            (step_in body_len ceil_log16 io is_head text given declared state buf)
    unfolding step_in Encode.poll_read
    step-After start fits s = (ap (λ (r : Bytes). r ++ text) s, omega arith)
    step-After (head rest) fits s = cursor-After rest (omega (arith, fits.0)) s
    step-After (body (chunked c) n len) fits s =
        chunked-After body_len ceil_log16 exact stream IsTrailer eol is_head text given declared out
          c.reader c.done buf n len fits s
    step-After (body (fixed b) n len) fits s =
        fixed-After body_len ceil_log16 exact stream IsTrailer eol is_head text given declared out b
          buf n len (io.poll_read b (length buf)) (omega (arith, fits.0)) s
          (stream.serves b (length buf))
    step-After end fits s = (
      subst
          (Whole body_len ceil_log16 exact stream IsTrailer eol is_head text given declared is_head)
          (sym (append-nil out)) s,
      λ _. refl,
    )

  poll_rounds-Sends :
      (fuel : ℕ) (out buf : Bytes) (state : EncoderState Body)
      → rank body_len ceil_log16 exact stream IsTrailer eol is_head text given declared state < fuel
      → Fits buf
      → Sent state out
      → Sends body_len ceil_log16 exact stream IsTrailer eol is_head text given declared out
          (poll_rounds body_len ceil_log16 io is_head text given declared fuel state buf)
  unfolding poll_rounds
  poll_rounds-Sends zero out buf state enough fits s = absurd (omega arith)
  poll_rounds-Sends (suc fuel) out buf state enough fits s =
      go (λ state' less s'. poll_rounds-Sends fuel out buf state' less fits s')
        (step_in body_len ceil_log16 io is_head text given declared state buf)
        (step-After out buf state fits s)
    where
      go :
          ((state' : EncoderState Body)
            → rank body_len ceil_log16 exact stream IsTrailer eol is_head text given declared state'
              < fuel
            → Sent state' out
            → Sends body_len ceil_log16 exact stream IsTrailer eol is_head text given declared out
                (poll_rounds body_len ceil_log16 io is_head text given declared fuel state' buf))
          → (r : Round (EncoderState Body))
          → AfterRound
              (rank body_len ceil_log16 exact stream IsTrailer eol is_head text given declared
                state)
              out
              r
          → Sends body_len ceil_log16 exact stream IsTrailer eol is_head text given declared out
              (elim r [
                | continue state' ↦
                    poll_rounds body_len ceil_log16 io is_head text given declared fuel state' buf
                | return state' buf' o ↦ (state', buf', o)
              ])
      go again (continue state') (s', less) = again state' (omega arith) s'
      go again (return state' buf' o) h = h

  -- A call on a buffer that fits, with enough said of what was sent before.
  pub machine-Sends :
      (out buf : Bytes) (state : EncoderState Body)
      → Fits buf
      → Sent state out
      → Sends body_len ceil_log16 exact stream IsTrailer eol is_head text given declared out
          (poll_read body_len ceil_log16 io is_head text given declared state buf)
  unfolding poll_read
  machine-Sends out buf state fits s = poll_rounds-Sends 4 out buf state (most state) fits s
    where
      most :
          (state : EncoderState Body)
          → rank body_len ceil_log16 exact stream IsTrailer eol is_head text given declared state
            < 4
      most start = omega arith
      most (head rest) = omega arith
      most (body b n len) = omega arith
      most end = omega arith
