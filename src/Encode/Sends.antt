-- ===== src/Encode/Sends.antt =====
-- What the machine of Encode has sent after each call: the head, and then the body, as it is or in
-- chunks.
pub mod Calls
use async_h.Base.{
  ℕ, zero, suc, ◌^◌, ◌<◌, ◌≡◌, ◌≢◌, inl, inr, refl, sym, ap, subst, ◌∙◌, Bool, true, false, [], ◌∷◌,
  ◌++◌, Option, none, some, Option-cases, Bool-cases, ok, arith, ◌==◌, length, take, drop,
  append_assoc, append-nil, length-append, take-append, take-append-drop,
}
use async_h.Base.Bytes.{Bytes}
use async_h.Io.{Poll, ready, failed, pending, panic, out_of_fuel, Read, Stream, Serves}
use async_h.Io.Samples.{take-nil}
use async_h.Chunked.Wire.{cr, lf, IsChunked}
use async_h.Chunked.Encoder.{ChunkedEncoder}
use async_h.Chunked.Encoder as Chunked
use async_h.Chunked.Encoder.Frame as Frame
use async_h.Chunked.Encoder.Frame.{IsExact, length-chunk}
use async_h.Chunked.Encoder.Emits.{
  Fits, Writes, poll_read-Writes, front, last-IsChunked, chunk-IsChunked,
}
use async_h.Encode.{
  EncoderState, start, head, body, end, BodyEncoder, chunked, fixed, into, cursor_poll_read, Round,
  continue, return, as_chunked, as_fixed,
}
use async_h.Encode as Encode
use async_h.Encode.Machine.{
  after_head, head_round, at_end, body_round, step_in, poll_rounds, poll_read,
}

module _ {Body : Type 0} (len : Body → Option ℕ) (b : Body) where
  pub new-fixed : (m : ℕ) → len b ≡ some m → Encode.new len b ≡ fixed b
  unfolding Encode.new
  new-fixed m h = rw (h, Encode.new) refl

  pub new-chunked : len b ≡ none → Encode.new len b ≡ chunked (record { reader = b; done = false })
  unfolding Chunked.new Encode.new
  new-chunked h = rw (h, Encode.new) refl

module _ {Body : Type 0} (body_len : Body → Option ℕ) (ceil_log16 : ℕ → ℕ)
    (exact : IsExact ceil_log16) {io : Read Body} (stream : Stream io) (IsTrailer : Bytes → Type 0)
    (eol : IsTrailer (cr ∷ lf ∷ [])) (is_head : Bool) (text : Bytes) (given : Body)
    (declared : Option ℕ) where
  abbrev pub payload : Bytes
  payload = stream.rest given

  -- All that is to be sent, for a declared length.
  abbrev pub Message : Option ℕ → Bytes → Type 0
  Message (some n) out = (out ≡ text ++ payload) × (n ≡ length payload)
  Message none out = (w : Bytes) × (out ≡ text ++ w) × IsChunked IsTrailer w payload

  abbrev pub Whole : Bool → Bytes → Type 0
  Whole true out = out ≡ text
  Whole false out = Message declared out

  -- What has been sent, `out`, in each state.
  abbrev pub SentIn : EncoderState Body → Bytes → Type 0
  SentIn start out = out ≡ []
  SentIn (head rest) out = out ++ rest ≡ text
  SentIn (body (fixed b) n len) out =
      (is_head ≡ false)
      × (len ≡ declared)
      × (m : ℕ) × (len ≡ some m)
      × (w : Bytes) × (out ≡ text ++ w)
      × (w ++ stream.rest b ≡ payload)
      × (n ≡ length w)
  SentIn (body (chunked c) n len) out =
      (is_head ≡ false)
      × (len ≡ none)
      × (declared ≡ none)
      × (w : Bytes) × (out ≡ text ++ w)
      × (c.done ≡ true → IsChunked IsTrailer w payload)
      × (c.done ≡ false
          → (w' : Bytes) → IsChunked IsTrailer w' (stream.rest c.reader)
          → IsChunked IsTrailer (w ++ w') payload)
  SentIn end out = Whole is_head out

  -- The outcome of a call, after `out` was sent.
  abbrev pub Sends : Bytes → EncoderState Body × Bytes × Poll ℕ → Type 0
  Sends out (state, buf, ready total) =
      SentIn state (out ++ take total buf) × (total ≡ 0 → state ≡ end)
  Sends out (state, buf, pending) = SentIn state out
  Sends out (state, buf, failed x) =
      (is_head ≡ false) × (m : ℕ) × (declared ≡ some m) × (m ≢ length payload)
  Sends out (state, buf, panic) = ⊥
  Sends out (state, buf, out_of_fuel) = ⊥

  abbrev pub rank : EncoderState Body → ℕ
  rank start = 3
  rank (head rest) = 2
  rank (body b n len) = 1
  rank end = 0

  abbrev pub After : ℕ → Bytes → Round (EncoderState Body) → Type 0
  After bound out (continue state) = SentIn state out × (rank state < bound)
  After bound out (return state buf o) = Sends out (state, buf, o)

  module _ (w bytes : Bytes) (c c' : ChunkedEncoder Body)
      (part : (w' : Bytes)
        → IsChunked IsTrailer w' (stream.rest c.reader)
        → IsChunked IsTrailer (w ++ w') payload)
      (ends : c'.done ≡ (length bytes == 0)) where
    -- The last chunk ends the message.
    chunks_end :
        (bytes ≡ [] → stream.rest c.reader ≡ [])
        → c'.done ≡ true
        → IsChunked IsTrailer (w ++ Frame.chunk bytes) payload
    chunks_end stop f =
        let none_read : bytes ≡ [] = nil bytes (sym ends ∙ f) in
        let read_all = stop none_read in
        rw none_read (part (Frame.chunk []) (rw read_all (last-IsChunked eol)))
      where
        nil : (bs : Bytes) → (length bs == 0) ≡ true → bs ≡ []
        nil [] h = refl
        nil (x ∷ bs) h = absurd (ground arith)

    -- Any other chunk can be followed by more.
    chunks_more :
        stream.rest c.reader ≡ bytes ++ stream.rest c'.reader
        → length bytes < 2 ^ 48
        → c'.done ≡ false
        → (w' : Bytes) → IsChunked IsTrailer w' (stream.rest c'.reader)
        → IsChunked IsTrailer ((w ++ Frame.chunk bytes) ++ w') payload
    chunks_more cut fits f w' m =
        let test : (length bytes == 0) ≡ false = sym ends ∙ f in
        let positive : 0 < length bytes = ground arith in
        rw (append_assoc w (Frame.chunk bytes) w') (
          part (Frame.chunk bytes ++ w')
            (rw cut (chunk-IsChunked eol bytes w' (stream.rest c'.reader) positive fits m)))

  module _ (out : Bytes) where
    -- The body in chunks.
    chunk-After :
        (c c' : ChunkedEncoder Body) (buf buf' : Bytes) (n : ℕ) (o : Poll ℕ)
        → c.done ≡ false
        → SentIn (body (chunked c) n none) out
        → Writes stream (stream.rest c.reader) buf (c', buf', o)
        → After 1 out (
            body_round body_len ceil_log16 io is_head text given declared n none
              (chunked c', buf', o))
    chunk-After c c' buf buf' n (ready zero) fresh s (bytes, back, cut, b, t, d, stop, fits) =
        absurd (omega (arith, t, length-chunk bytes))
    chunk-After c c' buf buf' n (ready (suc k)) fresh (h, l, l', w, sent, whole, part)
          (bytes, back, cut, b, t, d, stop, fits) =
        (
          (
            h,
            refl,
            l',
            w ++ Frame.chunk bytes,
            rw (front bytes back buf' (suc k) b t, sent) (append_assoc text w (Frame.chunk bytes)),
            chunks_end w bytes c c' (part fresh) d stop,
            chunks_more w bytes c c' (part fresh) d cut fits,
          ),
          λ e. absurd (omega (arith, e)),
        )
    chunk-After c c' buf buf' n pending fresh (h, l, l', w, sent, whole, part) (same, b, d) =
        (h, refl, l', w, sent, (λ f. cc), λ f w' m. part fresh w' (rw (sym same) m))
    chunk-After c c' buf buf' n (failed x) fresh s h = absurd h
    chunk-After c c' buf buf' n panic fresh s h = absurd h
    chunk-After c c' buf buf' n out_of_fuel fresh s h = absurd h

    -- The end of the body is checked against the declared length.
    at_end-After :
        (b : BodyEncoder Body) (buf : Bytes) (n : ℕ) (len : Option ℕ) (m : ℕ)
        → is_head ≡ false
        → len ≡ declared
        → len ≡ some m
        → out ≡ text ++ payload
        → n ≡ length payload
        → After 1 out (at_end body_len ceil_log16 io is_head text given declared b buf n len)
    at_end-After b buf n none m h l l' whole count = cc
    at_end-After b buf n (some k) m h l l' whole count = elim (Bool-cases (n == k)) [
      | inl same ↦
          let is_length : k ≡ length payload = ground arith in
          rw same (rw (h, sym l) (whole, is_length), omega arith)
      | inr different ↦ rw different (h, k, sym l, λ e. absurd (ground arith))
    ]

    -- The body as it is.
    pub fixed-After :
        (b : Body) (buf : Bytes) (n : ℕ) (len : Option ℕ) (o : Body × Poll Bytes)
        → 0 < length buf
        → SentIn (body (fixed b) n len) out
        → Serves stream.rest (stream.rest b) (length buf) o
        → After 1 out (
            body_round body_len ceil_log16 io is_head text given declared n len
              (as_fixed (into buf o)))
    fixed-After b buf n len (b', ready []) room (h, l, m, l', w, sent, whole, count)
          (cut, short, stop) =
        let all : w ≡ payload =
          sym (append-nil w) ∙ ap (λ (r : Bytes). w ++ r) (sym (stop refl room)) ∙ whole in
        at_end-After (fixed b') buf n len m h l l' (sent ∙ ap (λ (r : Bytes). text ++ r) all)
          (count ∙ ap length all)
    fixed-After b buf n len (b', ready (x ∷ bytes)) room (h, l, m, l', w, sent, whole, count)
          (cut, short, stop) =
        (
          (
            h,
            l,
            m,
            l',
            w ++ x ∷ bytes,
            (ap (λ (r : Bytes). out ++ r)
                  (take-append (x ∷ bytes) (drop (suc (length bytes)) buf) (suc (length bytes))
                    refl)
                ∙ ap (λ (r : Bytes). r ++ x ∷ bytes) sent
                ∙ append_assoc text w (x ∷ bytes)),
            (append_assoc w (x ∷ bytes) (stream.rest b')
                ∙ ap (λ (r : Bytes). w ++ r) (sym cut)
                ∙ whole),
            omega (arith, count, length-append w (x ∷ bytes)),
          ),
          λ e. absurd (omega (arith, e)),
        )
    fixed-After b buf n len (b', pending) room (h, l, m, l', w, sent, whole, count) same =
        (h, l, m, l', w, sent, ap (λ (r : Bytes). w ++ r) same ∙ whole, count)
    fixed-After b buf n len (b', failed x) room s h = absurd h
    fixed-After b buf n len (b', panic) room s h = absurd h
    fixed-After b buf n len (b', out_of_fuel) room s h = absurd h

    pub chunked-After :
        (reader : Body) (finished : Bool) (buf : Bytes) (n : ℕ) (len : Option ℕ)
        → Fits buf
        → SentIn (body (chunked (record { reader = reader; done = finished })) n len) out
        → After 1 out (
            body_round body_len ceil_log16 io is_head text given declared n len (
              as_chunked (
                Chunked.poll_read ceil_log16 io (record { reader = reader; done = finished }) buf)))
    unfolding Chunked.poll_read
    chunked-After reader finished buf n (some m) fits s = absurd (cc s.1)
    chunked-After reader true buf n none fits (h, l, l', w, sent, whole, part) =
        (rw (h, l') (w, sent, whole refl), omega arith)
    chunked-After reader false buf n none fits s =
        let c : ChunkedEncoder Body = record { reader = reader; done = false } in
        let r = Chunked.poll_read ceil_log16 io c buf in
        chunk-After c r.0 buf r.1 n r.2 refl s
          (poll_read-Writes stream ceil_log16 exact reader buf fits)
