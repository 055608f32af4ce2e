-- ===== src/Chunked/Encoder/Emits.antt =====
-- What `ChunkedEncoder` emits over a sequence of reads is a chunked message of the body.
use async_h.Base.{
  ℕ, ◌+◌, ◌-◌, ◌^◌, ◌≤◌, ◌<◌, ◌≡◌, refl, sym, ap, ◌∙◌, subst, Bool, true, false, List, [], ◌∷◌,
  ◌++◌, arith, ◌==◌, length, take, drop, length-append, length-drop, take-append, append_assoc,
  append-nil,
}
use async_h.Base.Bytes.{Bytes}
use async_h.Io.{Poll, ready, failed, pending, panic, out_of_fuel, Read, Stream, Serves}
use async_h.Chunked.Wire.{cr, lf, to_hex, last, chunk, IsChunked, sized}
use async_h.Chunked.Wire.Hex.{size_value-to_hex}
use async_h.Chunked.Encoder.{ChunkedEncoder, max_bytes_to_read, after_read, poll_read}
use async_h.Chunked.Encoder.Frame as Frame
use async_h.Chunked.Encoder.Frame.{IsExact, ready-fits, frame-chunk}

-- The buffers that `poll_read` is given.
abbrev pub Fits : Bytes → Type 0
Fits buf = (6 ≤ length buf) × (length buf < 2 ^ 48)

abbrev pub AllFit : List Bytes → Type 0
AllFit [] = Unit
AllFit (buf ∷ bufs) = Fits buf × AllFit bufs

-- The bytes that a call hands to its caller.
abbrev pub written : Bytes → Poll ℕ → Bytes
written buf (ready total) = take total buf
written buf _ = []

module _ {R : Type 0} {io : Read R} (stream : Stream io) where
  -- The outcome of one call.
  abbrev pub Writes : Bytes → Bytes → ChunkedEncoder R × Bytes × Poll ℕ → Type 0
  Writes before buf (e, buf', ready total) =
      (bytes back : Bytes) × (before ≡ bytes ++ stream.rest e.reader)
      × (buf' ≡ Frame.chunk bytes ++ back)
      × (total ≡ length (Frame.chunk bytes))
      × (e.done ≡ (length bytes == 0))
      × (bytes ≡ [] → before ≡ [])
      × (length bytes < 2 ^ 48)
  Writes before buf (e, buf', pending) =
      (stream.rest e.reader ≡ before) × (buf' ≡ buf) × (e.done ≡ false)
  Writes before buf (e, buf', failed x) = ⊥
  Writes before buf (e, buf', panic) = ⊥
  Writes before buf (e, buf', out_of_fuel) = ⊥

  after_read-Writes :
      (e : ChunkedEncoder R) (buf before : Bytes) (max : ℕ) (o : R × Poll Bytes)
      → e.done ≡ false
      → Fits buf
      → 1 ≤ max
      → ((bytes : ℕ) → bytes ≤ max → bytes + length (to_hex bytes) + 4 ≤ length buf)
      → Serves stream.rest before max o
      → Writes before buf (after_read e buf o)
  unfolding after_read
  after_read-Writes e buf before max (reader, ready bytes) fresh fits one room s =
      let here = room (length bytes) s.1 in
      let l = length-append bytes (drop (length bytes) buf) in
      let (back, framed, same) =
        frame-chunk bytes (drop (length bytes) buf)
          (omega (arith, length-drop (length bytes) buf)) in
      rw framed (bytes, back, s.0, refl, refl, refl, λ h. s.2 h (omega arith), omega arith)
  after_read-Writes e buf before max (reader, pending) fresh fits one room s = (s, refl, fresh)
  after_read-Writes e buf before max (reader, failed x) fresh fits one room s = absurd s
  after_read-Writes e buf before max (reader, panic) fresh fits one room s = absurd s
  after_read-Writes e buf before max (reader, out_of_fuel) fresh fits one room s = absurd s

  module _ (ceil_log16 : ℕ → ℕ) (exact : IsExact ceil_log16) where
    -- With an exact logarithm, a buffer of at least six and fewer than 2^48 bytes and a body of
    -- which no read fails, one call of an encoder that is not done never panics. It writes one
    -- chunk with the next bytes of the body to the front of the buffer, and is done just if those
    -- are none; or it is pending.
    pub poll_read-Writes :
        (reader : R) (buf : Bytes)
        → Fits buf
        → Writes
            (stream.rest reader)
            buf
            (poll_read ceil_log16 io (record { reader = reader; done = false }) buf)
    unfolding poll_read
    poll_read-Writes reader buf fits =
        let max : ℕ = length buf - 4 - ceil_log16 (length buf - 4) in
        let computes : max_bytes_to_read ceil_log16 (length buf) ≡ ready max =
          (unfold max_bytes_to_read in ground arith) in
        let (one, room) = ready-fits ceil_log16 exact (length buf) max fits.1 computes in
        rw computes (
          after_read-Writes (record { reader = reader; done = false }) buf (stream.rest reader) max
            _ refl fits one room (stream.serves reader max))

-- Reads into one buffer after the other, and all that they wrote.
module _ (ceil_log16 : ℕ → ℕ) {R : Type 0} (io : Read R) where
  abbrev pub onto : Bytes → ChunkedEncoder R × Bytes → ChunkedEncoder R × Bytes
  onto out (e, more) = (e, out ++ more)

  unfoldable pub emit : ChunkedEncoder R → List Bytes → ChunkedEncoder R × Bytes
  emit e [] = (e, [])
  emit e (buf ∷ bufs) =
      let (e', buf', o) = poll_read ceil_log16 io e buf in onto (written buf' o) (emit e' bufs)

  emit-done :
      (reader : R) (bufs : List Bytes)
      → emit (record { reader = reader; done = true }) bufs
        ≡ (record { reader = reader; done = true }, [])
  unfolding emit poll_read
  emit-done reader [] = refl
  emit-done reader (buf ∷ bufs) = ap (onto []) (emit-done reader bufs)

module _ {IsTrailer : Bytes → Type 0} (eol : IsTrailer (cr ∷ lf ∷ [])) where
  pub last-IsChunked : IsChunked IsTrailer (Frame.chunk []) []
  unfolding to_hex
  last-IsChunked =
      sized (to_hex 0) (cr ∷ lf ∷ []) 0 (size_value-to_hex 0 (omega arith)) refl
        (last refl refl eol)

  pub chunk-IsChunked :
      (bytes wire payload : Bytes)
      → 0 < length bytes
      → length bytes < 2 ^ 48
      → IsChunked IsTrailer wire payload
      → IsChunked IsTrailer (Frame.chunk bytes ++ wire) (bytes ++ payload)
  chunk-IsChunked bytes wire payload positive fits rest =
      sized (to_hex (length bytes)) (bytes ++ (cr ∷ lf ∷ wire)) (length bytes)
        (size_value-to_hex (length bytes) (omega arith)) (simp append_assoc)
        (chunk bytes wire payload refl positive refl refl rest)

-- What is written of a framed buffer.
pub front :
    (bytes back buf : Bytes) (total : ℕ)
    → buf ≡ Frame.chunk bytes ++ back
    → total ≡ length (Frame.chunk bytes)
    → take total buf ≡ Frame.chunk bytes
front bytes back buf total e t = rw e (take-append (Frame.chunk bytes) back total t)

module _ {R : Type 0} {io : Read R} (stream : Stream io) (ceil_log16 : ℕ → ℕ)
    (exact : IsExact ceil_log16) (IsTrailer : Bytes → Type 0) (eol : IsTrailer (cr ∷ lf ∷ [])) where
  -- Once the encoder is done, the output is a message of the payload.
  abbrev Message : Bytes → ChunkedEncoder R × Bytes → Type 0
  Message payload (e, out) = e.done ≡ true → IsChunked IsTrailer out payload

  abbrev at : R → Bool → ChunkedEncoder R
  at reader finished = record { reader = reader; done = finished }

  first_then :
      (buf : Bytes) (bufs : List Bytes) (before : Bytes) (r : ChunkedEncoder R × Bytes × Poll ℕ)
      → Writes stream before buf r
      → ((reader : R) → Message (stream.rest reader) (emit ceil_log16 io (at reader false) bufs))
      → Message before (onto ceil_log16 io (written r.1 r.2) (emit ceil_log16 io r.0 bufs))
  first_then buf bufs before (e, buf', ready total) ([], back, cut, b, t, d, stop, fits) rest =
      subst
        (λ e'. Message before (onto ceil_log16 io (take total buf') (emit ceil_log16 io e' bufs)))
        (λ i. at e.reader (sym d i))
        (rw (front [] back buf' total b t, emit-done ceil_log16 io e.reader bufs)
          (λ h. rw (append-nil, stop refl) (last-IsChunked eol)))
  first_then buf bufs before (e, buf', ready total) (x ∷ bytes, back, cut, b, t, d, stop, fits)
        rest =
      let more : (length (x ∷ bytes) == 0) ≡ false = ground arith in
      subst
        (λ e'. Message before (onto ceil_log16 io (take total buf') (emit ceil_log16 io e' bufs)))
        (λ i. at e.reader (sym (d ∙ more) i))
        (rw (front (x ∷ bytes) back buf' total b t)
          (λ h. rw cut (chunk-IsChunked eol (x ∷ bytes) _ _ (omega arith) fits (rest e.reader h))))
  first_then buf bufs before (e, buf', pending) (same, b, d) rest =
      subst (λ e'. Message before (onto ceil_log16 io [] (emit ceil_log16 io e' bufs)))
        (λ i. at e.reader (sym d i)) (λ h. rw same at (rest e.reader h))
  first_then buf bufs before (e, buf', failed x) w rest = absurd w
  first_then buf bufs before (e, buf', panic) w rest = absurd w
  first_then buf bufs before (e, buf', out_of_fuel) w rest = absurd w

  -- However the reads are cut and however large the buffers, the bytes emitted until the encoder is
  -- done are a chunked message whose payload is the whole body. The buffers have at least six and
  -- fewer than 2^48 bytes, the logarithm is exact, and no read of the body fails.
  pub emit-IsChunked :
      (reader : R) (bufs : List Bytes)
      → AllFit bufs
      → (emit ceil_log16 io (record { reader = reader; done = false }) bufs).0.done ≡ true
      → IsChunked IsTrailer
          (emit ceil_log16 io (record { reader = reader; done = false }) bufs).1
          (stream.rest reader)
  unfolding emit
  emit-IsChunked reader [] fit h = cc
  emit-IsChunked reader (buf ∷ bufs) fit h =
      first_then buf bufs (stream.rest reader) (poll_read ceil_log16 io (at reader false) buf)
        (poll_read-Writes stream ceil_log16 exact reader buf fit.0)
        (λ reader'. emit-IsChunked reader' bufs fit.1) h
