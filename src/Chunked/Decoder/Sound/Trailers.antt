-- ===== src/Chunked/Decoder/Sound/Trailers.antt =====
-- The rounds of src/chunked/decoder.rs in the states of the trailers, on bytes of any kind.
use async_h.Base.{
  ℕ, zero, suc, ◌-◌, ◌≤◌, ◌<◌, ◌≡◌, refl, sym, ap, subst, ◌∙◌, Bool, true, false, [], ◌∷◌, ◌++◌,
  Option, some, inl, inr, Bool-cases, arith, ◌==◌, get_elem?, length, append_assoc, length-append,
}
use async_h.Base.Bytes.{Bytes}
use async_h.Io.{Read, Stream}
use async_h.Chunked.Decoder.{
  Parsed, partial, invalid, complete, Trailing, trailers, trailer_sending, send_trailers,
  insert_all, on_parsed, on_trailers, on_polled, step_in, trailers_size,
}
use async_h.Chunked.Decoder.Rounds.{decoder}
use async_h.Chunked.Decoder.Sound.{
  BeginsTrailer, absent, block, ParsesWithin, IsValid, Sound, read_then,
}

-- A position before the end is one that can be indexed.
indexed : (buf : Bytes) (i : ℕ) → i < length buf → (b : ℕ) × (get_elem? buf i ≡ some b)
indexed [] i h = absurd (omega arith)
indexed (x ∷ buf) zero h = (x, refl)
indexed (x ∷ buf) (suc i) h = indexed buf i (omega arith)

module _ {Trailers Sender Sending R : Type 0} (ext : Trailing Trailers Sender Sending) (io : Read R)
    (stream : Stream io) where
  module _ (inner : R) (size n : ℕ) (sender : Option Sender) (before : Bytes)
      (v : IsValid ext (decoder inner (trailers before) size sender)) where
    send-Sound :
        (t : Trailers) (inner' : R) (buf : Bytes)
        → length (stream.rest inner') ≤ length (stream.rest inner)
        → BeginsTrailer ext (before ++ stream.rest inner)
        → Sound ext io stream
            (decoder inner (trailers before) size sender)
            n
            (send_trailers ext t (decoder inner' (trailers buf) size sender))
    unfolding send_trailers
    send-Sound t inner' buf shorter whole = rw v.sender.1 (
      record { size_fits = v.size_fits; state_fits = tt; sender = tt },
      λ p e. (e, whole),
      omega arith,
    )

    parsed-Sound :
        (within : ParsesWithin ext) (inner' : R) (buf : Bytes)
        → length buf ≤ trailers_size
        → length (stream.rest inner') ≤ length (stream.rest inner)
        → before ++ stream.rest inner ≡ buf ++ stream.rest inner'
        → (parsed : Parsed) → ext.parse_headers buf ≡ parsed
        → Sound ext io stream
            (decoder inner (trailers before) size sender)
            n
            (on_parsed ext (decoder inner' (trailers buf) size sender) buf parsed)
    unfolding on_parsed
    parsed-Sound within inner' buf fits shorter whole invalid e = tt
    parsed-Sound within inner' buf fits shorter whole partial e =
        elim (Bool-cases (length buf == trailers_size)) [
          | inl z ↦ rw z tt
          | inr z ↦ rw z (
            record { size_fits = v.size_fits; state_fits = fits; sender = v.sender },
            λ p h. (h.0, subst (BeginsTrailer ext) (sym whole) h.1),
          )
        ]
    parsed-Sound within inner' buf fits shorter whole (complete offset headers) e =
        elim (Bool-cases (offset == length buf)) [
          | inl z ↦ rw z (
              send-Sound (insert_all ext ext.new headers) inner' buf shorter
                (block buf (stream.rest inner') headers whole fits (at_end z)))
          | inr z ↦ let (b, found) = indexed buf offset (inside z) in rw (z, found) tt
        ]
      where
        at_end :
            (offset == length buf) ≡ true → ext.parse_headers buf ≡ complete (length buf) headers
        at_end z = let same : offset ≡ length buf = ground arith in rw (← same) e

        inside : (offset == length buf) ≡ false → offset < length buf
        inside z = ground (arith, within buf offset headers e)

    read_trailers-Sound :
        (within : ParsesWithin ext) (inner' : R) (bytes : Bytes)
        → stream.rest inner ≡ bytes ++ stream.rest inner'
        → length bytes ≤ trailers_size - length before
        → (bytes ≡ [] → 0 < trailers_size - length before → stream.rest inner ≡ [])
        → Sound ext io stream
            (decoder inner (trailers before) size sender)
            n
            (on_trailers ext before (decoder inner' (trailers before) size sender) bytes)
    unfolding on_trailers
    read_trailers-Sound within inner' bytes cut short stop =
        elim (Bool-cases (length (before ++ bytes) == 0)) [
          | inl z ↦ rw z (send-Sound ext.new inner' (before ++ bytes) shorter (absent (at_eof z)))
          | inr z ↦ elim (Bool-cases (length bytes == 0)) [
            | inl none_read ↦ rw (z, none_read) tt
            | inr some_read ↦
                rw (z, some_read)
                  (parsed-Sound within inner' (before ++ bytes)
                    (omega (arith, length-append before bytes, v.state_fits)) shorter
                    (ap (λ (w : Bytes). before ++ w) cut
                      ∙ sym (append_assoc before bytes (stream.rest inner')))
                    (ext.parse_headers (before ++ bytes)) refl)
          ]
        ]
      where
        shorter : length (stream.rest inner') ≤ length (stream.rest inner)
        shorter = omega (arith, ap length cut, length-append bytes (stream.rest inner'))

        at_eof : (length (before ++ bytes) == 0) ≡ true → before ++ stream.rest inner ≡ []
        at_eof z = both before bytes z stop
          where
            both :
                (before bytes : Bytes)
                → (length (before ++ bytes) == 0) ≡ true
                → (bytes ≡ [] → 0 < trailers_size - length before → stream.rest inner ≡ [])
                → before ++ stream.rest inner ≡ []
            both [] [] z stop = stop refl (omega arith)
            both [] (x ∷ bytes) z stop = absurd (ground arith)
            both (x ∷ before) bytes z stop = absurd (ground arith)

    pub trailers-Sound :
        ParsesWithin ext
        → Sound ext io stream
            (decoder inner (trailers before) size sender)
            n
            (step_in ext io (trailers before) (decoder inner (trailers before) size sender) n)
    unfolding step_in
    trailers-Sound within =
        read_then ext io stream n (trailers_size - length before)
          (decoder inner (trailers before) size sender)
          (io.poll_read inner (trailers_size - length before)) (on_trailers ext before)
          (stream.serves inner (trailers_size - length before)) v (read_trailers-Sound within)

  pub sending-Sound :
      (inner : R) (size n : ℕ) (sender : Option Sender) (sending : Sending)
      → IsValid ext (decoder inner (trailer_sending sending) size sender)
      → Sound ext io stream (decoder inner (trailer_sending sending) size sender) n (
          step_in ext io
            (trailer_sending sending)
            (decoder inner (trailer_sending sending) size sender)
            n)
  unfolding step_in
  sending-Sound inner size n sender sending v = go (ext.poll sending)
    where
      go :
          (polled : Sending × Bool)
          → Sound ext io stream
              (decoder inner (trailer_sending sending) size sender)
              n
              (on_polled ext (decoder inner (trailer_sending sending) size sender) polled)
      go (s, true) =
          (record { size_fits = v.size_fits; state_fits = tt; sender = tt }, λ p e. e, omega arith)
      go (s, false) = (record { size_fits = v.size_fits; state_fits = tt; sender = tt }, λ p e. e)
