-- ===== src/Chunked/Decoder/Rounds/Trailers.antt =====
-- The rounds of src/chunked/decoder.rs in the states of the trailers.
use async_h.Base.{
  ℕ, ◌+◌, ◌-◌, ◌≤◌, ◌<◌, ◌≡◌, ◌≢◌, refl, sym, ap, ◌∙◌, Bool, true, false, [], ◌∷◌, ◌++◌, Option,
  arith, ◌==◌, length, append-nil, append_assoc, length-append,
}
use async_h.Base.Bytes.{Bytes}
use async_h.Io.{Read, Stream}
use async_h.Chunked.Decoder.{
  partial, complete, Trailing, trailers, trailer_sending, send_trailers, insert_all, on_parsed,
  on_trailers, on_polled, step_in, trailers_size,
}
use async_h.Chunked.Decoder.Owes.{IsTrailer, absent, block, HasSender, Owes}
use async_h.Chunked.Decoder.Rounds.{decoder, measure, After, read_then}

nil-left : (a b : Bytes) → a ++ b ≡ [] → a ≡ []
nil-left [] b h = refl
nil-left (x ∷ a) b h = cc

pos_length : (b : Bytes) → b ≢ [] → 0 < length b
pos_length [] h = absurd (h refl)
pos_length (x ∷ b) h = omega arith

module _ {Trailers Sender Sending R : Type 0} (ext : Trailing Trailers Sender Sending) (io : Read R)
    (stream : Stream io) where
  module _ (inner : R) (size n : ℕ) (sender : Option Sender) (p : Bytes) where
    -- The trailers are sent: nothing is left to deliver.
    send-After :
        (t : Trailers) (inner' : R) (buf : Bytes)
        → p ≡ []
        → HasSender ext (trailers buf) sender
        → length (stream.rest inner') ≤ length (stream.rest inner)
        → After ext io stream
            (length (stream.rest inner) + 2)
            n
            p
            (send_trailers ext t (decoder inner' (trailers buf) size sender))
    unfolding send_trailers
    send-After t inner' buf e (s, h) shorter = rw h (record { owes = e; sender = tt }, omega arith)

    -- A header block that is not yet complete, or complete.
    parsed-After :
        (inner' : R) (buf : Bytes)
        → p ≡ []
        → HasSender ext (trailers buf) sender
        → buf ≢ []
        → length (stream.rest inner') ≤ length (stream.rest inner)
        → IsTrailer ext (buf ++ stream.rest inner')
        → After ext io stream
            (length (stream.rest inner) + 2)
            n
            p
            (on_parsed ext (decoder inner' (trailers buf) size sender) buf (ext.parse_headers buf))
    unfolding on_parsed
    parsed-After inner' buf e s some_read shorter t = go (stream.rest inner') refl t
      where
        go :
            (rest : Bytes)
            → stream.rest inner' ≡ rest
            → IsTrailer ext (buf ++ rest)
            → After ext io stream (length (stream.rest inner) + 2) n p (
                on_parsed ext
                  (decoder inner' (trailers buf) size sender)
                  buf
                  (ext.parse_headers buf))
        go rest r (absent none_left) = absurd (some_read (nil-left buf rest none_left))
        go [] r (block headers fits whole part) =
            let parsed : ext.parse_headers buf ≡ complete (length buf) headers =
              rw append-nil at whole in
            let at_end : (length buf == length buf) ≡ true = ground arith in
            rw (parsed, at_end) (send-After (insert_all ext ext.new headers) inner' buf e s shorter)
        go (x ∷ rest) r (block headers fits whole part) =
            let parsed : ext.parse_headers buf ≡ partial =
              part buf (x ∷ rest) refl some_read (λ h. cc) in
            let room : (length buf == trailers_size) ≡ false =
              ground (arith, length-append buf (x ∷ rest)) in
            rw (parsed, room)
              (record {
                owes = (e, rw r (block headers fits whole part), λ _ h. cc (sym r ∙ h));
                sender = s;
              })

    read_trailers :
        (buf bytes : Bytes) (inner' : R)
        → stream.rest inner ≡ bytes ++ stream.rest inner'
        → (bytes ≡ [] → 0 < trailers_size - length buf → stream.rest inner ≡ [])
        → Owes ext stream (decoder inner (trailers buf) size sender) p
        → After ext io stream
            (length (stream.rest inner) + 2)
            n
            p
            (on_trailers ext buf (decoder inner' (trailers buf) size sender) bytes)
    unfolding on_trailers
    read_trailers [] [] inner' cut stop o =
        send-After ext.new inner' [] o.owes.0 o.sender (omega (arith, ap length cut))
    read_trailers (b ∷ buf) [] inner' cut stop o =
        let to_come = o.owes.2 (λ h. cc) in absurd (to_come (stop refl (room o.owes.1 to_come)))
      where
        room :
            IsTrailer ext ((b ∷ buf) ++ stream.rest inner)
            → stream.rest inner ≢ []
            → 0 < trailers_size - length (b ∷ buf)
        room (absent none_left) to_come = absurd (cc none_left)
        room (block headers fits whole part) to_come =
            omega (arith, length-append (b ∷ buf) (stream.rest inner), pos_length _ to_come)
    read_trailers buf (x ∷ bytes) inner' cut stop o =
        let l = length-append buf (x ∷ bytes) in
        let test : (length (buf ++ x ∷ bytes) == 0) ≡ false = ground arith in
        let l' = length-append (x ∷ bytes) (stream.rest inner') in
        let whole : buf ++ stream.rest inner ≡ buf ++ x ∷ bytes ++ stream.rest inner' =
          ap (λ (w : Bytes). buf ++ w) cut
          ∙ sym (append_assoc buf (x ∷ bytes) (stream.rest inner')) in
        let test' : (length (x ∷ bytes) == 0) ≡ false = ground arith in
        rw (test, test')
          (parsed-After inner' (buf ++ x ∷ bytes) o.owes.0 o.sender
            (λ h. absurd (omega (arith, ap length h))) (omega (arith, ap length cut))
            (rw whole at o.owes.1))

    pub trailers-After :
        (buf : Bytes)
        → Owes ext stream (decoder inner (trailers buf) size sender) p
        → After ext io stream
            (measure ext io stream (decoder inner (trailers buf) size sender))
            n
            p
            (step_in ext io (trailers buf) (decoder inner (trailers buf) size sender) n)
    unfolding step_in
    trailers-After buf o =
        read_then ext io stream (length (stream.rest inner) + 2) n (trailers_size - length buf) p
          (stream.rest inner) (decoder inner (trailers buf) size sender)
          (io.poll_read inner (trailers_size - length buf)) (on_trailers ext buf)
          (stream.serves inner (trailers_size - length buf))
          (λ inner' same. record { owes = rw same o.owes; sender = o.sender })
          λ inner' bytes cut short stop. read_trailers buf bytes inner' cut stop o

    pub sending-After :
        (sending : Sending)
        → Owes ext stream (decoder inner (trailer_sending sending) size sender) p
        → After ext io stream
            (measure ext io stream (decoder inner (trailer_sending sending) size sender))
            n
            p
            (step_in ext io
              (trailer_sending sending)
              (decoder inner (trailer_sending sending) size sender)
              n)
    unfolding step_in
    sending-After sending o = go (ext.poll sending)
      where
        go :
            (polled : Sending × Bool)
            → After ext io stream
                (length (stream.rest inner) + 1)
                n
                p
                (on_polled ext (decoder inner (trailer_sending sending) size sender) polled)
        go (s, true) = (record { owes = o.owes; sender = tt }, omega arith)
        go (s, false) = record { owes = o.owes; sender = tt }
