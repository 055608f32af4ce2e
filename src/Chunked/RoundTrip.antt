-- ===== src/Chunked/RoundTrip.antt =====
-- src/chunked/encoder.rs and src/chunked/decoder.rs together: what a decoder returns over a
-- sequence of calls, and a body that is encoded and decoded again.
pub mod Ends
pub mod Accepts
use async_h.Base.{
  ℕ, suc, ◌<◌, ◌≡◌, ◌≢◌, refl, sym, ap, subst, ◌∙◌, true, false, List, [], ◌∷◌, ◌++◌, arith,
  append_assoc, append-nil, length,
}
use async_h.Base.Bytes.{Bytes}
use async_h.Io.{Poll, ready, failed, pending, panic, out_of_fuel, Read, Stream}
use async_h.Chunked.Wire.{cr, lf, IsChunked}
use async_h.Chunked.Encoder.Frame.{IsExact}
use async_h.Chunked.Encoder.Emits.{AllFit, emit, emit-IsChunked}
use async_h.Chunked.Decoder.{Trailing, complete, partial, done, ChunkedDecoder, new, poll_read}
use async_h.Chunked.Decoder.Owes.{IsTrailer, block, OwesIn, Owes}
use async_h.Chunked.Decoder.Rounds.{measure, Delivers}
use async_h.Chunked.Decoder.Delivers.{poll_read-Delivers, new-Owes}

abbrev pub returned : Poll Bytes → Bytes
returned (ready bytes) = bytes
returned _ = []

abbrev pub AllPositive : List ℕ → Type 0
AllPositive [] = Unit
AllPositive (n ∷ ns) = (0 < n) × AllPositive ns

module _ {Trailers Sender Sending R : Type 0} (ext : Trailing Trailers Sender Sending) (io : Read R)
    (stream : Stream io) where
  abbrev onto :
      Bytes → ChunkedDecoder R Sender Sending × Bytes → ChunkedDecoder R Sender Sending × Bytes
  onto out (d, more) = (d, out ++ more)

  -- Calls on buffers of the given lengths, and all the bytes that they return. Each call has the
  -- fuel that `poll_read-Delivers` asks for.
  unfoldable pub drain :
      ChunkedDecoder R Sender Sending → List ℕ → ChunkedDecoder R Sender Sending × Bytes
  drain d [] = (d, [])
  drain d (n ∷ ns) =
      let (d', o) = poll_read ext io (suc (measure ext io stream d)) d n in
      onto (returned o) (drain d' ns)

  -- The bytes returned are the beginning of the payload, and the decoder owes the rest.
  abbrev pub Drained : Bytes → ChunkedDecoder R Sender Sending × Bytes → Type 0
  Drained p (d, out) = (p' : Bytes) × (p ≡ out ++ p') × Owes ext stream d p'

  first_then :
      (n : ℕ) (ns : List ℕ) (p : Bytes) (r : ChunkedDecoder R Sender Sending × Poll Bytes)
      → Delivers ext io stream n p r
      → ((p' : Bytes) → Owes ext stream r.0 p' → Drained p' (drain r.0 ns))
      → Drained p (onto (returned r.1) (drain r.0 ns))
  first_then n ns p (d, ready bytes) (p', whole, o, short, stop) rest =
      let (p'', whole', o') = rest p' o in
      (p'', whole ∙ ap (λ (b : Bytes). bytes ++ b) whole' ∙ sym (append_assoc bytes _ p''), o')
  first_then n ns p (d, pending) o rest = rest p o
  first_then n ns p (d, failed e) h rest = absurd h
  first_then n ns p (d, panic) h rest = absurd h
  first_then n ns p (d, out_of_fuel) h rest = absurd h

  pub drain-Drained :
      (ns : List ℕ) (d : ChunkedDecoder R Sender Sending) (p : Bytes)
      → AllPositive ns
      → Owes ext stream d p
      → Drained p (drain d ns)
  unfolding drain
  drain-Drained [] d p positive o = (p, refl, o)
  drain-Drained (n ∷ ns) d p positive o =
      first_then n ns p (poll_read ext io (suc (measure ext io stream d)) d n)
        (poll_read-Delivers ext io stream (suc (measure ext io stream d)) n d p positive.0
          (omega arith) o)
        (λ p' o'. drain-Drained ns _ p' positive.1 o')

  done-Owes :
      (d : ChunkedDecoder R Sender Sending) (p : Bytes)
      → Owes ext stream d p
      → d.state ≡ done
      → p ≡ []
  done-Owes d p o h = subst (λ s. OwesIn ext s d.size (stream.rest d.inner) p) h o.owes

  -- Over a stream on which no read fails and that holds a chunked message:
  -- the bytes returned until the decoder is done are the payload of the message, whatever the
  -- lengths of the buffers and however the message arrives.
  pub drain-payload :
      (inner : R) (sender : Sender) (ns : List ℕ) (p : Bytes)
      → AllPositive ns
      → IsChunked (IsTrailer ext) (stream.rest inner) p
      → (drain (new inner sender) ns).0.state ≡ done
      → (drain (new inner sender) ns).1 ≡ p
  drain-payload inner sender ns p positive message finished =
      let (p', whole, o) =
        drain-Drained ns (new inner sender) p positive
          (new-Owes ext io stream inner sender p message) in
      let none_left = done-Owes _ p' o finished in
      sym
        (whole ∙ ap (λ (b : Bytes). (drain (new inner sender) ns).1 ++ b) none_left ∙ append-nil _)

-- A header parser that accepts an empty line, and waits for more after its first byte.
pub record ParsesEmpty {Trailers Sender Sending : Type 0} (ext : Trailing Trailers Sender Sending)
    : Type 0 where
  pub whole : ext.parse_headers (cr ∷ lf ∷ []) ≡ complete 2 []
  pub part : ext.parse_headers (cr ∷ []) ≡ partial

module _ {Trailers Sender Sending : Type 0} (ext : Trailing Trailers Sender Sending)
    (parses : ParsesEmpty ext) where
  before_line :
      (a b : Bytes) → cr ∷ lf ∷ [] ≡ a ++ b → a ≢ [] → b ≢ [] → ext.parse_headers a ≡ partial
  before_line [] b e some_read some_left = absurd (some_read refl)
  before_line (x ∷ []) b e some_read some_left = let first : x ≡ cr = cc in rw first parses.part
  before_line (x ∷ y ∷ []) b e some_read some_left = absurd (some_left cc)
  before_line (x ∷ y ∷ z ∷ a) b e some_read some_left = absurd (omega (arith, ap length e))

  pub line-IsTrailer : IsTrailer ext (cr ∷ lf ∷ [])
  line-IsTrailer = block [] (omega arith) parses.whole before_line

-- A body that the encoder has emitted to its end comes out of the decoder unchanged: for every cut
-- of the reads on both sides, every encoder buffer of at least six and fewer than 2^48 bytes and
-- every decoder buffer that is not empty, once the decoder is done. The streams never fail, the
-- logarithm is exact and the header parser accepts the empty line, waiting for more after its first
-- byte.
pub drain-emit :
    {Trailers Sender Sending R S : Type 0} (ext : Trailing Trailers Sender Sending)
    (parses : ParsesEmpty ext) (io : Read R) (stream : Stream io) (io' : Read S)
    (stream' : Stream io') (ceil_log16 : ℕ → ℕ) (exact : IsExact ceil_log16) (reader : R)
    (bufs : List Bytes) (inner : S) (sender : Sender) (ns : List ℕ)
    → AllFit bufs
    → AllPositive ns
    → (emit ceil_log16 io (record { reader = reader; done = false }) bufs).0.done ≡ true
    → stream'.rest inner ≡ (emit ceil_log16 io (record { reader = reader; done = false }) bufs).1
    → (drain ext io' stream' (new inner sender) ns).0.state ≡ done
    → (drain ext io' stream' (new inner sender) ns).1 ≡ stream.rest reader
drain-emit ext parses io stream io' stream' ceil_log16 exact reader bufs inner sender ns fit
      positive ended same finished =
    drain-payload ext io' stream' inner sender ns (stream.rest reader) positive
      (rw same (
        emit-IsChunked stream ceil_log16 exact (IsTrailer ext) (line-IsTrailer ext parses) reader
          bufs fit ended))
      finished
