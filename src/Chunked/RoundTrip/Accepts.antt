-- ===== src/Chunked/RoundTrip/Accepts.antt =====
-- What a stream begins with on which the decoder of src/chunked/decoder.rs is done: chunks, the
-- last one, and trailers, in a format laxer than that of RFC 7230. A size may have no digits and is
-- zero then, and the end of the stream may stand for the trailers and their empty line, so that
-- some truncated and malformed bodies are accepted.
use async_h.Base.{
  ℕ, suc, ◌≡◌, refl, sym, subst, List, [], ◌∷◌, ◌++◌, arith, append_assoc, append-nil,
}
use async_h.Base.Bytes.{Bytes}
use async_h.Io.{Poll, ready, failed, pending, panic, out_of_fuel, Read, Stream}
use async_h.Chunked.Wire.{IsChunked, sized}
use async_h.Chunked.Decoder.{Trailing, done, ChunkedDecoder, new, poll_read}
use async_h.Chunked.Decoder.Rounds.{measure}
use async_h.Chunked.Decoder.Sound.{
  BeginsTrailer, ParsesWithin, IsValid, HoldsIn, Holds, Reads, Answers,
}
use async_h.Chunked.Decoder.Answers.{poll_read-Answers, new-IsValid}
use async_h.Chunked.RoundTrip.{returned, drain}

abbrev pub Succeeds : Poll Bytes → Type 0
Succeeds (ready bytes) = Unit
Succeeds pending = Unit
Succeeds _ = ⊥

module _ {Trailers Sender Sending R : Type 0} (ext : Trailing Trailers Sender Sending) (io : Read R)
    (stream : Stream io) where
  -- No call of `drain` fails.
  abbrev pub NoneFails : ChunkedDecoder R Sender Sending → List ℕ → Type 0
  NoneFails d [] = Unit
  NoneFails d (n ∷ ns) =
      Succeeds (poll_read ext io (suc (measure ext io stream d)) d n).1
      × NoneFails (poll_read ext io (suc (measure ext io stream d)) d n).0 ns

  module _ (within : ParsesWithin ext) where
    then_drain :
        (n : ℕ) (ns : List ℕ) (d : ChunkedDecoder R Sender Sending)
        (r : ChunkedDecoder R Sender Sending × Poll Bytes)
        → Answers ext io stream d n r
        → Succeeds r.1
        → (IsValid ext r.0
            → Reads ext io stream r.0 (drain ext io stream r.0 ns).1 (drain ext io stream r.0 ns).0)
        → Reads ext io stream d
            (returned r.1 ++ (drain ext io stream r.0 ns).1)
            (drain ext io stream r.0 ns).0
    then_drain n ns d (d', ready bytes) (v, reads, short, stop) fine rest p h =
        subst (Holds ext io stream d) (sym (append_assoc bytes (drain ext io stream d' ns).1 p))
          (reads ((drain ext io stream d' ns).1 ++ p) (rest v p h))
    then_drain n ns d (d', pending) (v, reads) fine rest p h =
        reads ((drain ext io stream d' ns).1 ++ p) (rest v p h)
    then_drain n ns d (d', failed e) a fine rest p h = absurd fine
    then_drain n ns d (d', panic) a fine rest p h = absurd fine
    then_drain n ns d (d', out_of_fuel) a fine rest p h = absurd fine

    drain-Reads :
        (ns : List ℕ) (d : ChunkedDecoder R Sender Sending)
        → IsValid ext d
        → NoneFails d ns
        → Reads ext io stream d (drain ext io stream d ns).1 (drain ext io stream d ns).0
    unfolding drain
    drain-Reads [] d v fine = λ p h. h
    drain-Reads (n ∷ ns) d v fine =
        then_drain n ns d (poll_read ext io (suc (measure ext io stream d)) d n)
          (poll_read-Answers ext within io stream (suc (measure ext io stream d)) n d (omega arith)
            v)
          fine.0
          (λ v'. drain-Reads ns (poll_read ext io (suc (measure ext io stream d)) d n).0 v' fine.1)

    of_new :
        (inner : R) (sender : Sender) (p : Bytes)
        → Holds ext io stream (new inner sender) p
        → IsChunked (BeginsTrailer ext) (stream.rest inner) p
    unfolding new
    of_new inner sender p (digits, w, total, value, cut, after) =
        sized digits w total value cut after

    -- Over a stream of any bytes on which no read fails, with a header parser that reads no further
    -- than its input: if no call on a new decoder fails and the last leaves it done, then the
    -- stream begins with chunks, a last chunk of size zero and a trailer part, and what the calls
    -- returned is the data of the chunks. The format is laxer than that of the RFC: a size may have
    -- no digits, and is zero then, and the trailer part, with its empty line, may be missing at the
    -- end of the stream.
    pub drain-IsChunked :
        (inner : R) (sender : Sender) (ns : List ℕ)
        → NoneFails (new inner sender) ns
        → (drain ext io stream (new inner sender) ns).0.state ≡ done
        → IsChunked
            (BeginsTrailer ext)
            (stream.rest inner)
            (drain ext io stream (new inner sender) ns).1
    drain-IsChunked inner sender ns fine finished =
        let reads : Reads ext io stream (new inner sender)
            (drain ext io stream (new inner sender) ns).1
            (drain ext io stream (new inner sender) ns).0 =
          drain-Reads ns (new inner sender) (new-IsValid ext inner sender) fine in
        subst (IsChunked (BeginsTrailer ext) (stream.rest inner))
          (append-nil (drain ext io stream (new inner sender) ns).1)
          (of_new inner sender _
            (reads [] (at_end (drain ext io stream (new inner sender) ns).0 finished)))
      where
        at_end : (d : ChunkedDecoder R Sender Sending) → d.state ≡ done → Holds ext io stream d []
        at_end d e = subst (λ s. HoldsIn ext s d.size (stream.rest d.inner) []) (sym e) refl
