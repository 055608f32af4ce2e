-- ===== src/Chunked/RoundTrip/Ends.antt =====
-- The calls of `ChunkedDecoder::poll_read` in src/chunked/decoder.rs come to an end.
use async_h.Base.{
  ℕ, suc, ◌+◌, ◌<◌, ◌≡◌, refl, sym, ap, subst, List, [], ◌∷◌, arith, length, length-append,
}
use async_h.Base.Bytes.{Bytes}
use async_h.Io.{Poll, ready, failed, pending, panic, out_of_fuel, Read, Stream}
use async_h.Chunked.Decoder.{Trailing, done, ChunkedDecoder, poll_read, step_in}
use async_h.Chunked.Decoder.Owes.{Owes}
use async_h.Chunked.Decoder.Rounds.{measure, Delivers}
use async_h.Chunked.Decoder.Delivers.{poll_read-Delivers}
use async_h.Chunked.RoundTrip.{AllPositive, drain}

abbrev pub count : Poll Bytes → ℕ
count (ready bytes) = 1
count _ = 0

module _ {Trailers Sender Sending R : Type 0} (ext : Trailing Trailers Sender Sending) (io : Read R)
    (stream : Stream io) where
  -- How many of the calls of `drain` are answered, that is, not pending.
  unfoldable pub answers : ChunkedDecoder R Sender Sending → List ℕ → ℕ
  answers d [] = 0
  answers d (n ∷ ns) =
      let (d', o) = poll_read ext io (suc (measure ext io stream d)) d n in count o + answers d' ns

  done-stays :
      (fuel n : ℕ) (d : ChunkedDecoder R Sender Sending)
      → d.state ≡ done
      → (poll_read ext io (suc fuel) d n).0.state ≡ done
  unfolding poll_read step_in
  done-stays fuel n d h =
      subst (λ s. (poll_read ext io (suc fuel) (record d { state = s }) n).0.state ≡ done) (sym h)
        refl

  drain-stays :
      (ns : List ℕ) (d : ChunkedDecoder R Sender Sending)
      → d.state ≡ done
      → (drain ext io stream d ns).0.state ≡ done
  unfolding drain
  drain-stays [] d h = h
  drain-stays (n ∷ ns) d h =
      drain-stays ns (poll_read ext io (suc (measure ext io stream d)) d n).0
        (done-stays (measure ext io stream d) n d h)

  answered :
      (n : ℕ) (ns : List ℕ) (p : Bytes) (r : ChunkedDecoder R Sender Sending × Poll Bytes)
      → Delivers ext io stream n p r
      → length p < count r.1 + answers r.0 ns
      → ((p' : Bytes)
          → Owes ext stream r.0 p'
          → length p' < answers r.0 ns
          → (drain ext io stream r.0 ns).0.state ≡ done)
      → (drain ext io stream r.0 ns).0.state ≡ done
  answered n ns p (d, ready []) (p', whole, o, short, stop) many rest =
      drain-stays ns d (stop refl).1
  answered n ns p (d, ready (x ∷ bytes)) (p', whole, o, short, stop) many rest =
      rest p' o (omega (arith, ap length whole, length-append bytes p'))
  answered n ns p (d, pending) o many rest = rest p o (omega (arith, many))
  answered n ns p (d, failed e) h many rest = absurd h
  answered n ns p (d, panic) h many rest = absurd h
  answered n ns p (d, out_of_fuel) h many rest = absurd h

  -- Over a stream on which no read fails, a decoder that owes a payload is done as soon as more of
  -- its calls were answered than the payload has bytes, for calls on buffers that are not empty.
  pub drain-done :
      (ns : List ℕ) (d : ChunkedDecoder R Sender Sending) (p : Bytes)
      → AllPositive ns
      → Owes ext stream d p
      → length p < answers d ns
      → (drain ext io stream d ns).0.state ≡ done
  unfolding drain answers
  drain-done [] d p positive o many = absurd (omega arith)
  drain-done (n ∷ ns) d p positive o many =
      answered n ns p (poll_read ext io (suc (measure ext io stream d)) d n)
        (poll_read-Delivers ext io stream (suc (measure ext io stream d)) n d p positive.0
          (omega arith) o)
        many
        (λ p' o' more.
          drain-done ns (poll_read ext io (suc (measure ext io stream d)) d n).0 p' positive.1 o'
            more)
