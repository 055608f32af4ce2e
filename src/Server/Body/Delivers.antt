-- ===== src/Server/Body/Delivers.antt =====
-- A `BodyReader` of src/server/body_reader.rs delivers the body that it owes.
use async_h.Base.{ℕ, ◌≤◌, ◌<◌, ◌≡◌, refl, [], ◌++◌, arith, length}
use async_h.Base.Bytes.{Bytes}
use async_h.Io.{Poll, ready, failed, pending, panic, out_of_fuel, Read, Stream, Serves}
use async_h.Chunked.Decoder.{ChunkedDecoder, Trailing}
use async_h.Chunked.Decoder as Chunked
use async_h.Chunked.Decoder.Owes.{Owes}
use async_h.Chunked.Decoder.Rounds.{Delivers, measure}
use async_h.Chunked.Decoder.Delivers.{poll_read-Delivers}
use async_h.Server.Body.{BodyReader, chunked, fixed, no_body, poll_read, as_chunked, as_fixed}

module _ {R T Trailers Sender Sending : Type 0} (ext : Trailing Trailers Sender Sending)
    (io : Read R) (take_io : Read T) (stream : Stream io) (taken : Stream take_io) where
  abbrev pub BodyOwes : BodyReader R T Sender Sending → Bytes → Type 0
  BodyOwes (chunked d) p = Owes ext stream d p
  BodyOwes (fixed t) p = taken.rest t ≡ p
  BodyOwes no_body p = p ≡ []

  -- The rounds that a read may take.
  abbrev pub rounds : BodyReader R T Sender Sending → ℕ
  rounds (chunked d) = measure ext io stream d
  rounds _ = 0

  abbrev pub BodyDelivers : ℕ → Bytes → BodyReader R T Sender Sending × Poll Bytes → Type 0
  BodyDelivers n p (b, ready bytes) =
      (p' : Bytes) × (p ≡ bytes ++ p') × BodyOwes b p' × (length bytes ≤ n) × (bytes ≡ [] → p ≡ [])
  BodyDelivers n p (b, pending) = BodyOwes b p
  BodyDelivers n p (b, failed e) = ⊥
  BodyDelivers n p (b, panic) = ⊥
  BodyDelivers n p (b, out_of_fuel) = ⊥

  chunked-BodyDelivers :
      (n : ℕ) (p : Bytes) (o : ChunkedDecoder R Sender Sending × Poll Bytes)
      → Delivers ext io stream n p o
      → BodyDelivers n p (as_chunked ext io take_io o)
  chunked-BodyDelivers n p (d, ready bytes) (p', whole, owes, short, stop) =
      (p', whole, owes, short, λ h. (stop h).0)
  chunked-BodyDelivers n p (d, pending) h = h
  chunked-BodyDelivers n p (d, failed e) h = h
  chunked-BodyDelivers n p (d, panic) h = h
  chunked-BodyDelivers n p (d, out_of_fuel) h = h

  fixed-BodyDelivers :
      (n : ℕ) (p : Bytes) (o : T × Poll Bytes)
      → 0 < n
      → Serves taken.rest p n o
      → BodyDelivers n p (as_fixed ext io take_io o)
  fixed-BodyDelivers n p (t, ready bytes) room (cut, short, stop) =
      (taken.rest t, cut, refl, short, λ h. stop h room)
  fixed-BodyDelivers n p (t, pending) room h = h
  fixed-BodyDelivers n p (t, failed e) room h = h
  fixed-BodyDelivers n p (t, panic) room h = h
  fixed-BodyDelivers n p (t, out_of_fuel) room h = h

  -- Over streams on which no read fails, a read of a body into a buffer that is not empty, with
  -- enough rounds for the decoder, returns the next part of the body that the reader owes, or is
  -- pending and owes the same. It returns no bytes only at the end of the body.
  pub poll_read-BodyDelivers :
      (fuel n : ℕ) (b : BodyReader R T Sender Sending) (p : Bytes)
      → 0 < n
      → rounds b < fuel
      → BodyOwes b p
      → BodyDelivers n p (poll_read ext io take_io fuel b n)
  unfolding poll_read
  poll_read-BodyDelivers fuel n (chunked d) p room enough o =
      chunked-BodyDelivers n p (Chunked.poll_read ext io fuel d n)
        (poll_read-Delivers ext io stream fuel n d p room enough o)
  poll_read-BodyDelivers fuel n (fixed t) p room enough o =
      rw (← o) (fixed-BodyDelivers n (taken.rest t) (take_io.poll_read t n) room (taken.serves t n))
  poll_read-BodyDelivers fuel n no_body p room enough o = ([], o, refl, omega arith, λ h. o)
