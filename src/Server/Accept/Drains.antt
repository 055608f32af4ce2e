-- ===== src/Server/Accept/Drains.antt =====
-- Runs of reads of the body of a request, as the endpoint and the copies of `accept_one` of
-- src/server/mod.rs make them: they return the front of the body that is owed, and what they have
-- not returned stays owed. This is about the `BodyReader` alone: what its `BufReader` has read
-- ahead of the body is lost with it, and not given to the next request.
use async_h.Base.{ℕ, ◌<◌, ◌≡◌, refl, sym, ap, ◌∙◌, subst, [], ◌++◌, append_assoc, append-nil}
use async_h.Base.Bytes.{Bytes}
use async_h.Io.{ready, pending, Read, Stream}
use async_h.Chunked.Decoder.{Trailing}
use async_h.Server.Body.{BodyReader, poll_read}
use async_h.Server.Body.Delivers.{BodyOwes, BodyDelivers, rounds, poll_read-BodyDelivers}

module _ {R T Trailers Sender Sending : Type 0} (ext : Trailing Trailers Sender Sending)
    (io : Read R) (take_io : Read T) (stream : Stream io) (taken : Stream take_io) where
  -- Reads of a body, each into a buffer that is not empty, and the bytes that they returned.
  pub data Reads (b : BodyReader R T Sender Sending)
      : Bytes → BodyReader R T Sender Sending → Type 0 where
    here : Reads b [] b
    waits :
        {bytes : Bytes} {b' b'' : BodyReader R T Sender Sending} (fuel n : ℕ)
        → Reads b bytes b'
        → 0 < n
        → rounds ext io take_io stream taken b' < fuel
        → poll_read ext io take_io fuel b' n ≡ (b'', pending)
        → Reads b bytes b''
    returns :
        {bytes next all : Bytes} {b' b'' : BodyReader R T Sender Sending} (fuel n : ℕ)
        → Reads b bytes b'
        → 0 < n
        → rounds ext io take_io stream taken b' < fuel
        → poll_read ext io take_io fuel b' n ≡ (b'', ready next)
        → all ≡ bytes ++ next
        → Reads b all b''

  -- Such reads, the last of which returned no bytes: what `io::copy` does.
  pub data ReadsToEnd (b : BodyReader R T Sender Sending) (bytes : Bytes)
      : BodyReader R T Sender Sending → Type 0 where
    ends :
        {b' b'' : BodyReader R T Sender Sending} (fuel n : ℕ)
        → Reads b bytes b'
        → 0 < n
        → rounds ext io take_io stream taken b' < fuel
        → poll_read ext io take_io fuel b' n ≡ (b'', ready [])
        → ReadsToEnd b bytes b''

  -- Reads return the front of the body that was owed, and the rest stays owed.
  pub Reads-BodyOwes :
      {b b' : BodyReader R T Sender Sending} {bytes : Bytes} (p : Bytes)
      → BodyOwes ext io take_io stream taken b p
      → Reads b bytes b'
      → (left : Bytes) × (p ≡ bytes ++ left) × BodyOwes ext io take_io stream taken b' left
  Reads-BodyOwes p o here = (p, refl, o)
  Reads-BodyOwes p o (waits {b' = b'} {b'' = b''} fuel n r room enough e) =
      let (left, whole, o') = Reads-BodyOwes p o r in
      (
        left,
        whole,
        subst (BodyDelivers ext io take_io stream taken n left) e
            (poll_read-BodyDelivers ext io take_io stream taken fuel n b' left room enough o'),
      )
  Reads-BodyOwes p o
        (returns {bytes = bytes} {next = next} {b' = b'} fuel n r room enough e together) =
      let (left, whole, o') = Reads-BodyOwes p o r in
      let (left', cut, o'', short, stop) =
        subst (BodyDelivers ext io take_io stream taken n left) e
          (poll_read-BodyDelivers ext io take_io stream taken fuel n b' left room enough o') in
      (
        left',
        whole
            ∙ ap (λ (s : Bytes). bytes ++ s) cut
            ∙ sym (append_assoc bytes next left')
            ∙ ap (λ (s : Bytes). s ++ left') (sym together),
        o'',
      )

  pub ReadsToEnd-BodyOwes :
      {b b' : BodyReader R T Sender Sending} {bytes : Bytes} (p : Bytes)
      → BodyOwes ext io take_io stream taken b p
      → ReadsToEnd b bytes b'
      → (p ≡ bytes) × BodyOwes ext io take_io stream taken b' []
  ReadsToEnd-BodyOwes {bytes = bytes} p o (ends {b' = b'} {b'' = b''} fuel n r room enough e) =
      let (left, whole, o') = Reads-BodyOwes p o r in
      let (left', cut, o'', short, stop) =
        subst (BodyDelivers ext io take_io stream taken n left) e
          (poll_read-BodyDelivers ext io take_io stream taken fuel n b' left room enough o') in
      let none_left : left ≡ [] = stop refl in
      (
        whole ∙ ap (λ (s : Bytes). bytes ++ s) none_left ∙ append-nil bytes,
        subst (BodyOwes ext io take_io stream taken b'') (sym cut ∙ none_left) o'',
      )
