-- ===== src/Server/Accept/Bodies.antt =====
-- What becomes of the body of a request that `accept_one` of src/server/mod.rs has handled, where
-- it keeps the connection open.
use async_h.Base.{ℕ, ◌≡◌, sym, ap, ◌∙◌, [], ◌++◌, append_assoc, some, ok, length}
use async_h.Base.Bytes.{Bytes}
use async_h.Io.{Read, Stream}
use async_h.Chunked.Decoder.{Trailing}
use async_h.Head.{BufRead}
use async_h.Server.Body.{BodyReader}
use async_h.Server.Body.Delivers.{BodyOwes}
use async_h.Server.Decode.{Http, Decoded}
use async_h.Server.Encode.{Encoder}
use async_h.Server.Accept.{Calls, Server, Endpoint, accept_one, decode_request, keep_alive}
use async_h.Server.Accept.Status.{KeepsAlive, accept_one-KeepsAlive_iff}
use async_h.Server.Accept.Drains.{Reads, ReadsToEnd, Reads-BodyOwes, ReadsToEnd-BodyOwes}

module _
    {W Request Response Outgoing UpgradeSender Url Method Sender Sending Trailers Channel Cell R
      T : Type 0}
    (http : Http Request Url Method Sender Channel Cell R T) (lines_io : BufRead R)
    (calls : Calls W R Request Response (BodyReader R T Sender Sending) Outgoing UpgradeSender)
    (ext : Trailing Trailers Sender Sending) (io : Read R) (take_io : Read T) (stream : Stream io)
    (taken : Stream take_io) where
  -- The endpoint and the copies change the body of the request by reading it only, and the copy
  -- into the sink, where it succeeds, reads to the end and returns the number of bytes.
  pub record OnlyReads (endpoint : Endpoint W Request Response (BodyReader R T Sender Sending))
      : Type 0 where
    pub endpoint_reads :
        (req : Request) (s s' : W × BodyReader R T Sender Sending) (res : Response)
        → endpoint req s ≡ (s', ok res)
        → (bytes : Bytes) × Reads ext io take_io stream taken s.1 bytes s'.1
    pub response_reads :
        (e : Encoder Response Outgoing) (s s' : W × BodyReader R T Sender Sending) (n : ℕ)
        → calls.copy_response e s ≡ (s', ok n)
        → (bytes : Bytes) × Reads ext io take_io stream taken s.1 bytes s'.1
    pub body_reads :
        (s s' : W × BodyReader R T Sender Sending) (n : ℕ)
        → calls.copy_body s ≡ (s', ok n)
        → (bytes : Bytes) × (length bytes ≡ n)
          × ReadsToEnd ext io take_io stream taken s.1 bytes s'.1

  -- The body of a request was read to its end, in three runs of reads, each from where the last one
  -- left it: the run of the endpoint, that of the copy of the response, and that of the copy into
  -- the sink, which ends with a read that returns nothing.
  pub record IsRead (server : Server W Request Response (BodyReader R T Sender Sending)) (io' : W)
      (kept : KeepsAlive http lines_io calls server io') (body : Bytes) : Type 0 where
    pub by_endpoint : Bytes
    pub by_response : Bytes
    pub discarded : Bytes
    pub endpoint_read :
        Reads ext io take_io stream taken kept.decoded.body by_endpoint kept.answered.1
    pub response_read : Reads ext io take_io stream taken kept.answered.1 by_response kept.written.1
    pub sink_read : ReadsToEnd ext io take_io stream taken kept.written.1 discarded kept.drained.1
    pub whole : body ≡ by_endpoint ++ by_response ++ discarded
    pub counted : length discarded ≡ kept.body_bytes
    pub nothing_left : BodyOwes ext io take_io stream taken kept.drained.1 []

  -- Over streams on which no read fails, where the endpoint and the copies change the body by
  -- reading it only, and the copy into the sink reads to its end and returns the number of its
  -- bytes: if `accept_one` keeps the connection open, the body that was owed when the request was
  -- decoded is what three runs of reads returned, in this order: a run from the body as it was
  -- decoded to the body as the endpoint left it, one from there to the body as the copy of the
  -- response left it, and one from there to the end, whose bytes are those that are counted as
  -- discarded. Nothing of the body is owed then.
  pub accept_one-IsRead :
      (server : Server W Request Response (BodyReader R T Sender Sending))
      → OnlyReads server.endpoint
      → (body : Bytes)
      → ((w : W) (d : Decoded Request R T Sender Sending)
          → decode_request http lines_io calls server.opts.headers_timeout server.io
            ≡ (w, ok (some d))
          → BodyOwes ext io take_io stream taken d.body body)
      → (io' : W) → accept_one http lines_io calls server ≡ (io', ok keep_alive)
      → (kept : KeepsAlive http lines_io calls server io') × IsRead server io' kept body
  accept_one-IsRead server only body owed io' h =
      let k : KeepsAlive http lines_io calls server io' =
        (accept_one-KeepsAlive_iff http lines_io calls server io').0 h in
      let (one, reads1) =
        only.endpoint_reads k.decoded.request (k.before, k.decoded.body) k.answered k.response
          k.answers in
      let (left1, cut1, owes1) =
        Reads-BodyOwes ext io take_io stream taken body (owed k.before k.decoded k.decodes)
          reads1 in
      let (two, reads2) = only.response_reads _ k.answered k.written k.response_bytes k.writes in
      let (left2, cut2, owes2) = Reads-BodyOwes ext io take_io stream taken left1 owes1 reads2 in
      let (three, count, reads3) = only.body_reads k.written k.drained k.body_bytes k.drains in
      let (cut3, owes3) = ReadsToEnd-BodyOwes ext io take_io stream taken left2 owes2 reads3 in
      (
        k,
        record {
          by_endpoint = one;
          by_response = two;
          discarded = three;
          endpoint_read = reads1;
          response_read = reads2;
          sink_read = reads3;
          whole =
              cut1
              ∙ ap (λ (s : Bytes). one ++ s) (cut2 ∙ ap (λ (s : Bytes). two ++ s) cut3)
              ∙ sym (append_assoc one two three);
          counted = count;
          nothing_left = owes3;
        },
      )
