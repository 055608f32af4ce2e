-- ===== src/Client/Decode/Tests.antt =====
-- Instances of the theorems on src/client/decode.rs and src/client/mod.rs.
use async_h.Base.{◌≡◌, refl, ◌++◌, ok, arith, IsSafe, IsSafe-ok}
use async_h.Base.Int.{pos}
use async_h.Base.Bytes.{Bytes, codes}
use async_h.Io.Samples.{bytes_io, bytes_stream}
use async_h.Chunked.Samples.{ext, wire, wire-IsChunked}
use async_h.Head.Samples.{lines_io, lines}
use async_h.Server.Body.Delivers.{BodyOwes}
use async_h.Client.Decode.{Received, decode}
use async_h.Client.Decode.Samples.{
  Headers, lookup, chunked_head, chunked_headers, double_head, http, chunked_response,
  chunked_head-IsFirst, calls,
}
use async_h.Client.Decode.Frames.{in_chunks, decode_response-BodyOwes}
use async_h.Client.Decode.Accepted.{Accepted, decode_response-Accepted}
use async_h.Client.Decode.Safe.{decode_response-IsSafe}

decode_response-BodyOwes_example :
    (d : Received Headers Bytes Bytes (Unit {0}) (Unit {0})) × (decode http lines_io
        (pos 0)
        (chunked_head ++ wire)
      ≡ ok d)
    × BodyOwes ext bytes_io bytes_io bytes_stream bytes_stream d.body (codes "Wiki")
unfolding lookup
decode_response-BodyOwes_example =
    decode_response-BodyOwes http ext lines_io bytes_io bytes_io lines bytes_stream bytes_stream
      (λ r. refl) (λ r n. refl) (pos 0) (chunked_head ++ wire) chunked_head chunked_headers wire
      refl chunked_head-IsFirst chunked_response (codes "Wiki") (in_chunks refl refl wire-IsChunked)

-- A response with a body in chunks.
chunked_received :
    (d : Received Headers Bytes Bytes (Unit {0}) (Unit {0})) × (decode http lines_io
        (pos 0)
        (chunked_head ++ wire)
      ≡ ok d)
    × BodyOwes ext bytes_io bytes_io bytes_stream bytes_stream d.body (codes "Wiki")
unfolding lookup
chunked_received =
    decode_response-BodyOwes http ext lines_io bytes_io bytes_io lines bytes_stream bytes_stream
      (λ r. refl) (λ r n. refl) (pos 0) (chunked_head ++ wire) chunked_head chunked_headers wire
      refl chunked_head-IsFirst chunked_response (codes "Wiki") (in_chunks refl refl wire-IsChunked)

decode_response-Accepted_example :
    Accepted http lines_io lines (pos 0) (chunked_head ++ wire) chunked_received.0
decode_response-Accepted_example =
    decode_response-Accepted http lines_io lines (pos 0) (chunked_head ++ wire) chunked_received.0
      chunked_received.1

decode_response-IsSafe_example :
    IsSafe (decode http {Sending = Unit {0}} lines_io (pos 0) (double_head ++ codes "Wikipedia"))
decode_response-IsSafe_example =
    decode_response-IsSafe http calls 0 (omega arith) lines_io (λ r. IsSafe-ok _)
      (double_head ++ codes "Wikipedia")
