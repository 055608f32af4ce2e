-- ===== src/Server/Decode/Tests.antt =====
-- Instances of the theorems on src/server/decode.rs and src/server/body_reader.rs.
use async_h.Base.{◌≡◌, refl, ◌++◌, some, ok}
use async_h.Base.Bytes.{Bytes, codes}
use async_h.Base.Bytes.Ints.{parse_unsigned}
use async_h.Io.Samples.{bytes_io, bytes_stream}
use async_h.Chunked.Samples.{ext}
use async_h.Head.Samples.{lines_io, lines}
use async_h.Server.Decode.Samples.{
  Headers, lookup, sized_head, sized_headers, http, sized_request, sized_head-IsFirst,
}
use async_h.Server.Body.Delivers.{BodyOwes}
use async_h.Server.Decode.{Decoded, decode}
use async_h.Server.Decode.Frames.{sized, decode-BodyOwes}
use async_h.Server.Decode.Accepted.{Accepted, decode-Accepted}

decode-BodyOwes_example :
    (d : Decoded Headers Bytes Bytes (Unit {0}) (Unit {0})) × (decode http lines_io
        (sized_head ++ codes "Wikipedia")
      ≡ ok (some d))
    × BodyOwes ext bytes_io bytes_io bytes_stream bytes_stream d.body (codes "Wiki")
unfolding lookup parse_unsigned
decode-BodyOwes_example =
    decode-BodyOwes http ext lines_io bytes_io bytes_io lines bytes_stream bytes_stream (λ r. refl)
      (λ r n. refl) (sized_head ++ codes "Wikipedia") sized_head sized_headers (codes "Wikipedia")
      refl sized_head-IsFirst sized_request (some 4) (codes "Wiki") refl (sized 4 refl refl refl)

-- A request with a body of four bytes, and what follows it.
sized_decoded :
    (d : Decoded Headers Bytes Bytes (Unit {0}) (Unit {0})) × (decode http lines_io
        (sized_head ++ codes "Wikipedia")
      ≡ ok (some d))
    × BodyOwes ext bytes_io bytes_io bytes_stream bytes_stream d.body (codes "Wiki")
unfolding lookup parse_unsigned
sized_decoded =
    decode-BodyOwes http ext lines_io bytes_io bytes_io lines bytes_stream bytes_stream (λ r. refl)
      (λ r n. refl) (sized_head ++ codes "Wikipedia") sized_head sized_headers (codes "Wikipedia")
      refl sized_head-IsFirst sized_request (some 4) (codes "Wiki") refl (sized 4 refl refl refl)

decode-Accepted_example :
    Accepted http lines_io lines (sized_head ++ codes "Wikipedia") sized_decoded.0
decode-Accepted_example =
    decode-Accepted http lines_io lines (sized_head ++ codes "Wikipedia") sized_decoded.0
      sized_decoded.1
