-- ===== src/Head/Tests.antt =====
-- An instance of the theorem on the loop of Head, with the end of a head of src/server/decode.rs.
use async_h.Base.Bytes.{codes}
use async_h.Head.{read_head}
use async_h.Head.First.{Reads, read_head-Reads}
use async_h.Head.Samples.{lines_io, lines}
use async_h.Server.Decode.{ends_head}
use async_h.Server.Decode.Frames.{closes_head, ends_head-Decides, closes_head-line, closes_head-nil}

read_head-Reads_example :
    Reads closes_head closes_head-line lines_io lines
      (codes "a\r\n\r\nb")
      (read_head lines_io ends_head (codes "a\r\n\r\nb"))
read_head-Reads_example =
    read_head-Reads closes_head closes_head-line lines_io lines ends_head ends_head-Decides
      closes_head-nil (codes "a\r\n\r\nb")
