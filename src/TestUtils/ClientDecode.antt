-- ===== src/TestUtils/ClientDecode.antt =====
-- `connection_closure` of tests/client_decode.rs: the decoder of responses on a closed cursor. The
-- `BufReader` that stands for the foreign one reads lines of the cursor.
use async_h.Base.{
  ℕ, ◌+◌, ◌≡◌, refl, none, [], Result, ok, err, connection_closed, empty_response, length, drop,
}
use async_h.Base.Int.{pos}
use async_h.Base.Bytes.{codes}
use async_h.Base.Bytes.Slices.{slice}
use async_h.Head.{BufRead, ends_in, read_head, read_rounds}
use async_h.Head.Samples.{split_line}
use async_h.Client.Decode.{Received, Http, decode, ends_head}
use async_h.Client.Decode.Samples.{Headers, parse}
use async_h.TestUtils.Cursor.{CloseableCursor, default, write, close, wake}

abbrev lines_io : BufRead (CloseableCursor (Unit {0}))
lines_io = record {
  read_until = λ byte c.
      let (line, after) = split_line (drop c.cursor c.written) in
      (record c { cursor = c.cursor + length line }, ok line);
}

abbrev http : Http Headers ℕ (Unit {0}) (CloseableCursor (Unit {0})) (CloseableCursor (Unit {0}))
http = record {
  parse = parse;
  status_try_from = λ code. ok code;
  new = λ status. [];
  append_header = λ res name value. res;
  insert_header = λ res name value. res;
  header = λ res name. none;
  send_trailers = λ res. (tt, res);
  take = λ r n. r;
}

abbrev response_of_cursor :
    CloseableCursor (Unit {0})
    → Result (
        Received Headers
          (CloseableCursor (Unit {0}))
          (CloseableCursor (Unit {0}))
          (Unit {0})
          (Unit {0}))
response_of_cursor c = decode http lines_io (pos 0) c

-- The response is cut off.
cut_head :
    response_of_cursor (close (write default (codes "HTTP/1.1 200 OK\r\nhost: example.com")).0).0
    ≡ err empty_response
unfolding decode ends_in slice read_head read_rounds ends_head split_line close write wake
cut_head = refl

-- The connection is closed at once.
nothing : response_of_cursor (close default).0 ≡ err connection_closed
unfolding decode ends_in slice read_head read_rounds ends_head split_line close write wake
nothing = refl
