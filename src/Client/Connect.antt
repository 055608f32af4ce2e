-- ===== src/Client/Connect.antt =====
-- src/client/mod.rs: `connect`, which writes a request to a connection and reads the response. The
-- connection is a state `W` that the foreign code acts on.
use async_h.Base.{ℕ}
use async_h.Base.Int.{ℤ}
use async_h.Base.Act.{Act, ◌>>=◌}
use async_h.Head.{BufRead}
use async_h.Client.Encode.{Encoder}
use async_h.Client.Encode as Encode
use async_h.Client.Decode.{Http, Received, ends_head, response_of}
use async_h.Client.Decode as Decode

-- The foreign calls of `connect`, beside those of `decode`.
pub record Calls (W R Request Outgoing : Type 0) : Type 0 where
  -- `io::copy(&mut req, &mut stream)`
  pub copy : Encoder Request Outgoing → Act W ℕ
  -- `BufReader::new(stream)`, and the connection when `decode` has returned
  pub buf_reader : W → R
  pub after_decode : W → W

module _ {W Request Outgoing Response StatusCode Sender Sending R T : Type 0}
    (http : Http Response StatusCode Sender R T) (lines_io : BufRead R)
    (calls : Calls W R Request Outgoing) (now : ℤ) where
  abbrev decode : Act W (Received Response R T Sender Sending)
  decode w = (calls.after_decode w, Decode.decode http lines_io now (calls.buf_reader w))

  unfoldable pub connect : Request → Act W (Received Response R T Sender Sending)
  unfolding Encode.new
  connect req = calls.copy (Encode.new req) >>= λ bytes_written. decode
