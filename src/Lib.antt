-- ===== src/Lib.antt =====
-- async-h1: an asynchronous HTTP/1.1 client and server. This library models it from the dates of HTTP
-- headers and the chunked transfer coding to the decoders and encoders of requests and responses,
-- and the loop that serves a connection.
--
-- Base, Io: shared names, lists, results, actions, integers and bytes; `Poll`, and the readers that
--   the code is given (`async_std::io::Read`), as states with one operation.
-- Date (src/date.rs): the record `HttpDate` and `is_valid`; FromTime (`From<SystemTime>`), IntoTime
--   (`From<HttpDate>` and the comparisons), Parse (`FromStr`), Display. Calendar is a reference that
--   counts the days of the months one by one, and Formats prints the two obsolete formats, which the
--   code only reads; Seconds has dates and times as equivalent types. A `SystemTime` is a
--   whole number of nanoseconds since the epoch.
-- Chunked (src/chunked): Wire is the format; Encoder (`ChunkedEncoder`) with the buffer as a value;
--   Decoder (`ChunkedDecoder`) with one round of its loop as `step`, seen from both sides: Owes is what a
--   well-formed message makes it return, Sound what any bytes that it accepts must be, Waits who wakes
--   its task; RoundTrip composes the two components.
-- Encode (src/body_encoder.rs, src/lib.rs): `BodyEncoder` and `EncoderState`, for the encoders;
--   Machine is the loop that the two encoders have in common, on `EncoderState` alone, for the proofs of
--   both; Runs has the sequences of calls of an encoder, and the headers of the body that both set.
-- Head (src/server/decode.rs, src/client/decode.rs): the loop that reads a head, which the two decoders
--   share but for the test of its end, whose subtraction and slices can panic; MAX_HEADERS and MAX_HEAD_LENGTH of src/lib.rs.
-- Server (src/server): Encode is the `Encoder` of responses, on Encode, Chunked and Date; Decode is
--   `decode`, on Head and Chunked, with Body, the `BodyReader` of src/server/body_reader.rs; Continue
--   is the task that `decode` spawns for `100-continue`, as steps of a relation; Accept is
--   `accept_one` and `accept` of src/server/mod.rs, on Decode and Encode.
-- Client (src/client): Encode is the `Encoder` of requests; Decode is `decode`, on Head, Chunked and
--   Date; Connect is `connect` of src/client/mod.rs, on the two.
-- Exchange: the encoder of one side with the decoder of the other (src/server/encode.rs with
--   src/client/decode.rs, and src/client/encode.rs with src/server/decode.rs).
-- Notify (src/read_notifier.rs): `ReadNotifier`, on any reader.
-- Programs: examples/server.rs, examples/client.rs and fuzz/fuzz_targets/server_accept.rs, on Server and
--   Client. Listener is the loop of examples/server.rs, over the connections that its listener gives.
-- TestUtils (tests/test_utils.rs): the connection of the integration tests. Cursor is
--   `CloseableCursor`, one direction of it, with its waker; the two ends (`TestIO`) are names into a
--   store of two cursors. Fifo has two queues as its specification, Delivers and Wakes are what a run of
--   calls of both ends does, Reader makes an end a `Stream` and runs the chunked decoder on it;
--   TestServer is the server of Server on one end.
--
-- The body of a request is in a cell that the request and the `BodyReader` share. The model keeps what
-- the cell contains beside the connection, and the endpoint and the copies act on both.
--
-- The loop of the chunked decoder runs on fuel; one round for each byte to come and three more are
-- enough. The loops of the two encoders have four rounds, since each goes to a later one of four
-- states. The loop that reads a head has 8192 rounds, one for each byte of its bound, since a round
-- that does not end it reads a byte. `accept` may serve a connection for ever: it has the fuel that
-- it is given, and its theorem says for how many requests that is enough.
-- Foreign code is a parameter: the inner readers, with `Stream` for what the documentation of `Read`
-- promises where no operation fails, and `read_until` of a `BufReader` with `Lines`; the
-- floating-point logarithm of `max_bytes_to_read`, with `IsExact` for buffers below 2^48 bytes;
-- `httparse`, the trailer map and the channels; `http_types::Response` and `Request`, with the sort of
-- the headers and the printing of numbers; `io::copy`, `timeout`, the endpoint and the clock.
--
-- The modules UnitTests have the tests that stand beside the code, as functions into `Bool`.
--
-- Not modelled: when a task is polled again, but for the wakers of TestUtils and Waits; the sockets; the
-- `Debug` and `Display` texts, which no code in src/ reads; the integration tests in tests/, which run
-- `httparse` and `http_types`, parameters here, but for the runs of TestUtils.ClientDecode and
-- TestUtils.Tests.
pub mod Base
pub mod Io
pub mod Date
pub mod Chunked
pub mod Client
pub mod Encode
pub mod Exchange
pub mod Head
pub mod Notify
pub mod Programs
pub mod Server
pub mod TestUtils
