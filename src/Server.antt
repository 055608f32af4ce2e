-- ===== src/Server.antt =====
-- src/server: the decoder of requests with the reader of their bodies, and the encoder of
-- responses.
pub mod Encode
pub mod Body
pub mod Decode
pub mod Continue
pub mod Accept
pub mod Tests
