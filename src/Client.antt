-- ===== src/Client.antt =====
-- src/client: the encoder of requests and the decoder of responses.
pub mod Encode
pub mod Decode
pub mod Connect
pub mod Tests
