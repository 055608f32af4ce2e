-- ===== src/Chunked.antt =====
-- src/chunked: the chunked transfer coding. The encoder and the decoder, the format itself, and
-- what they do together.
pub mod Wire
pub mod Encoder
pub mod Decoder
pub mod RoundTrip
pub mod Samples
pub mod UnitTests
pub mod Tests
