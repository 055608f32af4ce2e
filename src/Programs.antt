-- ===== src/Programs.antt =====
-- The programs beside the library that call it: examples/server.rs, examples/client.rs and
-- fuzz/fuzz_targets/server_accept.rs. The sockets and the fuzzer are foreign, and the printing is
-- left out.
pub mod Fuzz
pub mod Examples
pub mod Listener
