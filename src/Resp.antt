-- ===== src/Resp.antt =====
-- src/resp.cpp: commands read from a buffer, and replies written, in the Redis protocol.
pub mod Encode
pub mod Tokenize
pub mod Parse
pub mod RoundTrip
pub mod Total
pub mod Bounds
pub mod Tests
