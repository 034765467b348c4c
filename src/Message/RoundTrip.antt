-- ===== src/Message/RoundTrip.antt =====
-- gutted-proto/src/lib.rs: what `encode` writes, `decode` reads.
pub mod Parts
pub mod Payload
pub mod Patch
pub mod Frame
