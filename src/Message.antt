-- ===== src/Message.antt =====
-- gutted-proto/src/lib.rs, the messages and their frames.
pub mod Types
pub mod Tag
pub mod Parts
pub mod Encode
pub mod Decode
pub mod Valid
pub mod RoundTrip
pub mod Framing
