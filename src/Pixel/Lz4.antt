-- ===== src/Pixel/Lz4.antt =====
-- gutted-proto/src/lib.rs: the LZ4 block codec.
pub mod Encode
pub mod Decode
pub mod Copy
pub mod Bounds
pub mod Literals
pub mod Prefix
pub mod Length
pub mod Sequence
pub mod Match
pub mod Blocks
pub mod RoundTrip
