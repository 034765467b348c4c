-- ===== src/Pixel.antt =====
-- gutted-proto/src/lib.rs, the pixel payloads: spatial filter, scaling, LZ4, and their choice.
pub mod Bytes
pub mod Filter
pub mod Scale
pub mod Lz4
pub mod Payload
pub mod Lossless
pub mod Lossy
