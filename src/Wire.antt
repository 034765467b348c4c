-- ===== src/Wire.antt =====
-- gutted-proto/src/lib.rs, the primitive reads and writes that every message is made of.
pub mod Result
pub mod Writer
pub mod Reader
pub mod Utf8
pub mod Varint
pub mod RoundTrip
