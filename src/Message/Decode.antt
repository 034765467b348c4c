-- ===== src/Message/Decode.antt =====
-- gutted-proto/src/lib.rs: `Message::decode_payload` and `Message::decode`.
pub mod Session
pub mod Input
pub mod Scene
pub mod Media
pub mod Tabs
pub mod Frame
