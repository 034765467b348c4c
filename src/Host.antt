-- ===== src/Host.antt =====
-- gutted-host-rs: the server that drives the web engine and sends frames to its viewers.
pub mod Rect
pub mod Diff
pub mod Engine
pub mod State
pub mod Loop
pub mod Screen
pub mod Writer
pub mod Dispatch
pub mod Reader
pub mod Bus
pub mod Session
