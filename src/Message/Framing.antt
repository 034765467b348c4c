-- ===== src/Message/Framing.antt =====
-- gutted-proto/src/lib.rs: what `decode` does with any buffer: partial frames, refusals, progress.
pub mod Refusals
pub mod Partial
pub mod Progress
pub mod Append
