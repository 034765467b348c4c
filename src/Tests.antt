-- ===== src/Tests.antt =====
-- The theorems at concrete inputs.
mod Frames
mod Clients
mod Buffers
mod Cores
mod Hosts
mod Streams
mod Users
mod Screens
