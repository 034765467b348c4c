-- ===== src/Client.antt =====
-- gutted-client/src/render.rs: the client's side of the wire.
pub mod Events
pub mod Clock
pub mod Session
pub mod Stream
pub mod Ingest
pub mod Hello
pub mod Core
pub mod Url
pub mod Ui
pub mod Render
