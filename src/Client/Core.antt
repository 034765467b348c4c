-- ===== src/Client/Core.antt =====
-- gutted-client/src/render.rs: the part of `BrowserCore` that render events change.
pub mod State
pub mod Tabs
pub mod Handle
pub mod Unique
pub mod Wire
pub mod Switch
