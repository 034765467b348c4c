-- ===== src/Client/Render/Whole.antt =====
-- gutted-client/src/render.rs: `render_into` below the chrome on a core whose pictures are whole.
use exo_browser_core.Common.{All}
use exo_browser_core.Client.Core.State.{BrowserCore}
use exo_browser_core.Client.Render.Base.{IsWholeFrame, IsWholeSubframe, IsWholeTile, IsWholePicture}

-- All that waits to be drawn has its rows, and the tiles have their 4096 words.
pub record IsWhole (core : BrowserCore) : Type 0 where
  pub frames : All IsWholeFrame core.pending.pending_frames
  pub subframes : All IsWholeSubframe core.pending.pending_subframes
  pub tiles : All IsWholeTile core.pending.tile_cache
  pub picture : IsWholePicture core.tab_state.active_buf
