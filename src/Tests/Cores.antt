-- ===== src/Tests/Cores.antt =====
-- gutted-client/src/render.rs: events and bytes on a core with two tabs.
use exo_browser_core.Common.{ℕ, false, none, some, [], ◌∷◌, arith}
use exo_browser_core.Message.Types.{CursorShape}
use exo_browser_core.Client.Session.{ingest_wire_bytes}
use exo_browser_core.Client.Core.State.{TabInfo, TabState, BrowserCore}
use exo_browser_core.Client.Core.Unique.{IsTabState}
use exo_browser_core.Client.Core.Wire.{handled, ingest_wire_bytes-Apart}

abbrev tab : ℕ → TabInfo
tab n = record { id = n; title = []; url = 104 ∷ []; is_loading = false; is_secure = false }

abbrev two_tabs : TabState
two_tabs = record {
  tabs = tab 1 ∷ tab 2 ∷ [];
  active_tab_id = 1;
  next_tab_id = 3;
  active_buf = some (record { w = 1; h = 1; pixels = 9 ∷ [] });
  tab_composites = [];
  url_buf = 104 ∷ [];
  editing = false;
  is_loading = false;
  window_title = [];
}

abbrev two_tab_core : BrowserCore
two_tab_core = record {
  tab_state = two_tabs;
  pending = record {
    tile_cache = [];
    pending_damage = [];
    pending_frames = [];
    pending_subframes = [];
    pending_tiles = [];
    frames_seen = 0;
  };
  sound = record {
    audio_playing_frames_left = 0;
    av_clock = record { master_audio_pts = 0; last_audio_tick = none };
  };
  cursor_shape = CursorShape.default;
  chrome_dirty = false;
  full_content_dirty = false;
}

two_tab_core-IsTabState : IsTabState two_tab_core
two_tab_core-IsTabState = ground arith

-- The frame that closes tab 2, and half of another one.
ingest_wire_bytes-Apart_example :
    IsTabState (ingest_wire_bytes (handled 5) two_tab_core (0x74 ∷ 4 ∷ 2 ∷ 0 ∷ 0 ∷ 0 ∷ 0x74 ∷ [])).2
ingest_wire_bytes-Apart_example =
    ingest_wire_bytes-Apart 5 two_tab_core (0x74 ∷ 4 ∷ 2 ∷ 0 ∷ 0 ∷ 0 ∷ 0x74 ∷ [])
      two_tab_core-IsTabState
