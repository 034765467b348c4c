-- ===== src/Client/Core/Handle.antt =====
-- gutted-client/src/render.rs: `BrowserCore::handle_render_event`. `now` is what `Instant::now()`
-- gives; the sound sink `audio_out` is left out.
use exo_browser_core.Common.{
  ℕ, zero, suc, ◌+◌, ◌*◌, ◌/◌, ◌%◌, ◌^◌, max, ltb, leb, ◌==◌, ◌||◌, ◌&&◌, not, Bool, true, false,
  Option, none, some, List, [], ◌∷◌, ◌++◌, length, take, if◌then◌else◌,
}
use exo_browser_core.Message.Types.{CursorShape}
use exo_browser_core.Wire.Reader.{from_le_bytes}
use exo_browser_core.Client.Events.{GfxFrame, GfxSubframe, RenderEvent}
use exo_browser_core.Client.Clock.{on_audio_frame}
use exo_browser_core.Client.Core.State.{
  TabInfo, TabState, Pending, Sound, BrowserCore, insert_key, lookup_key,
}
use exo_browser_core.Client.Core.Tabs.{
  find_tab, retain_tabs, on_load_state, on_url_changed, on_title, on_tab_created, on_tab_closed,
  on_tab_activated, on_tab_title, on_tab_url,
}

abbrev pub is_some : {A : Type 0} → Option A → Bool
is_some none = false
is_some (some _) = true

-- `copy_bgra_row_to_u32` into a zeroed buffer of `n` words.
unfoldable pub copy_bgra_row_to_u32 : ℕ → List ℕ → List ℕ
copy_bgra_row_to_u32 zero src = []
copy_bgra_row_to_u32 (suc n) (b ∷ g ∷ r ∷ a ∷ src) =
    from_le_bytes (b ∷ g ∷ r ∷ 0 ∷ []) ∷ copy_bgra_row_to_u32 n src
copy_bgra_row_to_u32 (suc n) src = 0 ∷ copy_bgra_row_to_u32 n []

-- `RenderEvent::Frame`: `none` where the event is ignored.
unfoldable pub take_frame : GfxFrame → Pending → Option Pending
take_frame f p =
    if f.width == 0 || f.height == 0 || ltb (length f.pixels) (f.stride * f.height)
    then none
    else some (record {
      tile_cache = p.tile_cache;
      pending_damage = [];
      pending_frames = f ∷ [];
      pending_subframes = [];
      pending_tiles = [];
      frames_seen = (p.frames_seen + 1) % 2 ^ 64;
    })

-- `RenderEvent::Subframe`.
unfoldable pub take_subframe : GfxSubframe → Pending → Pending
take_subframe s p =
    if s.w == 0 || s.h == 0 || ltb (length s.pixels) (s.stride * s.h) then p else record {
      tile_cache = p.tile_cache;
      pending_damage = p.pending_damage ++ (record { x = s.x; y = s.y; w = s.w; h = s.h } ∷ []);
      pending_frames = p.pending_frames;
      pending_subframes = p.pending_subframes ++ (s ∷ []);
      pending_tiles = p.pending_tiles;
      frames_seen = (p.frames_seen + 1) % 2 ^ 64;
    }

-- `RenderEvent::TileData`.
unfoldable pub take_tile : ℕ → List ℕ → Pending → Pending
take_tile hash pixels p =
    if leb (64 * 64 * 4) (length pixels)
    then record p {
      tile_cache =
          insert_key hash (copy_bgra_row_to_u32 (64 * 64) (take (64 * 64 * 4) pixels)) p.tile_cache;
    }
    else p

-- `RenderEvent::TileRef`.
unfoldable pub place_tile : ℕ → ℕ → ℕ → ℕ → ℕ → Pending → Pending
place_tile x y w h hash p =
    if w == 64 && h == 64 && is_some (lookup_key hash p.tile_cache)
    then record {
      tile_cache = p.tile_cache;
      pending_damage = p.pending_damage ++ (record { x = x; y = y; w = w; h = h } ∷ []);
      pending_frames = p.pending_frames;
      pending_subframes = p.pending_subframes;
      pending_tiles = p.pending_tiles ++ ((x, y, hash) ∷ []);
      frames_seen = p.frames_seen;
    }
    else p

-- `RenderEvent::Audio`: how long the samples last.
unfoldable pub duration_us : ℕ → ℕ → List ℕ → ℕ
duration_us channels sample_rate bytes =
    length bytes / (max channels 1 * 2) * 1000000 % 2 ^ 64 / max sample_rate 1

unfoldable pub take_audio : ℕ → ℕ → ℕ → ℕ → List ℕ → Sound → Sound
take_audio now pts_us channels sample_rate bytes s = record {
  audio_playing_frames_left = 30;
  av_clock = on_audio_frame s.av_clock now pts_us (duration_us channels sample_rate bytes);
}

-- The core with new tabs, and the two dirty marks set on top of what they are.
abbrev pub with_tab_state : Bool → Bool → TabState → BrowserCore → BrowserCore
with_tab_state chrome content s core = record core {
  tab_state = s;
  chrome_dirty = core.chrome_dirty || chrome;
  full_content_dirty = core.full_content_dirty || content;
}

abbrev pub with_pending : Bool → Pending → BrowserCore → BrowserCore
with_pending content p core = record core {
  pending = p;
  full_content_dirty = core.full_content_dirty || content;
}

abbrev pub with_sound : Bool → Sound → BrowserCore → BrowserCore
with_sound chrome s core = record core { sound = s; chrome_dirty = core.chrome_dirty || chrome }

abbrev pub with_cursor_shape : CursorShape → BrowserCore → BrowserCore
with_cursor_shape shape core = record core { cursor_shape = shape }

unfoldable pub on_frame : GfxFrame → BrowserCore → BrowserCore
on_frame f core = elim (take_frame f core.pending) [
  | none ↦ core
  | some p ↦ with_pending true p core
]

abbrev pub has_tabs : List TabInfo → Bool
has_tabs [] = false
has_tabs (_ ∷ _) = true

-- The core after the event; the second part is the result, `false` for `Quit`.
unfoldable pub handle_render_event : ℕ → BrowserCore → RenderEvent → BrowserCore × Bool
handle_render_event now core RenderEvent.quit = (core, false)
handle_render_event now core (RenderEvent.frame f) = (on_frame f core, true)
handle_render_event now core (RenderEvent.subframe s) =
    (with_pending false (take_subframe s core.pending) core, true)
handle_render_event now core (RenderEvent.tile_data hash pixels) =
    (with_pending false (take_tile hash pixels core.pending) core, true)
handle_render_event now core (RenderEvent.tile_ref x y w h hash) =
    (with_pending false (place_tile x y w h hash core.pending) core, true)
handle_render_event now core (RenderEvent.audio pts_us channels sample_rate bytes) = (
  with_sound (core.sound.audio_playing_frames_left == 0)
      (take_audio now pts_us channels sample_rate bytes core.sound) core,
  true,
)
handle_render_event now core (RenderEvent.cursor_shape shape) = (with_cursor_shape shape core, true)
handle_render_event now core (RenderEvent.load_state state) =
    (with_tab_state true false (on_load_state state core.tab_state) core, true)
handle_render_event now core (RenderEvent.initial_url u) =
    (with_tab_state true false (on_url_changed u core.tab_state) core, true)
handle_render_event now core (RenderEvent.url_changed u) =
    (with_tab_state true false (on_url_changed u core.tab_state) core, true)
handle_render_event now core (RenderEvent.title title) =
    (with_tab_state true false (on_title title core.tab_state) core, true)
handle_render_event now core (RenderEvent.tab_created tab_id title url) =
    (with_tab_state true false (on_tab_created tab_id title url core.tab_state) core, true)
handle_render_event now core (RenderEvent.tab_closed tab_id) =
    let s = core.tab_state in
    (
      with_tab_state true (s.active_tab_id == tab_id && has_tabs (retain_tabs tab_id s.tabs))
          (on_tab_closed tab_id s) core,
      true,
    )
handle_render_event now core (RenderEvent.tab_activated tab_id) =
    let s = core.tab_state in
    (with_tab_state true (not (s.active_tab_id == tab_id)) (on_tab_activated tab_id s) core, true)
handle_render_event now core (RenderEvent.tab_title tab_id title) =
    let s = core.tab_state in
    (
      with_tab_state (is_some (find_tab tab_id s.tabs)) false (on_tab_title tab_id title s) core,
      true,
    )
handle_render_event now core (RenderEvent.tab_url tab_id url) =
    let s = core.tab_state in
    (with_tab_state (is_some (find_tab tab_id s.tabs)) false (on_tab_url tab_id url s) core, true)
