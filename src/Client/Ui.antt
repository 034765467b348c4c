-- ===== src/Client/Ui.antt =====
-- gutted-client/src/render.rs: `BrowserCore` with what the user's input reads and writes besides the
-- state of Client/Core: the window, the pointer, the zoom and the queue of events for the host.
pub mod Moves
pub mod Keys
pub mod Clicks
pub mod Inputs
pub mod Tabs
pub mod Steps
pub mod Agree
pub mod Turns
use exo_browser_core.Common.{
  ℕ, ◌+◌, ◌-◌, ◌^◌, min, max, bit_and, bit_or, ltb, leb, ◌==◌, ◌&&◌, ◌||◌, not, Bool, true, false,
  Option, none, some, List, [], ◌∷◌, ◌++◌, if◌then◌else◌, ℤ, pos, negsuc,
}
use exo_browser_core.Message.Types.{CursorShape}
use exo_browser_core.Client.Session.{chrome_h, bytes_of}
use exo_browser_core.Client.Events.{InputEvent}
use exo_browser_core.Client.Clock.{new_clock}
use exo_browser_core.Client.Core.State.{TabInfo, TabState, BrowserCore}
use exo_browser_core.Client.Core.Tabs.{update_tab, set_url, set_loading, is_https}
use exo_browser_core.Client.Core.Handle.{with_tab_state}
use exo_browser_core.Client.Url.{canonicalize_url}

pub record Ui : Type 0 where
  pub core : BrowserCore
  pub win_size : ℕ × ℕ
  pub cursor : ℤ × ℤ
  pub mods : ℕ
  pub zoom_milli : ℕ
  pub audio_muted : Bool
  pub status_toast_text : Option (List ℕ)
  pub status_toast_frames_left : ℕ
  pub outbound_inputs : List InputEvent

-- `BrowserCore::new_no_std`.
unfoldable pub new_no_std : ℕ → ℕ → List ℕ → Bool → Ui
unfolding is_https new_clock
new_no_std width height initial_url editing = record {
  core = record {
    tab_state = record {
      tabs =
          record {
            id = 1;
            title = bytes_of "New Tab";
            url = initial_url;
            is_loading = false;
            is_secure = is_https initial_url;
          }
          ∷ [];
      active_tab_id = 1;
      next_tab_id = 2;
      active_buf = none;
      tab_composites = [];
      url_buf = initial_url;
      editing = editing;
      is_loading = false;
      window_title = bytes_of "ExoBrowser";
    };
    pending = record {
      tile_cache = [];
      pending_damage = [];
      pending_frames = [];
      pending_subframes = [];
      pending_tiles = [];
      frames_seen = 0;
    };
    sound = record { audio_playing_frames_left = 0; av_clock = new_clock };
    cursor_shape = CursorShape.default;
    chrome_dirty = true;
    full_content_dirty = true;
  };
  win_size = (width, height);
  cursor = (pos 0, pos 0);
  mods = 0;
  zoom_milli = 1000;
  audio_muted = false;
  status_toast_text = none;
  status_toast_frames_left = 0;
  outbound_inputs = [];
}

-- `emit_input`, without the copy to the channel of the std build.
unfoldable pub emit_input : InputEvent → Ui → Ui
emit_input ev ui = record ui { outbound_inputs = ui.outbound_inputs ++ (ev ∷ []) }

-- New tabs, with the two dirty marks set on top of what they are.
abbrev pub with_tabs_of : Bool → Bool → TabState → Ui → Ui
with_tabs_of chrome content s ui = record ui { core = with_tab_state chrome content s ui.core }

-- `self.chrome_dirty = true;`.
abbrev pub chrome_changed : Ui → Ui
chrome_changed ui = with_tabs_of true false ui.core.tab_state ui

unfoldable pub on_resize : ℕ → ℕ → Ui → Ui
unfolding emit_input
on_resize w0 h0 ui =
    let w = max w0 64 in
    let h = max h0 (chrome_h + 64) in
    if ui.win_size.0 == w && ui.win_size.1 == h
    then ui
    else emit_input (InputEvent.resize (min w 65535) (min (max (h - chrome_h) 1) 65535))
        (record (with_tabs_of true true ui.core.tab_state ui) { win_size = (w, h) })

-- The active tab is sent to a page.
abbrev pub visit : List ℕ → TabState → TabState
visit url s = record s {
  tabs = update_tab s.active_tab_id (λ t. set_loading true (set_url url t)) s.tabs;
  url_buf = url;
  editing = false;
  is_loading = true;
}

unfoldable pub submit_omnibox : Ui → Ui
unfolding emit_input
submit_omnibox ui =
    let s = ui.core.tab_state in
    let url = canonicalize_url s.url_buf in
    with_tabs_of true false (visit url s) (emit_input (InputEvent.navigate url) ui)

-- `y - CHROME_H` where `y >= CHROME_H`: the row below the chrome.
unfoldable pub content_row : ℤ → Option ℤ
content_row (pos y) = if leb chrome_h y then some (pos (y - chrome_h)) else none
content_row (negsuc _) = none

unfoldable pub on_pointer_move : ℤ → ℤ → Ui → Ui
unfolding content_row emit_input
on_pointer_move x y ui =
    let moved = record ui { cursor = (x, y) } in
    elim (content_row y) [
      | none ↦ moved
      | some row ↦ emit_input (InputEvent.motion x row ui.mods) moved
    ]

abbrev pub is_zero : ℤ → Bool
is_zero (pos n) = n == 0
is_zero (negsuc _) = false

unfoldable pub on_scroll : ℤ → ℤ → Ui → Ui
unfolding content_row emit_input
on_scroll dx dy ui = elim (content_row ui.cursor.1) [
  | none ↦ ui
  | some _ ↦ if is_zero dx && is_zero dy then ui else emit_input (InputEvent.scroll dx dy) ui
]

-- `mods |= bit` and `mods &= !bit` on a `u32`.
unfoldable pub with_bit : Bool → ℕ → ℕ → ℕ
with_bit pressed bit mods = if pressed then bit_or mods bit else bit_and mods (2 ^ 32 - 1 - bit)

-- `update_keysym_modifier`.
unfoldable pub keysym_bit : ℕ → Option ℕ
keysym_bit keysym =
    if keysym == 0xffe1 || keysym == 0xffe2
    then some 2
    else if keysym == 0xffe3 || keysym == 0xffe4
    then some 1
    else if keysym == 0xffe9 || keysym == 0xffea
    then some 4
    else if keysym == 0xffeb || keysym == 0xffec
    then some 8
    else none

unfoldable pub update_keysym_modifier : ℕ → Bool → Ui → Ui
unfolding keysym_bit with_bit
update_keysym_modifier keysym pressed ui = elim (keysym_bit keysym) [
  | none ↦ ui
  | some bit ↦ record ui { mods = with_bit pressed bit ui.mods }
]

-- `update_x11_mods`, on the four marks of the mask that it reads; the buttons stay.
unfoldable pub update_x11_mods : Bool → Bool → Bool → Bool → Ui → Ui
update_x11_mods shift control mod1 mod4 ui =
    let buttons = bit_and ui.mods (2 ^ 20 + 2 ^ 21 + 2 ^ 22) in
    let with_shift = if shift then bit_or buttons 2 else buttons in
    let with_control = if control then bit_or with_shift 1 else with_shift in
    let with_alt = if mod1 then bit_or with_control 4 else with_control in
    record ui { mods = if mod4 then bit_or with_alt 8 else with_alt }

-- The zoom of the keys and of the buttons. The level is at most 3000, so that 100 more is a `u32`.
unfoldable pub zoom_to : ℕ → Ui → Ui
unfolding emit_input
zoom_to level ui =
    chrome_changed (emit_input (InputEvent.set_zoom level) (record ui { zoom_milli = level }))

abbrev pub zoomed_in : Ui → ℕ
zoomed_in ui = min (ui.zoom_milli + 100) 3000

abbrev pub zoomed_out : Ui → ℕ
zoomed_out ui = max (ui.zoom_milli - 100) 300

abbrev pub toggle_mute : Ui → Ui
toggle_mute ui = chrome_changed (record ui { audio_muted = not ui.audio_muted })

-- `self.editing = true; self.url_buf.clear();`.
abbrev pub edit_address : Ui → Ui
edit_address ui =
    let s = ui.core.tab_state in
    with_tabs_of true false (record s { editing = true; url_buf = [] }) ui
