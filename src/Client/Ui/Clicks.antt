-- ===== src/Client/Ui/Clicks.antt =====
-- gutted-client/src/render.rs: `BrowserCore::on_mouse_button` and `handle_chrome_click`. Places are
-- `i32`; the sums stay far below 2^31 for fewer than ten million tabs.
use exo_browser_core.Common.{
  ℕ, ◌+◌, ◌-◌, ◌*◌, ◌/◌, ◌%◌, ◌^◌, min, max, leb, ltb, ◌==◌, ◌&&◌, ◌||◌, not, Bool, true, false,
  Option, none, some, List, [], ◌∷◌, length, if◌then◌else◌, ℤ, pos, negsuc,
}
use exo_browser_core.Client.Session.{bytes_of}
use exo_browser_core.Client.Events.{InputEvent}
use exo_browser_core.Client.Core.State.{TabInfo}
use exo_browser_core.Client.Ui.{
  Ui, emit_input, with_tabs_of, chrome_changed, visit, content_row, with_bit, zoom_to, zoomed_in,
  zoomed_out, toggle_mute, edit_address,
}
use exo_browser_core.Client.Ui.Moves.{home, open_tab, close_at, switch_to}

-- `lo <= x` and `x < lo`, where `lo` is not negative.
abbrev pub at_least : ℕ → ℤ → Bool
at_least lo (pos x) = leb lo x
at_least lo (negsuc _) = false

abbrev pub is_below : ℕ → ℤ → Bool
is_below hi x = not (at_least hi x)

-- `x >= lo && x < hi`.
abbrev pub hits : ℕ → ℕ → ℤ → Bool
hits lo hi x = at_least lo x && is_below hi x

-- `(bw as i32 - k).max(lo)` for a `u32`, with the difference of a release build.
unfoldable pub less_at_least : ℕ → ℕ → ℕ → ℕ
less_at_least bw k lo =
    let d = (bw + 2 ^ 32 - k) % 2 ^ 32 in if ltb d (2 ^ 31) then max d lo else lo

unfoldable pub tab_width : ℕ → List TabInfo → ℕ
unfolding less_at_least
tab_width bw tabs = min (max (less_at_least bw 52 100 / max (length tabs) 1) 90) 210

-- The first tab that `x` hits, with its index and its left side.
unfoldable pub hit_tab : ℤ → ℕ → ℕ → ℕ → List TabInfo → Option (ℕ × ℕ × TabInfo)
hit_tab x tab_w i tx [] = none
hit_tab x tab_w i tx (t ∷ ts) =
    let rest = hit_tab x tab_w (i + 1) (tx + tab_w) ts in
    if hits tx (tx + tab_w - 4) x then some (i, tx, t) else rest

unfoldable pub click_tab : ℤ → ℕ → ℕ → ℕ → ℕ → TabInfo → Ui → Ui
unfolding close_at switch_to
click_tab x button tab_w i tx t ui =
    if (button == 2 || (button == 1 && at_least (tx + tab_w - 24) x))
      && ltb 1 (length ui.core.tab_state.tabs)
    then close_at i t ui
    else switch_to t ui

unfoldable pub click_tab_bar : ℤ → ℕ → Ui → Ui
unfolding tab_width hit_tab click_tab open_tab
click_tab_bar x button ui =
    let tabs = ui.core.tab_state.tabs in
    let tab_w = tab_width ui.win_size.0 tabs in
    let tx = 6 + length tabs * tab_w in
    elim (hit_tab x tab_w 0 6 tabs) [
      | some (i, left, t) ↦ click_tab x button tab_w i left t ui
      | none ↦ if hits tx (tx + 33) x then open_tab ui else ui
    ]

unfoldable pub go_home : Ui → Ui
unfolding emit_input
go_home ui =
    let s = ui.core.tab_state in
    emit_input (InputEvent.navigate home)
      (with_tabs_of true false (record s { url_buf = home; editing = false }) ui)

unfoldable pub clear_all : Ui → Ui
unfolding emit_input
clear_all ui = chrome_changed (record (emit_input (InputEvent.clear_data true true true) ui) {
  status_toast_text = some (bytes_of "Cleared cookies, cache & storage");
  status_toast_frames_left = 60;
})

unfoldable pub reload_or_stop : Ui → Ui
unfolding emit_input
reload_or_stop ui =
    if ui.core.tab_state.is_loading
    then emit_input InputEvent.stop ui
    else emit_input (InputEvent.nav_action 2) ui

-- The buttons at the right of the address, from `right_x` on.
unfoldable pub click_right : ℕ → ℤ → Ui → Ui
unfolding zoom_to clear_all
click_right right_x x ui =
    let zm_x = right_x + 48 in
    let clr_x = right_x + 168 in
    if hits right_x (right_x + 42) x
    then toggle_mute ui
    else if hits zm_x (zm_x + 28) x
    then zoom_to (zoomed_out ui) ui
    else if hits (zm_x + 28) (zm_x + 86) x
    then zoom_to 1000 ui
    else if hits (zm_x + 86) (zm_x + 114) x
    then zoom_to (zoomed_in ui) ui
    else if hits clr_x (clr_x + 40) x
    then clear_all ui
    else ui

unfoldable pub click_nav_bar : ℤ → Ui → Ui
unfolding less_at_least emit_input reload_or_stop go_home click_right
click_nav_bar x ui =
    let right_x = less_at_least ui.win_size.0 216 200 in
    let omni_w = max (right_x - 140 - 10) 80 in
    if hits 8 36 x
    then emit_input (InputEvent.nav_action 0) ui
    else if hits 40 68 x
    then emit_input (InputEvent.nav_action 1) ui
    else if hits 72 100 x
    then reload_or_stop ui
    else if hits 104 132 x
    then go_home ui
    else if hits 140 (140 + omni_w) x
    then if ui.core.tab_state.editing then ui else edit_address ui
    else click_right right_x x ui

abbrev pub bookmarks : List (List ℕ × List ℕ)
bookmarks =
    (bytes_of "YouTube", bytes_of "https://www.youtube.com")
    ∷ (bytes_of "HackerNews", bytes_of "https://news.ycombinator.com")
    ∷ (bytes_of "Wikipedia", bytes_of "https://www.wikipedia.org")
    ∷ (bytes_of "DuckDuckGo", bytes_of "https://duckduckgo.com")
    ∷ (bytes_of "Reddit", bytes_of "https://www.reddit.com")
    ∷ (bytes_of "GitHub", bytes_of "https://github.com")
    ∷ (bytes_of "Rust", bytes_of "https://www.rust-lang.org")
    ∷ (bytes_of "Example", bytes_of "https://example.com")
    ∷ []

unfoldable pub go_to : List ℕ → Ui → Ui
unfolding emit_input
go_to url ui =
    let s = ui.core.tab_state in
    emit_input (InputEvent.navigate url) (with_tabs_of true false (visit url s) ui)

unfoldable pub click_bookmark : ℤ → ℕ → List (List ℕ × List ℕ) → Ui → Ui
unfolding go_to
click_bookmark x bkx [] ui = ui
click_bookmark x bkx ((label, url) ∷ rest) ui =
    let chip_w = length label * 7 + 20 in
    let behind = click_bookmark x (bkx + chip_w + 6) rest ui in
    if hits bkx (bkx + chip_w) x then go_to url ui else behind

unfoldable pub handle_chrome_click : ℤ → ℤ → ℕ → Ui → Ui
unfolding click_tab_bar click_nav_bar click_bookmark
handle_chrome_click x y button ui =
    if is_below 32 y
    then click_tab_bar x button ui
    else if is_below (32 + 38) y
    then click_nav_bar x ui
    else click_bookmark x 8 bookmarks ui

unfoldable pub button_bit : ℕ → ℕ
button_bit button =
    if button == 1
    then 2 ^ 20
    else if button == 3
    then 2 ^ 22
    else if button == 2
    then 2 ^ 21
    else 0

-- A click below the chrome.
unfoldable pub click_content : ℤ → ℤ → ℕ → Bool → Ui → Ui
unfolding emit_input
click_content x row button pressed ui =
    let s = ui.core.tab_state in
    let left =
      if pressed && s.editing
      then with_tabs_of true false (record s { editing = false }) ui
      else ui in
    if button == 0 then left else emit_input (InputEvent.button x row button pressed ui.mods) left

unfoldable pub on_mouse_button : ℤ → ℤ → ℕ → Bool → Ui → Ui
unfolding button_bit with_bit content_row handle_chrome_click click_content
on_mouse_button x y button pressed ui =
    let held = record ui { mods = with_bit pressed (button_bit button) ui.mods } in
    elim (content_row y) [
      | none ↦ if pressed then handle_chrome_click x y button held else held
      | some row ↦ click_content x row button pressed held
    ]
