-- ===== src/Client/Ui/Moves.antt =====
-- gutted-client/src/render.rs: how keys and clicks open, close and switch tabs.
use exo_browser_core.Common.{
  ℕ, zero, suc, ◌+◌, ◌%◌, ◌^◌, ltb, ◌==◌, true, false, Option, none, some, List, [], ◌∷◌, ◌++◌,
  length, get_elem?, if◌then◌else◌,
}
use exo_browser_core.Client.Session.{bytes_of}
use exo_browser_core.Client.Events.{InputEvent}
use exo_browser_core.Client.Core.State.{TabInfo, TabState, remove_key, lookup_key}
use exo_browser_core.Client.Core.Tabs.{find_tab, retain_tabs, stored, activate_first}
use exo_browser_core.Client.Ui.{Ui, emit_input, with_tabs_of}

abbrev pub home : List ℕ
home = bytes_of "https://duckduckgo.com"

-- The new tab of Ctrl+T and of the button behind the tabs.
unfoldable pub open_tab : Ui → Ui
unfolding stored emit_input
open_tab ui =
    let s = ui.core.tab_state in
    let new_id = s.next_tab_id in
    let tab : TabInfo = record {
      id = new_id;
      title = bytes_of "New Tab";
      url = home;
      is_loading = true;
      is_secure = true;
    } in
    emit_input (InputEvent.create_tab new_id home) (
      with_tabs_of true true
        (record s {
          tabs = s.tabs ++ (tab ∷ []);
          active_tab_id = new_id;
          next_tab_id = (new_id + 1) % 2 ^ 32;
          active_buf = none;
          tab_composites = stored s;
          url_buf = home;
          editing = false;
        })
        ui)

-- `if let Some(first) = self.tabs.first() { … }` behind the closing of the active tab.
unfoldable pub go_to_first : List TabInfo → TabState → Ui → Ui
unfolding activate_first emit_input
go_to_first [] s ui = with_tabs_of true true s ui
go_to_first (first ∷ rest) s ui =
    emit_input (InputEvent.switch_tab first.id)
      (with_tabs_of true true (activate_first (first ∷ rest) s) ui)

-- Ctrl+W.
unfoldable pub close_active : Ui → Ui
unfolding go_to_first emit_input retain_tabs remove_key
close_active ui =
    let s = ui.core.tab_state in
    let id = s.active_tab_id in
    let kept = retain_tabs id s.tabs in
    if ltb 1 (length s.tabs)
    then go_to_first kept
        (record s { tabs = kept; tab_composites = remove_key id s.tab_composites })
        (emit_input (InputEvent.close_tab id) ui)
    else ui

-- `self.tabs.iter().position(|t| t.id == id)`, counted from `i`.
unfoldable pub position : ℕ → ℕ → List TabInfo → Option ℕ
position id i [] = none
position id i (t ∷ ts) = let rest = position id (i + 1) ts in if t.id == id then some i else rest

abbrev pub or_zero : Option ℕ → ℕ
or_zero none = 0
or_zero (some i) = i

-- The tab and its picture, with the picture of the active tab put away.
abbrev pub leave_for : ℕ → TabState → TabState
leave_for id s = record s {
  active_tab_id = id;
  active_buf = lookup_key id (stored s);
  tab_composites = remove_key id (stored s);
}

abbrev pub show_address : Option TabInfo → TabState → TabState
show_address none s = s
show_address (some t) s = record s { url_buf = t.url }

-- Ctrl+Tab; the index is in range, so `none` does not occur.
unfoldable pub next_tab : Ui → Ui
unfolding position find_tab stored emit_input
next_tab ui =
    let s = ui.core.tab_state in
    let i = (or_zero (position s.active_tab_id 0 s.tabs) + 1) % length s.tabs in
    if ltb 1 (length s.tabs)
    then elim (get_elem? s.tabs i) [
      | none ↦ ui
      | some next ↦
          emit_input (InputEvent.switch_tab next.id) (
            with_tabs_of true true (show_address (find_tab next.id s.tabs) (leave_for next.id s))
              ui)
    ]
    else ui

-- `self.tabs.remove(i)`.
unfoldable pub remove_at : ℕ → List TabInfo → List TabInfo
remove_at i [] = []
remove_at zero (t ∷ ts) = ts
remove_at (suc i) (t ∷ ts) = t ∷ remove_at i ts

-- A click that closes the tab at an index.
unfoldable pub close_at : ℕ → TabInfo → Ui → Ui
unfolding remove_at remove_key go_to_first emit_input
close_at i t ui =
    let s = ui.core.tab_state in
    let kept = remove_at i s.tabs in
    let s' = record s { tabs = kept; tab_composites = remove_key t.id s.tab_composites } in
    let closed = emit_input (InputEvent.close_tab t.id) ui in
    if s.active_tab_id == t.id
    then go_to_first kept s' closed
    else with_tabs_of true false s' closed

-- A click that shows a tab.
unfoldable pub switch_to : TabInfo → Ui → Ui
unfolding stored emit_input
switch_to t ui =
    let s = ui.core.tab_state in
    if s.active_tab_id == t.id
    then ui
    else emit_input (InputEvent.switch_tab t.id)
        (with_tabs_of true true (record (leave_for t.id s) { url_buf = t.url; editing = false }) ui)
