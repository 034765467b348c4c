-- ===== src/Client/Ui/Keys.antt =====
-- gutted-client/src/render.rs: `BrowserCore::on_key`.
use exo_browser_core.Common.{
  ℕ, bit_and, ltb, ◌==◌, ◌&&◌, ◌||◌, not, Bool, true, false, Option, none, some, List, [], ◌∷◌,
  ◌++◌, if◌then◌else◌,
}
use exo_browser_core.Client.Events.{InputEvent}
use exo_browser_core.Client.Core.Tabs.{find_tab}
use exo_browser_core.Client.Url.{is_within}
use exo_browser_core.Client.Ui.{
  Ui, emit_input, with_tabs_of, submit_omnibox, zoom_to, zoomed_in, zoomed_out, toggle_mute,
  edit_address,
}
use exo_browser_core.Client.Ui.Moves.{open_tab, close_active, next_tab, show_address}
use mathlib.Core.List.{reverse}

-- `keysym` is one of two, the two cases of a letter mostly.
abbrev is_key : ℕ → ℕ → ℕ → Bool
is_key a b keysym = keysym == a || keysym == b

-- The keys with Ctrl; `none` where the code goes on.
unfoldable pub ctrl_key : ℕ → Ui → Option Ui
unfolding emit_input zoom_to
ctrl_key keysym ui =
    if is_key 0x006c 0x004c keysym
    then some (edit_address ui)
    else if is_key 0x0074 0x0054 keysym
    then some (open_tab ui)
    else if is_key 0x0077 0x0057 keysym
    then some (close_active ui)
    else if is_key 0x0072 0x0052 keysym
    then some (emit_input (InputEvent.nav_action 2) ui)
    else if is_key 0x006d 0x004d keysym
    then some (toggle_mute ui)
    else if is_key 0x003d 0x002b keysym
    then some (zoom_to (zoomed_in ui) ui)
    else if keysym == 0x002d
    then some (zoom_to (zoomed_out ui) ui)
    else if keysym == 0x0030
    then some (zoom_to 1000 ui)
    else if keysym == 0xff09
    then some (next_tab ui)
    else none

-- `String::pop`: the last character goes, with all its bytes.
unfoldable pub pop_reversed : List ℕ → List ℕ
pop_reversed [] = []
pop_reversed (b ∷ s) = let rest = pop_reversed s in if is_within 128 191 b then rest else s

unfoldable pub pop : List ℕ → List ℕ
unfolding pop_reversed
pop s = reverse (pop_reversed (reverse s))

-- Escape gives the address of the active tab back.
unfoldable pub cancel_edit : Ui → Ui
unfolding find_tab
cancel_edit ui =
    let s = ui.core.tab_state in
    with_tabs_of true false
      (show_address (find_tab s.active_tab_id s.tabs) (record s { editing = false })) ui

-- The keys that end or shorten what is typed; `none` where the code goes on.
unfoldable pub editing_key : ℕ → Ui → Option Ui
unfolding submit_omnibox cancel_edit pop
editing_key keysym ui =
    let s = ui.core.tab_state in
    if is_key 0xff0d 0xff8d keysym
    then some (submit_omnibox ui)
    else if keysym == 0xff1b
    then some (cancel_edit ui)
    else if keysym == 0xff08
    then some (with_tabs_of true false (record s { url_buf = pop s.url_buf }) ui)
    else none

abbrev pub first_of : Option Ui → Option Ui → Option Ui
first_of none o = o
first_of (some ui) o = some ui

-- The part of `on_key` behind `if pressed`, in front of the typing.
unfoldable pub pressed_key : Bool → Bool → ℕ → Ui → Option Ui
unfolding ctrl_key editing_key emit_input
pressed_key ctrl alt keysym ui =
    if keysym == 0xffc2
    then some (emit_input (InputEvent.nav_action 2) ui)
    else if alt && keysym == 0xff51
    then some (emit_input (InputEvent.nav_action 0) ui)
    else if alt && keysym == 0xff53
    then some (emit_input (InputEvent.nav_action 1) ui)
    else first_of (if ctrl then ctrl_key keysym ui else none)
        (if ui.core.tab_state.editing then editing_key keysym ui else none)

-- The characters of a text that are no control characters: those are below 32, 127, and 128 to 159,
-- which has two bytes.
unfoldable pub printable : List ℕ → List ℕ
printable [] = []
printable (a ∷ []) = if ltb a 32 || a == 127 then [] else a ∷ []
printable (a ∷ b ∷ s) =
    let rest = printable (b ∷ s) in
    let behind = printable s in
    if ltb a 32 || a == 127
    then rest
    else if a == 194 && is_within 128 159 b
    then behind
    else a ∷ rest

unfoldable pub typed : ℕ → Option (List ℕ) → Ui → Ui
unfolding printable
typed keysym (some t) ui =
    let s = ui.core.tab_state in
    with_tabs_of true false (record s { url_buf = s.url_buf ++ printable t }) ui
typed keysym none ui =
    let s = ui.core.tab_state in
    if is_within 0x20 0x7e keysym
    then with_tabs_of true false (record s { url_buf = s.url_buf ++ (keysym ∷ []) }) ui
    else ui

-- The part of `on_key` behind `if pressed`.
unfoldable pub plain_key : Bool → Bool → ℕ → Bool → Option (List ℕ) → Ui → Ui
unfolding typed emit_input
plain_key ctrl alt keysym pressed text ui =
    if ui.core.tab_state.editing
    then if pressed && (not ctrl && not alt) then typed keysym text ui else ui
    else if keysym == 0
    then ui
    else emit_input (InputEvent.key keysym ui.mods pressed) ui

abbrev pub returned : Option Ui → Ui → Ui × Bool
returned none behind = (behind, false)
returned (some done) behind = (done, false)

-- The result is `true` for F11 only.
unfoldable pub on_key : ℕ → Bool → Option (List ℕ) → Ui → Ui × Bool
unfolding pressed_key plain_key
on_key keysym pressed text ui =
    let ctrl = not (bit_and ui.mods 1 == 0) in
    let alt = not (bit_and ui.mods 4 == 0) in
    if pressed && keysym == 0xffc8
    then (ui, true)
    else returned (if pressed then pressed_key ctrl alt keysym ui else none)
        (plain_key ctrl alt keysym pressed text ui)
