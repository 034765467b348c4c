-- ===== src/Client/Ui/Steps/Clicks.antt =====
-- gutted-client/src/render.rs: `on_mouse_button` as a step.
use exo_browser_core.Common.{
  ℕ, suc, ◌+◌, ◌*◌, ◌-◌, ◌&&◌, ◌≡◌, refl, ap, subst, max, Bool, true, false, Option, none, some,
  List, [], ◌∷◌, length, get_elem?, ltb, Bool-cases, inl, inr, arith, if◌then◌else◌, ℤ,
}
use exo_browser_core.Client.Events.{InputEvent}
use exo_browser_core.Client.Core.State.{TabInfo}
use exo_browser_core.Client.Ui.{Ui, emit_input, content_row, with_bit, zoomed_in, zoomed_out}
use exo_browser_core.Client.Ui.Moves.{open_tab}
use exo_browser_core.Client.Ui.Clicks.{
  hits, less_at_least, tab_width, hit_tab, click_tab, click_tab_bar, go_home, clear_all,
  reload_or_stop, click_right, click_nav_bar, go_to, click_bookmark, bookmarks, handle_chrome_click,
  button_bit, click_content, on_mouse_button,
}
use exo_browser_core.Client.Ui.Tabs.{Move, Move-if}
use exo_browser_core.Client.Ui.Steps.{
  quiet, stands, says, emit_input-Move, view-visit, zoom_to-Move, toggle_mute-Move,
  edit_address-Move,
}
use exo_browser_core.Client.Ui.Steps.Moves.{open_tab-Move, switch_to-Move}
use exo_browser_core.Client.Ui.Steps.Close.{close_at-Move}

and_false : (b : Bool) → (b && false) ≡ false
and_false true = refl
and_false false = refl

-- The tab that is hit stands at the index that is given with it.
hit_tab-elem :
    (x : ℤ) (w i tx : ℕ) (ts : List TabInfo) (j l : ℕ) (t : TabInfo)
    → hit_tab x w i tx ts ≡ some (j, l, t)
    → (k : ℕ) × (j ≡ i + k) × (get_elem? ts k ≡ some t)
unfolding hit_tab
hit_tab-elem x w i tx [] j l t e = absurd (ground (arith, e))
hit_tab-elem x w i tx (u ∷ ts) j l t e = elim (Bool-cases (hits tx (tx + w - 4) x)) [
  | inl h ↦
      let q : hit_tab x w i tx (u ∷ ts) ≡ some (i, tx, u) = rw h refl in
      (0, ground (arith, q, e), ground (arith, q, e))
  | inr h ↦
      let (k, p, q) = hit_tab-elem x w (i + 1) (tx + w) ts j l t (rw h at e) in
      (suc k, omega (arith, p), q)
]

click_tab-Move :
    (x : ℤ) (button tab_w i tx : ℕ) (t : TabInfo) (u : Ui)
    → get_elem? u.core.tab_state.tabs i ≡ some t
    → Move u (click_tab x button tab_w i tx t u)
unfolding click_tab
click_tab-Move x button tab_w i tx t u e =
    elim (Bool-cases (ltb 1 (length u.core.tab_state.tabs))) [
      | inl more ↦ Move-if _ (close_at-Move i t u e more) (switch_to-Move i t u e)
      | inr last ↦ rw (last, and_false) (switch_to-Move i t u e)
    ]

click_tab_bar-Move : (x : ℤ) (button : ℕ) (u : Ui) → Move u (click_tab_bar x button u)
unfolding click_tab_bar
click_tab_bar-Move x button u =
    let tab_w = tab_width u.win_size.0 u.core.tab_state.tabs in
    by_hit (hit_tab x tab_w 0 6 u.core.tab_state.tabs) refl
  where
    by_hit :
        (o : Option (ℕ × ℕ × TabInfo))
        → hit_tab x (tab_width u.win_size.0 u.core.tab_state.tabs) 0 6 u.core.tab_state.tabs ≡ o
        → (let tabs = u.core.tab_state.tabs in
            let tab_w = tab_width u.win_size.0 tabs in
            let tx = 6 + length tabs * tab_w in
            Move u (elim o [
              | some (i, left, t) ↦ click_tab x button tab_w i left t u
              | none ↦ if hits tx (tx + 33) x then open_tab u else u
            ]))
    by_hit none e = Move-if _ (open_tab-Move u) (stands u)
    by_hit (some (i, left, t)) e =
        let (k, p, q) = hit_tab-elem x _ 0 6 u.core.tab_state.tabs i left t e in
        let same : k ≡ i = omega (arith, p) in
        click_tab-Move x button _ i left t u
          (subst (λ (n : ℕ). get_elem? u.core.tab_state.tabs n ≡ some t) same q)

go_home-Move : (u : Ui) → Move u (go_home u)
unfolding go_home emit_input
go_home-Move u = says _ u (go_home u) refl tt refl refl refl refl

clear_all-Move : (u : Ui) → Move u (clear_all u)
unfolding clear_all emit_input
clear_all-Move u = says _ u (clear_all u) refl tt refl refl refl refl

reload_or_stop-Move : (u : Ui) → Move u (reload_or_stop u)
unfolding reload_or_stop
reload_or_stop-Move u =
    Move-if u.core.tab_state.is_loading (emit_input-Move InputEvent.stop u tt)
      (emit_input-Move (InputEvent.nav_action 2) u tt)

click_right-Move : (right_x : ℕ) (x : ℤ) (u : Ui) → Move u (click_right right_x x u)
unfolding click_right
click_right-Move right_x x u = Move-if _ (toggle_mute-Move u) (
    Move-if _ (zoom_to-Move (zoomed_out u) u (λ z. omega arith)) (
      Move-if _ (zoom_to-Move 1000 u (λ z. omega arith)) (
        Move-if _ (zoom_to-Move (zoomed_in u) u (λ z. omega arith))
          (Move-if _ (clear_all-Move u) (stands u)))))

click_nav_bar-Move : (x : ℤ) (u : Ui) → Move u (click_nav_bar x u)
unfolding click_nav_bar
click_nav_bar-Move x u =
    let right_x = less_at_least u.win_size.0 216 200 in
    let omni_w = max (right_x - 140 - 10) 80 in
    Move-if (hits 8 36 x) (emit_input-Move (InputEvent.nav_action 0) u tt) (
      Move-if (hits 40 68 x) (emit_input-Move (InputEvent.nav_action 1) u tt) (
        Move-if (hits 72 100 x) (reload_or_stop-Move u) (
          Move-if (hits 104 132 x) (go_home-Move u) (
            Move-if (hits 140 (140 + omni_w) x)
              (Move-if u.core.tab_state.editing (stands u) (edit_address-Move u))
              (click_right-Move right_x x u)))))

go_to-Move : (url : List ℕ) (u : Ui) → Move u (go_to url u)
unfolding go_to emit_input
go_to-Move url u =
    let s = u.core.tab_state in
    says (InputEvent.navigate url) u (go_to url u) refl tt
      (ap (λ ns. record { ids = ns; active = s.active_tab_id; next = s.next_tab_id })
        (view-visit url s))
      refl refl refl

click_bookmark-Move :
    (x : ℤ) (bkx : ℕ) (marks : List (List ℕ × List ℕ)) (u : Ui)
    → Move u (click_bookmark x bkx marks u)
unfolding click_bookmark
click_bookmark-Move x bkx [] u = stands u
click_bookmark-Move x bkx ((label, url) ∷ marks) u =
    Move-if _ (go_to-Move url u) (click_bookmark-Move x (bkx + (length label * 7 + 20) + 6) marks u)

handle_chrome_click-Move :
    (x y : ℤ) (button : ℕ) (u : Ui) → Move u (handle_chrome_click x y button u)
unfolding handle_chrome_click
handle_chrome_click-Move x y button u =
    Move-if _ (click_tab_bar-Move x button u)
      (Move-if _ (click_nav_bar-Move x u) (click_bookmark-Move x 8 bookmarks u))

-- A step from a client that differs in the keys that are held.
held-Move : (mods : ℕ) (u v : Ui) → Move (record u { mods = mods }) v → Move u v
held-Move mods u v m = record {
  sent = m.sent;
  emits = m.emits;
  change = m.change;
  zoom = m.zoom;
  pictures = m.pictures;
}

click_content-Move :
    (x row : ℤ) (button : ℕ) (pressed : Bool) (u : Ui)
    → Move u (click_content x row button pressed u)
unfolding click_content emit_input
click_content-Move x row button pressed u =
    elim (Bool-cases (pressed && u.core.tab_state.editing)) [
      | inl e ↦
          rw e (
            Move-if _ (quiet u _ refl refl refl refl refl) (says _ u _ refl tt refl refl refl refl))
      | inr e ↦ rw e (Move-if _ (stands u) (says _ u _ refl tt refl refl refl refl))
    ]

pub on_mouse_button-Move :
    (x y : ℤ) (button : ℕ) (pressed : Bool) (u : Ui) → Move u (on_mouse_button x y button pressed u)
unfolding on_mouse_button
on_mouse_button-Move x y button pressed u =
    let mods = with_bit pressed (button_bit button) u.mods in
    held-Move mods u _ (by_row (content_row y))
  where
    by_row :
        (o : Option ℤ)
        → (let held = record u { mods = with_bit pressed (button_bit button) u.mods } in
            Move held (elim o [
              | none ↦ if pressed then handle_chrome_click x y button held else held
              | some row ↦ click_content x row button pressed held
            ]))
    by_row none = Move-if pressed (handle_chrome_click-Move x y button _) (stands _)
    by_row (some row) = click_content-Move x row button pressed _
