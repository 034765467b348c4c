-- ===== src/Client/Ui/Steps/Keys.antt =====
-- gutted-client/src/render.rs: `on_key` as a step.
use exo_browser_core.Common.{
  ℕ, ◌==◌, ◌&&◌, refl, Bool, true, false, Option, none, some, List, arith, if◌then◌else◌,
}
use exo_browser_core.Client.Events.{InputEvent}
use exo_browser_core.Client.Core.State.{TabInfo}
use exo_browser_core.Client.Core.Tabs.{find_tab}
use exo_browser_core.Client.Ui.{Ui, with_tabs_of, zoomed_in, zoomed_out}
use exo_browser_core.Client.Ui.Moves.{show_address}
use exo_browser_core.Client.Ui.Keys.{
  ctrl_key, cancel_edit, editing_key, first_of, pressed_key, typed, plain_key, returned, on_key,
}
use exo_browser_core.Client.Ui.Tabs.{Move, Move-if, MayMove, unused, moves, MayMove-if}
use exo_browser_core.Client.Ui.Steps.{
  quiet, stands, emit_input-Move, submit_omnibox-Move, zoom_to-Move, toggle_mute-Move,
  edit_address-Move,
}
use exo_browser_core.Client.Ui.Steps.Moves.{open_tab-Move}
use exo_browser_core.Client.Ui.Steps.Close.{close_active-Move, next_tab-Move}

ctrl_key-MayMove : (keysym : ℕ) (u : Ui) → MayMove u (ctrl_key keysym u)
unfolding ctrl_key
ctrl_key-MayMove keysym u = MayMove-if _ (moves (edit_address-Move u)) (
    MayMove-if _ (moves (open_tab-Move u)) (
      MayMove-if _ (moves (close_active-Move u)) (
        MayMove-if _ (moves (emit_input-Move (InputEvent.nav_action 2) u tt)) (
          MayMove-if _ (moves (toggle_mute-Move u)) (
            MayMove-if _ (moves (zoom_to-Move (zoomed_in u) u (λ z. omega arith))) (
              MayMove-if _ (moves (zoom_to-Move (zoomed_out u) u (λ z. omega arith))) (
                MayMove-if _ (moves (zoom_to-Move 1000 u (λ z. omega arith)))
                  (MayMove-if _ (moves (next_tab-Move u)) unused))))))))

cancel_edit-Move : (u : Ui) → Move u (cancel_edit u)
unfolding cancel_edit
cancel_edit-Move u = by_tab (find_tab u.core.tab_state.active_tab_id u.core.tab_state.tabs)
  where
    by_tab :
        (o : Option TabInfo)
        → Move u (
            with_tabs_of true false
              (show_address o (record u.core.tab_state { editing = false }))
              u)
    by_tab none = quiet u _ refl refl refl refl refl
    by_tab (some t) = quiet u _ refl refl refl refl refl

editing_key-MayMove : (keysym : ℕ) (u : Ui) → MayMove u (editing_key keysym u)
unfolding editing_key
editing_key-MayMove keysym u = MayMove-if _ (moves (submit_omnibox-Move u)) (
    MayMove-if _ (moves (cancel_edit-Move u))
      (MayMove-if _ (moves (quiet u _ refl refl refl refl refl)) unused))

first_of-MayMove : {u : Ui} (o p : Option Ui) → MayMove u o → MayMove u p → MayMove u (first_of o p)
first_of-MayMove none p m n = n
first_of-MayMove (some v) p m n = m

pressed_key-MayMove :
    (ctrl alt : Bool) (keysym : ℕ) (u : Ui) → MayMove u (pressed_key ctrl alt keysym u)
unfolding pressed_key
pressed_key-MayMove ctrl alt keysym u =
    MayMove-if _ (moves (emit_input-Move (InputEvent.nav_action 2) u tt)) (
      MayMove-if _ (moves (emit_input-Move (InputEvent.nav_action 0) u tt)) (
        MayMove-if _ (moves (emit_input-Move (InputEvent.nav_action 1) u tt)) (
          first_of-MayMove _ _ (MayMove-if ctrl (ctrl_key-MayMove keysym u) unused)
            (MayMove-if u.core.tab_state.editing (editing_key-MayMove keysym u) unused))))

typed-Move : (keysym : ℕ) (text : Option (List ℕ)) (u : Ui) → Move u (typed keysym text u)
unfolding typed
typed-Move keysym (some t) u = quiet u _ refl refl refl refl refl
typed-Move keysym none u = Move-if _ (quiet u _ refl refl refl refl refl) (stands u)

plain_key-Move :
    (ctrl alt : Bool) (keysym : ℕ) (pressed : Bool) (text : Option (List ℕ)) (u : Ui)
    → Move u (plain_key ctrl alt keysym pressed text u)
unfolding plain_key
plain_key-Move ctrl alt keysym pressed text u =
    Move-if u.core.tab_state.editing (Move-if _ (typed-Move keysym text u) (stands u))
      (Move-if _ (stands u) (emit_input-Move (InputEvent.key keysym u.mods pressed) u tt))

returned-Move : (u v : Ui) (o : Option Ui) → MayMove u o → Move u v → Move u (returned o v).0
returned-Move u v none m n = n
returned-Move u v (some w) (moves m) n = m

Move-if_result :
    (b : Bool) (u : Ui) (r s : Ui × Bool) → Move u r.0 → Move u s.0 → Move u (if b then r else s).0
Move-if_result true u r s m n = m
Move-if_result false u r s m n = n

pub on_key-Move :
    (keysym : ℕ) (pressed : Bool) (text : Option (List ℕ)) (u : Ui)
    → Move u (on_key keysym pressed text u).0
unfolding on_key
on_key-Move keysym pressed text u = Move-if_result (pressed && keysym == 0xffc8) u _ _ (stands u) (
    returned-Move u _ _ (MayMove-if pressed (pressed_key-MayMove _ _ keysym u) unused)
      (plain_key-Move _ _ keysym pressed text u))
