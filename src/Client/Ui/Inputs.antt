-- ===== src/Client/Ui/Inputs.antt =====
-- gutted-client/src/render.rs: what a user does, one input after another.
use exo_browser_core.Common.{ℕ, Bool, Option, List, [], ◌∷◌, ℤ}
use exo_browser_core.Client.Ui.{
  Ui, on_resize, on_pointer_move, on_scroll, update_keysym_modifier, update_x11_mods,
}
use exo_browser_core.Client.Ui.Keys.{on_key}
use exo_browser_core.Client.Ui.Clicks.{on_mouse_button}

-- The calls that the window loops make of `BrowserCore`.
pub data UserInput : Type 0 where
  resize : (w h : ℕ) → UserInput
  pointer_move : (x y : ℤ) → UserInput
  mouse_button : (x y : ℤ) (button : ℕ) (pressed : Bool) → UserInput
  scroll : (dx dy : ℤ) → UserInput
  key : (keysym : ℕ) (pressed : Bool) (text : Option (List ℕ)) → UserInput
  modifier : (keysym : ℕ) (pressed : Bool) → UserInput
  x11_mods : (shift control mod1 mod4 : Bool) → UserInput

unfoldable pub user_input : UserInput → Ui → Ui
user_input (UserInput.resize w h) ui = on_resize w h ui
user_input (UserInput.pointer_move x y) ui = on_pointer_move x y ui
user_input (UserInput.mouse_button x y button pressed) ui = on_mouse_button x y button pressed ui
user_input (UserInput.scroll dx dy) ui = on_scroll dx dy ui
user_input (UserInput.key keysym pressed text) ui = (on_key keysym pressed text ui).0
user_input (UserInput.modifier keysym pressed) ui = update_keysym_modifier keysym pressed ui
user_input (UserInput.x11_mods shift control mod1 mod4) ui =
    update_x11_mods shift control mod1 mod4 ui

unfoldable pub user_inputs : List UserInput → Ui → Ui
unfolding user_input
user_inputs [] ui = ui
user_inputs (i ∷ is) ui = user_inputs is (user_input i ui)
