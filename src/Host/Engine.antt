-- ===== src/Host/Engine.antt =====
-- gutted-host-rs/src/main.rs: the calls that the host makes of `wpe::WpeRunner` and of its clients.
use exo_browser_core.Common.{ℕ, ℤ, Bool, List}
use exo_browser_core.Message.Types.{Message}

-- The calls of `wpe::WpeRunner`. A zoom level is in thousandths, and a scroll in steps of 40.
pub data RunnerCall : Type 0 where
  create_tab : (tab_id : ℕ) (url : List ℕ) → RunnerCall
  close_tab : (tab_id : ℕ) → RunnerCall
  load_uri : (tab_id : ℕ) (url : List ℕ) → RunnerCall
  resize_all : (w h : ℕ) → RunnerCall
  inject_pointer_motion : (tab_id : ℕ) (x y : ℤ) (modifiers : ℕ) → RunnerCall
  inject_pointer_button :
      (tab_id : ℕ) (x y : ℤ) (button : ℕ) (pressed : Bool) (modifiers : ℕ) → RunnerCall
  inject_key : (tab_id keycode mods : ℕ) (down : Bool) → RunnerCall
  inject_axis : (tab_id : ℕ) (x y dx dy : ℤ) (modifiers : ℕ) → RunnerCall
  set_zoom : (tab_id level_milli : ℕ) → RunnerCall
  go_back : (tab_id : ℕ) → RunnerCall
  go_forward : (tab_id : ℕ) → RunnerCall
  reload : (tab_id : ℕ) → RunnerCall
  stop_loading : (tab_id : ℕ) → RunnerCall
  clear_data : (cookies cache storage : Bool) → RunnerCall

-- What an operation does besides changing the state: a call of the engine, a message on the bus,
-- or a message to the one client that asked.
pub data Effect : Type 0 where
  call : RunnerCall → Effect
  publish : Message → Effect
  reply : Message → Effect
