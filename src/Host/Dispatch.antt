-- ===== src/Host/Dispatch.antt =====
-- gutted-host-rs/src/main.rs: what the host does with the messages of `handle_ctrl_stream`,
-- `handle_input_stream`, `handle_connection` and `handle_tcp_connection`.
pub mod Agrees
pub mod Keeps
use exo_browser_core.Common.{
  ℕ, ◌+◌, Bool, true, false, ◌&&◌, not, Option, none, some, List, [], ◌∷◌, ◌++◌, ltb, ◌==◌,
  if◌then◌else◌, ℤ, pos, bit_and,
}
use exo_browser_core.Message.Types.{Message}
use exo_browser_core.Host.Engine.{RunnerCall, Effect}
use exo_browser_core.Host.State.{
  HostState, Step, new_tab_title, on_active, create_tab, switch_tab, close_tab, resize_all,
  current_url,
}

-- `PROTO_VERSION`, and `caps::H264 | caps::CLIENT_SCROLL`.
abbrev pub proto_version : ℕ
proto_version = 1

abbrev pub host_caps : ℕ
host_caps = 1 + 16

-- The handshake: a `HELLO` of the right version resizes every view and is answered by a `WELCOME`;
-- anything else ends the connection. The session id is a random number.
unfoldable pub on_hello : ℕ → Message → HostState → Option Step
on_hello session_id (Message.hello version viewport_w viewport_h dpr client_name capabilities) s =
    let (s', effects) =
      if ltb 0 viewport_w && ltb 0 viewport_h
      then resize_all viewport_w viewport_h s
      else (s, []) in
    if not (version == proto_version)
    then none
    else some (
      s',
      effects
          ++ (Effect.reply (
                Message.welcome proto_version session_id (bit_and capabilities host_caps) 0
                  (current_url s'))
              ∷ []),
    )
on_hello session_id _ s = none

unfoldable pub nav_action : ℕ → HostState → Step
nav_action action s =
    if action == 0
    then on_active (λ t. RunnerCall.go_back t) s
    else if action == 1
    then on_active (λ t. RunnerCall.go_forward t) s
    else if action == 2
    then on_active (λ t. RunnerCall.reload t) s
    else (s, [])

abbrev pub with_reply : Step → Message → Step
with_reply (s, effects) m = (s, effects ++ (Effect.reply m ∷ []))

-- The message loop of `handle_ctrl_stream`, behind the handshake.
unfoldable pub on_ctrl : ℕ → Message → HostState → Step
on_ctrl ts_us (Message.heartbeat t) s = (s, Effect.reply (Message.heartbeat t) ∷ [])
on_ctrl ts_us (Message.nav url) s = on_active (λ t. RunnerCall.load_uri t url) s
on_ctrl ts_us (Message.resize viewport_w viewport_h _) s = resize_all viewport_w viewport_h s
on_ctrl ts_us (Message.set_zoom level_milli) s =
    on_active (λ t. RunnerCall.set_zoom t level_milli) s
on_ctrl ts_us (Message.nav_action action) s = nav_action action s
on_ctrl ts_us Message.stop s = on_active (λ t. RunnerCall.stop_loading t) s
on_ctrl ts_us (Message.clear_data cookies cache storage) s =
    (s, Effect.call (RunnerCall.clear_data cookies cache storage) ∷ [])
on_ctrl ts_us (Message.create_tab tab_id url) s =
    with_reply (create_tab ts_us tab_id url true s) (Message.tab_created tab_id new_tab_title url)
on_ctrl ts_us (Message.close_tab tab_id) s =
    with_reply (close_tab tab_id s) (Message.tab_closed tab_id)
on_ctrl ts_us (Message.switch_tab tab_id) s =
    with_reply (switch_tab ts_us tab_id s) (Message.tab_activated tab_id)
on_ctrl ts_us _ s = (s, [])

-- `last_pointer` of the input handlers.
abbrev pub Pointer : Type 0
Pointer = ℤ × ℤ

-- The message loop of `handle_input_stream`.
unfoldable pub on_input : Message → Pointer → HostState → Pointer × Step
on_input (Message.input_pointer _ x y modifiers) last s =
    ((x, y), on_active (λ t. RunnerCall.inject_pointer_motion t x y modifiers) s)
on_input (Message.input_button _ x y button pressed modifiers) last s =
    ((x, y), on_active (λ t. RunnerCall.inject_pointer_button t x y button pressed modifiers) s)
on_input (Message.input_key _ keycode mods down) last s =
    (last, on_active (λ t. RunnerCall.inject_key t keycode mods down) s)
on_input (Message.input_scroll _ _ dx_units dy_units _) last s =
    (last, on_active (λ t. RunnerCall.inject_axis t last.0 last.1 dx_units dy_units 0) s)
on_input _ last s = (last, (s, []))

-- A datagram of `handle_connection`: only the pointer is read from it.
unfoldable pub on_datagram : Message → HostState → Step
on_datagram (Message.input_pointer _ x y modifiers) s =
    on_active (λ t. RunnerCall.inject_pointer_motion t x y modifiers) s
on_datagram _ s = (s, [])

-- The message loop of `handle_tcp_connection`, behind the handshake.
unfoldable pub on_tcp : ℕ → Message → Pointer → HostState → Pointer × Step
on_tcp ts_us (Message.heartbeat t) last s = (last, (s, Effect.reply (Message.heartbeat t) ∷ []))
on_tcp ts_us (Message.nav url) last s = (last, on_active (λ t. RunnerCall.load_uri t url) s)
on_tcp ts_us (Message.resize viewport_w viewport_h _) last s =
    (last, resize_all viewport_w viewport_h s)
on_tcp ts_us (Message.set_zoom level_milli) last s =
    (last, on_active (λ t. RunnerCall.set_zoom t level_milli) s)
on_tcp ts_us (Message.nav_action action) last s = (last, nav_action action s)
on_tcp ts_us Message.stop last s = (last, on_active (λ t. RunnerCall.stop_loading t) s)
on_tcp ts_us (Message.clear_data cookies cache storage) last s =
    (last, (s, Effect.call (RunnerCall.clear_data cookies cache storage) ∷ []))
on_tcp ts_us (Message.create_tab tab_id url) last s = (
  last,
  with_reply (create_tab ts_us tab_id url true s) (Message.tab_created tab_id new_tab_title url),
)
on_tcp ts_us (Message.close_tab tab_id) last s =
    (last, with_reply (close_tab tab_id s) (Message.tab_closed tab_id))
on_tcp ts_us (Message.switch_tab tab_id) last s =
    (last, with_reply (switch_tab ts_us tab_id s) (Message.tab_activated tab_id))
on_tcp ts_us (Message.input_pointer _ x y modifiers) last s =
    ((x, y), on_active (λ t. RunnerCall.inject_pointer_motion t x y modifiers) s)
on_tcp ts_us (Message.input_button _ x y button pressed modifiers) last s =
    ((x, y), on_active (λ t. RunnerCall.inject_pointer_button t x y button pressed modifiers) s)
on_tcp ts_us (Message.input_key _ keycode mods down) last s =
    (last, on_active (λ t. RunnerCall.inject_key t keycode mods down) s)
on_tcp ts_us (Message.input_scroll _ _ dx_units dy_units _) last s =
    (last, on_active (λ t. RunnerCall.inject_axis t last.0 last.1 dx_units dy_units 0) s)
on_tcp ts_us _ last s = (last, (s, []))
