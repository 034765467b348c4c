-- ===== src/Message/Decode/Input.antt =====
-- gutted-proto/src/lib.rs: the arms of `Message::decode_payload` for input and the cursor.
use exo_browser_core.Wire.Reader.{
  Reader, ◌>>=◌, ret, read_u8, read_u16, read_u32, read_u64, read_i32, read_bool,
}
use exo_browser_core.Message.Types.{Message}
use exo_browser_core.Message.Parts.{phase_from_u8, shape_from_u8}

unfoldable pub read_input_pointer : Reader Message
read_input_pointer = do
  ts_us ← read_u64
  x ← read_i32
  y ← read_i32
  modifiers ← read_u32
  ret (Message.input_pointer ts_us x y modifiers)

unfoldable pub read_input_button : Reader Message
read_input_button = do
  ts_us ← read_u64
  x ← read_i32
  y ← read_i32
  button ← read_u32
  pressed ← read_bool
  modifiers ← read_u32
  ret (Message.input_button ts_us x y button pressed modifiers)

unfoldable pub read_input_key : Reader Message
read_input_key = do
  ts_us ← read_u64
  keycode ← read_u32
  mods ← read_u32
  down ← read_bool
  ret (Message.input_key ts_us keycode mods down)

unfoldable pub read_input_scroll : Reader Message
read_input_scroll = do
  ts_us ← read_u64
  layer_id ← read_u32
  dx_units ← read_i32
  dy_units ← read_i32
  phase_byte ← read_u8
  phase ← phase_from_u8 phase_byte
  ret (Message.input_scroll ts_us layer_id dx_units dy_units phase)

unfoldable pub read_set_zoom : Reader Message
read_set_zoom = do level_milli ← read_u32; ret (Message.set_zoom level_milli)

unfoldable pub read_cursor_state : Reader Message
read_cursor_state = do
  shape_byte ← read_u8
  shape ← shape_from_u8 shape_byte
  hotspot_x ← read_u16
  hotspot_y ← read_u16
  image_ref ← read_u64
  ret (Message.cursor_state shape hotspot_x hotspot_y image_ref)
