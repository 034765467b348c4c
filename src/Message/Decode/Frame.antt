-- ===== src/Message/Decode/Frame.antt =====
-- gutted-proto/src/lib.rs: `Message::decode_payload` and `Message::decode`.
use exo_browser_core.Common.{
  ℕ, Option, none, some, List, [], ◌∷◌, length, take, drop, ltb, ◌==◌, if◌then◌else◌,
}
use exo_browser_core.Wire.Result.{
  Error, Result, ok, err, try, unexpected_eof, unknown_tag, trailing_bytes, message_too_large,
}
use exo_browser_core.Wire.Reader.{Reader, fail, read_varint}
use exo_browser_core.Pixel.Lz4.Decode.{max_message_bytes}
use exo_browser_core.Message.Types.{Message}
use exo_browser_core.Message.Decode.Session.{
  read_hello, read_welcome, read_resize, read_nav, read_nav_action, read_stop, read_heartbeat,
  read_load_state, read_title, read_url_changed,
}
use exo_browser_core.Message.Decode.Input.{
  read_input_pointer, read_input_button, read_input_key, read_input_scroll, read_set_zoom,
  read_cursor_state,
}
use exo_browser_core.Message.Decode.Media.{
  read_raw_frame, read_subframe, read_tile_data, read_tile_ref, read_asset_register,
  read_draw_commands, read_audio_frame, read_video_chunk,
}
use exo_browser_core.Message.Decode.Scene.{
  read_layer_add, read_layer_update, read_layer_remove, read_scene_commit,
}
use exo_browser_core.Message.Decode.Tabs.{
  read_create_tab, read_close_tab, read_switch_tab, read_tab_created, read_tab_closed,
  read_tab_activated, read_tab_title, read_tab_url, read_clear_data, read_auth_challenge,
  read_auth_response, read_auth_success,
}
use exo_browser_core.Message.Tag.{
  tag_hello, tag_welcome, tag_resize, tag_nav, tag_nav_action, tag_stop, tag_heartbeat,
  tag_input_pointer, tag_input_button, tag_input_key, tag_input_scroll, tag_set_zoom,
  tag_cursor_state, tag_load_state, tag_title, tag_url_changed, tag_raw_frame, tag_layer_add,
  tag_layer_update, tag_layer_remove, tag_scene_commit, tag_subframe, tag_tile_data, tag_tile_ref,
  tag_asset_register, tag_draw_commands, tag_audio_frame, tag_video_chunk, tag_create_tab,
  tag_close_tab, tag_switch_tab, tag_tab_created, tag_tab_closed, tag_tab_activated, tag_tab_title,
  tag_tab_url, tag_clear_data, tag_auth_challenge, tag_auth_response, tag_auth_success,
}

-- The arms of `match tag`, in order.
abbrev pub arms : List (ℕ × Reader Message)
arms =
    (tag_hello, read_hello)
    ∷ (tag_welcome, read_welcome)
    ∷ (tag_resize, read_resize)
    ∷ (tag_nav, read_nav)
    ∷ (tag_nav_action, read_nav_action)
    ∷ (tag_stop, read_stop)
    ∷ (tag_heartbeat, read_heartbeat)
    ∷ (tag_input_pointer, read_input_pointer)
    ∷ (tag_input_button, read_input_button)
    ∷ (tag_input_key, read_input_key)
    ∷ (tag_input_scroll, read_input_scroll)
    ∷ (tag_set_zoom, read_set_zoom)
    ∷ (tag_cursor_state, read_cursor_state)
    ∷ (tag_load_state, read_load_state)
    ∷ (tag_title, read_title)
    ∷ (tag_url_changed, read_url_changed)
    ∷ (tag_raw_frame, read_raw_frame)
    ∷ (tag_layer_add, read_layer_add)
    ∷ (tag_layer_update, read_layer_update)
    ∷ (tag_layer_remove, read_layer_remove)
    ∷ (tag_scene_commit, read_scene_commit)
    ∷ (tag_subframe, read_subframe)
    ∷ (tag_tile_data, read_tile_data)
    ∷ (tag_tile_ref, read_tile_ref)
    ∷ (tag_asset_register, read_asset_register)
    ∷ (tag_draw_commands, read_draw_commands)
    ∷ (tag_audio_frame, read_audio_frame)
    ∷ (tag_video_chunk, read_video_chunk)
    ∷ (tag_create_tab, read_create_tab)
    ∷ (tag_close_tab, read_close_tab)
    ∷ (tag_switch_tab, read_switch_tab)
    ∷ (tag_tab_created, read_tab_created)
    ∷ (tag_tab_closed, read_tab_closed)
    ∷ (tag_tab_activated, read_tab_activated)
    ∷ (tag_tab_title, read_tab_title)
    ∷ (tag_tab_url, read_tab_url)
    ∷ (tag_clear_data, read_clear_data)
    ∷ (tag_auth_challenge, read_auth_challenge)
    ∷ (tag_auth_response, read_auth_response)
    ∷ (tag_auth_success, read_auth_success)
    ∷ []

-- The first arm with the tag, or `other => return Err(Error::UnknownTag(other))`.
unfoldable pub select : ℕ → List (ℕ × Reader Message) → Reader Message
select tag [] = fail (unknown_tag tag)
select tag ((t, read) ∷ rest) = if tag == t then read else select tag rest

-- `if !p.is_empty() { return Err(Error::TrailingBytes); }`.
unfoldable pub finish : Message × List ℕ → Result Message
finish (msg, []) = ok msg
finish (msg, _ ∷ _) = err trailing_bytes

unfoldable pub decode_payload : ℕ → List ℕ → Result Message
decode_payload tag payload = try (select tag arms payload) finish

-- A header varint that is cut short stands for a frame that is not complete.
unfoldable pub header_error : Error → Result (Option Message)
header_error unexpected_eof = ok none
header_error e = err e

-- `let msg = Self::decode_payload(tag, payload)?; *buf = rest; Ok(Some(msg))`.
unfoldable pub deliver : List ℕ → List ℕ → Result Message → Result (Option Message) × List ℕ
deliver buf rest (ok msg) = (ok (some msg), rest)
deliver buf rest (err e) = (err e, buf)

-- The frame behind the tag and the length.
unfoldable pub decode_sized : ℕ → ℕ → List ℕ → List ℕ → Result (Option Message) × List ℕ
decode_sized tag len probe buf =
    if ltb max_message_bytes len
    then (err message_too_large, buf)
    else if ltb (length probe) len
    then (ok none, buf)
    else deliver buf (drop len probe) (decode_payload tag (take len probe))

-- The frame behind the tag.
unfoldable pub decode_body : ℕ → List ℕ → List ℕ → Result (Option Message) × List ℕ
decode_body tag probe buf = elim (read_varint probe) [
  | err e ↦ (header_error e, buf)
  | ok (len, probe') ↦ decode_sized tag len probe' buf
]

-- The result with the buffer that the caller is left with.
unfoldable pub decode : List ℕ → Result (Option Message) × List ℕ
decode buf = elim (read_varint buf) [
  | err e ↦ (header_error e, buf)
  | ok (tag, probe) ↦ decode_body tag probe buf
]
