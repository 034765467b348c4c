-- ===== src/Message/Encode.antt =====
-- gutted-proto/src/lib.rs: `Message::encode_payload` and `Message::encode`.
use exo_browser_core.Common.{
  ℕ, ◌+◌, ◌-◌, ◌/◌, ◌%◌, ◌^◌, ◌<◌, Bool, not, Option, none, some, List, [], ◌∷◌, ◌++◌, length, take,
  drop, replicate, bit_and, bit_or, ltb, leb, ◌==◌, if◌then◌else◌, Acc, lt_wf, dite, dec_lt,
}
use exo_browser_core.Wire.Writer.{
  write_blob, Writer, ◌>>◌, skip, write_bytes, write_varint, write_u8, write_u16, write_u32,
  write_u64, write_i32, write_bool, write_str, write_each, shift_shrinks,
}
use exo_browser_core.Pixel.Payload.{write_payload_geom}
use exo_browser_core.Message.Types.{Message}
use exo_browser_core.Message.Tag.{tag}
use exo_browser_core.Message.Parts.{
  phase_to_u8, kind_to_u8, shape_to_u8, write_content_ref, write_draw_cmd,
}

abbrev pub layer_mask_transform : ℕ
layer_mask_transform = 1

abbrev pub layer_mask_opacity : ℕ
layer_mask_opacity = 2

abbrev pub layer_mask_size : ℕ
layer_mask_size = 4

abbrev pub layer_mask_content_ref : ℕ
layer_mask_content_ref = 8

abbrev pub layer_mask_damage : ℕ
layer_mask_damage = 16

-- `mask & bit != 0`.
unfoldable pub has : ℕ → ℕ → Bool
has mask bit = not (bit_and mask bit == 0)

-- `if b { write }`.
unfoldable pub only : Bool → Writer → Writer
only b write = if b then write else skip

unfoldable pub write_damage : ℕ × ℕ × ℕ × ℕ → Writer
write_damage (x, y, w, h) = do write_u16 x; write_u16 y; write_u16 w; write_u16 h

unfoldable pub encode_payload : Message → Writer
encode_payload
      (Message.hello proto_version viewport_w viewport_h dpr_hundredths client_name capabilities) =
    do
      write_u32 proto_version
      write_u16 viewport_w
      write_u16 viewport_h
      write_u16 dpr_hundredths
      write_u32 capabilities
      write_str client_name
encode_payload (Message.welcome proto_version session_id features cursor_track_id current_url) = do
  write_u32 proto_version
  write_u64 session_id
  write_u32 features
  write_u32 cursor_track_id
  write_str current_url
encode_payload (Message.resize viewport_w viewport_h dpr_hundredths) = do
  write_u16 viewport_w
  write_u16 viewport_h
  write_u16 dpr_hundredths
encode_payload (Message.nav url) = write_str url
encode_payload (Message.nav_action action) = write_u8 action
encode_payload Message.stop = skip
encode_payload (Message.heartbeat ts_us) = write_u64 ts_us
encode_payload (Message.input_pointer ts_us x y modifiers) = do
  write_u64 ts_us
  write_i32 x
  write_i32 y
  write_u32 modifiers
encode_payload (Message.input_button ts_us x y button pressed modifiers) = do
  write_u64 ts_us
  write_i32 x
  write_i32 y
  write_u32 button
  write_bool pressed
  write_u32 modifiers
encode_payload (Message.input_key ts_us keycode mods down) = do
  write_u64 ts_us
  write_u32 keycode
  write_u32 mods
  write_bool down
encode_payload (Message.input_scroll ts_us layer_id dx_units dy_units phase) = do
  write_u64 ts_us
  write_u32 layer_id
  write_i32 dx_units
  write_i32 dy_units
  write_u8 (phase_to_u8 phase)
encode_payload (Message.set_zoom level_milli) = write_u32 level_milli
encode_payload (Message.cursor_state shape hotspot_x hotspot_y image_ref) = do
  write_u8 (shape_to_u8 shape)
  write_u16 hotspot_x
  write_u16 hotspot_y
  write_u64 image_ref
encode_payload (Message.load_state state) = write_u8 state
encode_payload (Message.title title) = write_str title
encode_payload (Message.url_changed url) = write_str url
encode_payload (Message.raw_frame ts_us width height stride format compression pixels) = do
  write_u64 ts_us
  write_u16 width
  write_u16 height
  write_u32 stride
  write_u32 format
  write_u8 compression
  write_payload_geom compression width height pixels
encode_payload (Message.layer_add id parent kind (width, height) transform opacity content) = do
  write_u32 id
  write_u32 parent
  write_u8 (kind_to_u8 kind)
  write_u16 width
  write_u16 height
  write_each write_i32 transform
  write_u8 opacity
  write_content_ref content
encode_payload (Message.layer_update id mask transform opacity (width, height) content damage) = do
  write_u32 id
  write_u32 mask
  only (has mask layer_mask_transform) (write_each write_i32 transform)
  only (has mask layer_mask_opacity) (write_u8 opacity)
  only (has mask layer_mask_size) (write_u16 width >> write_u16 height)
  only (has mask layer_mask_content_ref) (write_content_ref content)
  only (has mask layer_mask_damage) (write_damage damage)
encode_payload (Message.layer_remove id) = write_u32 id
encode_payload (Message.scene_commit version) = write_u64 version
encode_payload (Message.subframe ts_us x y w h stride format compression pixels) = do
  write_u64 ts_us
  write_u16 x
  write_u16 y
  write_u16 w
  write_u16 h
  write_u32 stride
  write_u32 format
  write_u8 compression
  write_payload_geom compression w h pixels
encode_payload (Message.tile_data hash w h stride format compression pixels) = do
  write_u64 hash
  write_u16 w
  write_u16 h
  write_u32 stride
  write_u32 format
  write_u8 compression
  write_payload_geom compression w h pixels
encode_payload (Message.tile_ref ts_us x y w h hash) = do
  write_u64 ts_us
  write_u16 x
  write_u16 y
  write_u16 w
  write_u16 h
  write_u64 hash
encode_payload (Message.asset_register hash kind bytes) = do
  write_bytes hash
  write_u8 kind
  write_blob bytes
encode_payload (Message.draw_commands ts_us layer_id commands) = do
  write_u64 ts_us
  write_u32 layer_id
  write_varint (length commands % 2 ^ 32)
  write_each write_draw_cmd commands
encode_payload (Message.audio_frame pts_us codec channels sample_rate bytes) = do
  write_u64 pts_us
  write_u8 codec
  write_u8 channels
  write_u32 sample_rate
  write_blob bytes
encode_payload (Message.video_chunk pts_us duration_us is_keyframe codec layer_id bytes) = do
  write_u64 pts_us
  write_u32 duration_us
  write_bool is_keyframe
  write_u8 codec
  write_u32 layer_id
  write_blob bytes
encode_payload (Message.create_tab tab_id url) = do write_u32 tab_id; write_str url
encode_payload (Message.close_tab tab_id) = write_u32 tab_id
encode_payload (Message.switch_tab tab_id) = write_u32 tab_id
encode_payload (Message.tab_created tab_id title url) = do
  write_u32 tab_id
  write_str title
  write_str url
encode_payload (Message.tab_closed tab_id) = write_u32 tab_id
encode_payload (Message.tab_activated tab_id) = write_u32 tab_id
encode_payload (Message.tab_title tab_id title) = do write_u32 tab_id; write_str title
encode_payload (Message.tab_url tab_id url) = do write_u32 tab_id; write_str url
encode_payload (Message.clear_data clear_cookies clear_cache clear_storage) = do
  write_bool clear_cookies
  write_bool clear_cache
  write_bool clear_storage
encode_payload (Message.auth_challenge nonce) = write_bytes nonce
encode_payload (Message.auth_response token_hash) = write_bytes token_hash
encode_payload (Message.auth_success node_id) = write_str node_id

-- `out[at..at + bytes.len()].copy_from_slice(bytes)`, or `none` where it panics.
unfoldable pub overwrite : ℕ → List ℕ → Writer
overwrite at bytes out =
    if leb (at + length bytes) (length out)
    then some (take at out ++ (bytes ++ drop (at + length bytes) out))
    else none

-- The loop that fills `len_buf` from `n` on, and the new `n`.
unfoldable pub len_loop : List ℕ → ℕ → (v : ℕ) → Acc ◌<◌ v → Option (List ℕ × ℕ)
len_loop len_buf n v (Acc.intro _ smaller) =
    let byte = bit_and v 0x7f % 256 in
    dite (dec_lt 0 (v / 128))
      (λ more. elim (overwrite n (bit_or byte 0x80 ∷ []) len_buf) [
        | none ↦ none
        | some len_buf' ↦ len_loop len_buf' (n + 1) (v / 128) (smaller _ (shift_shrinks v more))
      ])
      (λ _. elim (overwrite n (byte ∷ []) len_buf) [
        | none ↦ none
        | some len_buf' ↦ some (len_buf', n + 1)
      ])

-- The payload moves up by the length bytes beyond the first, which then take its place:
-- `resize`, `copy_within` and `copy_from_slice`.
unfoldable pub widen : ℕ → ℕ → List ℕ × ℕ → Writer
widen len_pos payload_len (len_buf, n) out =
    let payload = take payload_len (drop (len_pos + 1) out) in
    (overwrite (len_pos + n) payload >> overwrite len_pos (take n len_buf))
      (out ++ replicate (n - 1) 0)

-- The placeholder at `len_pos` becomes the length of what follows it.
unfoldable pub patch_len : ℕ → Writer
patch_len len_pos out =
    let payload_len = length out - (len_pos + 1) in
    if ltb payload_len 0x80
    then overwrite len_pos (payload_len ∷ []) out
    else let v = payload_len % 2 ^ 32 in
      elim (len_loop (replicate 5 0) 0 v (lt_wf.apply v)) [
        | none ↦ none
        | some buf ↦ widen len_pos payload_len buf out
      ]

-- `let len_pos = out.len();` for the writes that follow.
unfoldable pub with_len_pos : (ℕ → Writer) → Writer
with_len_pos k out = k (length out) out

unfoldable pub encode : Message → Writer
encode m = do
  write_varint (tag m)
  with_len_pos λ len_pos. write_u8 0 >> (encode_payload m >> patch_len len_pos)
