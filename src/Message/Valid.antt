-- ===== src/Message/Valid.antt =====
-- gutted-proto/src/lib.rs: the values that the types of `Message` allow, and what the wire form
-- asks of them beyond that.
use exo_browser_core.Common.{ℕ, ◌^◌, ◌<◌, ◌≡◌, List, length, All, if◌then◌else◌}
use exo_browser_core.Wire.Varint.{IsByte}
use exo_browser_core.Wire.RoundTrip.{IsI32, IsStr}
use exo_browser_core.Pixel.Payload.{saturating_mul}
use exo_browser_core.Pixel.Lossless.{IsLossless}
use exo_browser_core.Message.Types.{
  Message, ContentRef, DrawCommand, Transform, fill_rect, stroke_rect, draw_text, draw_image,
  set_clip, clear_clip,
}
use exo_browser_core.Message.Encode.{
  has, layer_mask_transform, layer_mask_opacity, layer_mask_size, layer_mask_content_ref,
  layer_mask_damage,
}
use exo_browser_core.Message.Decode.Scene.{transform_identity}

abbrev pub IsU8 : ℕ → Type 0
IsU8 v = v < 2 ^ 8

abbrev pub IsU16 : ℕ → Type 0
IsU16 v = v < 2 ^ 16

abbrev pub IsU32 : ℕ → Type 0
IsU32 v = v < 2 ^ 32

abbrev pub IsU64 : ℕ → Type 0
IsU64 v = v < 2 ^ 64

-- `[u8; 32]`.
pub record IsHash (h : List ℕ) : Type 0 where
  pub bytes : All IsByte h
  pub width : length h ≡ 32

-- A `Vec<u8>` that fits a length prefix.
pub record IsBlob (b : List ℕ) : Type 0 where
  pub bytes : All IsByte b
  pub short : length b < 2 ^ 32

pub record IsTransform (t : Transform) : Type 0 where
  pub entries : All IsI32 t
  pub width : length t ≡ 6

abbrev pub IsContentRef : ContentRef → Type 0
IsContentRef ContentRef.none = Unit {0}
IsContentRef (ContentRef.solid rgba) = IsU32 rgba
IsContentRef (ContentRef.track_id t) = IsU64 t
IsContentRef (ContentRef.asset_hash h) = IsHash h

abbrev pub IsCommand : DrawCommand → Type 0
IsCommand (fill_rect x y w h rgba) = IsI32 x × IsI32 y × IsU32 w × IsU32 h × IsU32 rgba
IsCommand (stroke_rect x y w h rgba line_width) =
    IsI32 x × IsI32 y × IsU32 w × IsU32 h × IsU32 rgba × IsU16 line_width
IsCommand (draw_text x y font_size rgba s) =
    IsI32 x × IsI32 y × IsU16 font_size × IsU32 rgba × IsStr s
IsCommand (draw_image x y w h asset_hash) =
    IsI32 x × IsI32 y × IsU32 w × IsU32 h × IsHash asset_hash
IsCommand (set_clip x y w h) = IsI32 x × IsI32 y × IsU32 w × IsU32 h
IsCommand clear_clip = Unit {0}

pub record IsCommands (cs : List DrawCommand) : Type 0 where
  pub each : All IsCommand cs
  pub short : length cs < 2 ^ 32

abbrev pub IsSize : ℕ × ℕ → Type 0
IsSize (w, h) = IsU16 w × IsU16 h

abbrev pub IsDamage : ℕ × ℕ × ℕ × ℕ → Type 0
IsDamage (x, y, w, h) = IsU16 x × IsU16 y × IsU16 w × IsU16 h

-- A field that is on the wire is in range, and one that is not has its default.
abbrev pub Masked : ℕ → ℕ → Type 0 → Type 0 → Type 0
Masked mask bit present absent = if has mask bit then present else absent

-- What a `Message` may hold.
abbrev pub IsValid : Message → Type 0
IsValid
      (Message.hello proto_version viewport_w viewport_h dpr_hundredths client_name capabilities) =
    IsU32 proto_version
    × IsU16 viewport_w
    × IsU16 viewport_h
    × IsU16 dpr_hundredths
    × IsU32 capabilities
    × IsStr client_name
IsValid (Message.welcome proto_version session_id features cursor_track_id current_url) =
    IsU32 proto_version
    × IsU64 session_id
    × IsU32 features
    × IsU32 cursor_track_id
    × IsStr current_url
IsValid (Message.resize viewport_w viewport_h dpr_hundredths) =
    IsU16 viewport_w × IsU16 viewport_h × IsU16 dpr_hundredths
IsValid (Message.nav url) = IsStr url
IsValid (Message.nav_action action) = IsU8 action
IsValid Message.stop = Unit {0}
IsValid (Message.heartbeat ts_us) = IsU64 ts_us
IsValid (Message.input_pointer ts_us x y modifiers) =
    IsU64 ts_us × IsI32 x × IsI32 y × IsU32 modifiers
IsValid (Message.input_button ts_us x y button pressed modifiers) =
    IsU64 ts_us × IsI32 x × IsI32 y × IsU32 button × IsU32 modifiers
IsValid (Message.input_key ts_us keycode mods down) = IsU64 ts_us × IsU32 keycode × IsU32 mods
IsValid (Message.input_scroll ts_us layer_id dx_units dy_units phase) =
    IsU64 ts_us × IsU32 layer_id × IsI32 dx_units × IsI32 dy_units
IsValid (Message.set_zoom level_milli) = IsU32 level_milli
IsValid (Message.cursor_state shape hotspot_x hotspot_y image_ref) =
    IsU16 hotspot_x × IsU16 hotspot_y × IsU64 image_ref
IsValid (Message.load_state state) = IsU8 state
IsValid (Message.title title) = IsStr title
IsValid (Message.url_changed url) = IsStr url
IsValid (Message.raw_frame ts_us width height stride format compression pixels) =
    IsU64 ts_us
    × IsU16 width
    × IsU16 height
    × IsU32 stride
    × IsU32 format
    × IsU8 compression
    × IsLossless compression width height (saturating_mul stride height) pixels
IsValid (Message.layer_add id parent kind (width, height) transform opacity content) =
    IsU32 id
    × IsU32 parent
    × IsU16 width
    × IsU16 height
    × IsTransform transform
    × IsU8 opacity
    × IsContentRef content
IsValid (Message.layer_update id mask transform opacity size content damage) =
    IsU32 id
    × IsU32 mask
    × Masked mask layer_mask_transform (IsTransform transform) (transform ≡ transform_identity)
    × Masked mask layer_mask_opacity (IsU8 opacity) (opacity ≡ 255)
    × Masked mask layer_mask_size (IsSize size) (size ≡ (0, 0))
    × Masked mask layer_mask_content_ref (IsContentRef content) (content ≡ ContentRef.none)
    × Masked mask layer_mask_damage (IsDamage damage) (damage ≡ (0, 0, 0, 0))
IsValid (Message.layer_remove id) = IsU32 id
IsValid (Message.scene_commit version) = IsU64 version
IsValid (Message.subframe ts_us x y w h stride format compression pixels) =
    IsU64 ts_us
    × IsU16 x
    × IsU16 y
    × IsU16 w
    × IsU16 h
    × IsU32 stride
    × IsU32 format
    × IsU8 compression
    × IsLossless compression w h (saturating_mul stride h) pixels
IsValid (Message.tile_data hash w h stride format compression pixels) =
    IsU64 hash
    × IsU16 w
    × IsU16 h
    × IsU32 stride
    × IsU32 format
    × IsU8 compression
    × IsLossless compression w h (saturating_mul stride h) pixels
IsValid (Message.tile_ref ts_us x y w h hash) =
    IsU64 ts_us × IsU16 x × IsU16 y × IsU16 w × IsU16 h × IsU64 hash
IsValid (Message.asset_register hash kind bytes) = IsHash hash × IsU8 kind × IsBlob bytes
IsValid (Message.draw_commands ts_us layer_id commands) =
    IsU64 ts_us × IsU32 layer_id × IsCommands commands
IsValid (Message.audio_frame pts_us codec channels sample_rate bytes) =
    IsU64 pts_us × IsU8 codec × IsU8 channels × IsU32 sample_rate × IsBlob bytes
IsValid (Message.video_chunk pts_us duration_us is_keyframe codec layer_id bytes) =
    IsU64 pts_us × IsU32 duration_us × IsU8 codec × IsU32 layer_id × IsBlob bytes
IsValid (Message.create_tab tab_id url) = IsU32 tab_id × IsStr url
IsValid (Message.close_tab tab_id) = IsU32 tab_id
IsValid (Message.switch_tab tab_id) = IsU32 tab_id
IsValid (Message.tab_created tab_id title url) = IsU32 tab_id × IsStr title × IsStr url
IsValid (Message.tab_closed tab_id) = IsU32 tab_id
IsValid (Message.tab_activated tab_id) = IsU32 tab_id
IsValid (Message.tab_title tab_id title) = IsU32 tab_id × IsStr title
IsValid (Message.tab_url tab_id url) = IsU32 tab_id × IsStr url
IsValid (Message.clear_data clear_cookies clear_cache clear_storage) = Unit {0}
IsValid (Message.auth_challenge nonce) = IsHash nonce
IsValid (Message.auth_response token_hash) = IsHash token_hash
IsValid (Message.auth_success node_id) = IsStr node_id
