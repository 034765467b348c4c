-- ===== src/Message/Types.antt =====
-- gutted-proto/src/lib.rs: `enum Message` and the types of its fields. Text is the list of its
-- UTF-8 bytes, `[u8; 32]` and `[i32; 6]` are lists of that length, and a word is a number.
use exo_browser_core.Common.{ℕ, Bool, List, ℤ}

pub data ScrollPhase : Type 0 where
  begin update end momentum : ScrollPhase

pub data LayerKind : Type 0 where
  solid video tile vector : LayerKind

pub data ContentRef : Type 0 where
  none : ContentRef
  solid : ℕ → ContentRef
  track_id : ℕ → ContentRef
  asset_hash : List ℕ → ContentRef

abbrev pub Transform : Type 0
Transform = List ℤ

pub data CursorShape : Type 0 where
  default pointer text progress wait crosshair move not_allowed grab grabbing : CursorShape
  resize_ew resize_ns resize_nesw resize_nwse custom : CursorShape

pub data DrawCommand : Type 0 where
  fill_rect : (x y : ℤ) (w h rgba : ℕ) → DrawCommand
  stroke_rect : (x y : ℤ) (w h rgba line_width : ℕ) → DrawCommand
  draw_text : (x y : ℤ) (font_size rgba : ℕ) (text : List ℕ) → DrawCommand
  draw_image : (x y : ℤ) (w h : ℕ) (asset_hash : List ℕ) → DrawCommand
  set_clip : (x y : ℤ) (w h : ℕ) → DrawCommand
  clear_clip : DrawCommand

pub data Message : Type 0 where
  hello :
      (proto_version viewport_w viewport_h dpr_hundredths : ℕ) (client_name : List ℕ)
      (capabilities : ℕ)
      → Message
  welcome : (proto_version session_id features cursor_track_id : ℕ) (current_url : List ℕ) → Message
  resize : (viewport_w viewport_h dpr_hundredths : ℕ) → Message
  nav : (url : List ℕ) → Message
  nav_action : (action : ℕ) → Message
  stop : Message
  heartbeat : (ts_us : ℕ) → Message
  input_pointer : (ts_us : ℕ) (x y : ℤ) (modifiers : ℕ) → Message
  input_button : (ts_us : ℕ) (x y : ℤ) (button : ℕ) (pressed : Bool) (modifiers : ℕ) → Message
  input_key : (ts_us keycode mods : ℕ) (down : Bool) → Message
  input_scroll : (ts_us layer_id : ℕ) (dx_units dy_units : ℤ) (phase : ScrollPhase) → Message
  set_zoom : (level_milli : ℕ) → Message
  cursor_state : (shape : CursorShape) (hotspot_x hotspot_y image_ref : ℕ) → Message
  load_state : (state : ℕ) → Message
  title : (title : List ℕ) → Message
  url_changed : (url : List ℕ) → Message
  layer_add :
      (id parent : ℕ) (kind : LayerKind) (size : ℕ × ℕ) (transform : Transform) (opacity : ℕ)
      (content : ContentRef)
      → Message
  layer_update :
      (id mask : ℕ) (transform : Transform) (opacity : ℕ) (size : ℕ × ℕ) (content : ContentRef)
      (damage : ℕ × ℕ × ℕ × ℕ)
      → Message
  layer_remove : (id : ℕ) → Message
  scene_commit : (version : ℕ) → Message
  subframe : (ts_us x y w h stride format compression : ℕ) (pixels : List ℕ) → Message
  raw_frame : (ts_us width height stride format compression : ℕ) (pixels : List ℕ) → Message
  tile_data : (hash w h stride format compression : ℕ) (pixels : List ℕ) → Message
  tile_ref : (ts_us x y w h hash : ℕ) → Message
  asset_register : (hash : List ℕ) (kind : ℕ) (bytes : List ℕ) → Message
  draw_commands : (ts_us layer_id : ℕ) (commands : List DrawCommand) → Message
  audio_frame : (pts_us codec channels sample_rate : ℕ) (bytes : List ℕ) → Message
  video_chunk :
      (pts_us duration_us : ℕ) (is_keyframe : Bool) (codec layer_id : ℕ) (bytes : List ℕ) → Message
  create_tab : (tab_id : ℕ) (url : List ℕ) → Message
  close_tab : (tab_id : ℕ) → Message
  switch_tab : (tab_id : ℕ) → Message
  tab_created : (tab_id : ℕ) (title url : List ℕ) → Message
  tab_closed : (tab_id : ℕ) → Message
  tab_activated : (tab_id : ℕ) → Message
  tab_title : (tab_id : ℕ) (title : List ℕ) → Message
  tab_url : (tab_id : ℕ) (url : List ℕ) → Message
  clear_data : (clear_cookies clear_cache clear_storage : Bool) → Message
  auth_challenge : (nonce : List ℕ) → Message
  auth_response : (token_hash : List ℕ) → Message
  auth_success : (node_id : List ℕ) → Message
