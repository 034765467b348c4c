-- ===== src/Client/Events.antt =====
-- gutted-client/src/render.rs: `RenderEvent`, `InputEvent` and their conversions.
use exo_browser_core.Common.{ℕ, Bool, Option, none, some, List, [], ◌∷◌, ℤ}
use exo_browser_core.Message.Types.{Message, CursorShape, update}

pub record GfxFrame : Type 0 where
  pub width : ℕ
  pub height : ℕ
  pub stride : ℕ
  pub pixels : List ℕ

pub record GfxSubframe : Type 0 where
  pub x : ℕ
  pub y : ℕ
  pub w : ℕ
  pub h : ℕ
  pub stride : ℕ
  pub pixels : List ℕ

pub data RenderEvent : Type 0 where
  frame : GfxFrame → RenderEvent
  subframe : GfxSubframe → RenderEvent
  tile_data : (hash : ℕ) (pixels : List ℕ) → RenderEvent
  tile_ref : (x y w h hash : ℕ) → RenderEvent
  audio : (pts_us channels sample_rate : ℕ) (bytes : List ℕ) → RenderEvent
  cursor_shape : CursorShape → RenderEvent
  load_state : ℕ → RenderEvent
  initial_url : List ℕ → RenderEvent
  title : List ℕ → RenderEvent
  url_changed : List ℕ → RenderEvent
  tab_created : (tab_id : ℕ) (title url : List ℕ) → RenderEvent
  tab_closed : (tab_id : ℕ) → RenderEvent
  tab_activated : (tab_id : ℕ) → RenderEvent
  tab_title : (tab_id : ℕ) (title : List ℕ) → RenderEvent
  tab_url : (tab_id : ℕ) (url : List ℕ) → RenderEvent
  quit : RenderEvent

-- `if current_url.is_empty() { None } else { Some(Self::InitialUrl(current_url)) }`.
unfoldable pub welcome_event : List ℕ → Option RenderEvent
welcome_event [] = none
welcome_event (c ∷ cs) = some (RenderEvent.initial_url (c ∷ cs))

unfoldable pub from_proto_message : Message → Option RenderEvent
from_proto_message (Message.welcome _ _ _ _ current_url) = welcome_event current_url
from_proto_message (Message.raw_frame _ width height stride _ _ pixels) = some (
    RenderEvent.frame (record { width = width; height = height; stride = stride; pixels = pixels }))
from_proto_message (Message.subframe _ x y w h stride _ _ pixels) =
    some (
      RenderEvent.subframe
        (record { x = x; y = y; w = w; h = h; stride = stride; pixels = pixels }))
from_proto_message (Message.tile_data hash _ _ _ _ _ pixels) =
    some (RenderEvent.tile_data hash pixels)
from_proto_message (Message.tile_ref _ x y w h hash) = some (RenderEvent.tile_ref x y w h hash)
from_proto_message (Message.audio_frame pts_us _ channels sample_rate bytes) =
    some (RenderEvent.audio pts_us channels sample_rate bytes)
from_proto_message (Message.cursor_state shape _ _ _) = some (RenderEvent.cursor_shape shape)
from_proto_message (Message.load_state state) = some (RenderEvent.load_state state)
from_proto_message (Message.title t) = some (RenderEvent.title t)
from_proto_message (Message.url_changed url) = some (RenderEvent.url_changed url)
from_proto_message (Message.tab_created tab_id t url) = some (RenderEvent.tab_created tab_id t url)
from_proto_message (Message.tab_closed tab_id) = some (RenderEvent.tab_closed tab_id)
from_proto_message (Message.tab_activated tab_id) = some (RenderEvent.tab_activated tab_id)
from_proto_message (Message.tab_title tab_id t) = some (RenderEvent.tab_title tab_id t)
from_proto_message (Message.tab_url tab_id url) = some (RenderEvent.tab_url tab_id url)
from_proto_message _ = none

pub data InputEvent : Type 0 where
  motion : (x y : ℤ) (mods : ℕ) → InputEvent
  button : (x y : ℤ) (button : ℕ) (pressed : Bool) (mods : ℕ) → InputEvent
  key : (keysym mods : ℕ) (pressed : Bool) → InputEvent
  scroll : (dx dy : ℤ) → InputEvent
  navigate : List ℕ → InputEvent
  resize : (w h : ℕ) → InputEvent
  set_zoom : (level_milli : ℕ) → InputEvent
  nav_action : (action : ℕ) → InputEvent
  stop : InputEvent
  create_tab : (tab_id : ℕ) (url : List ℕ) → InputEvent
  close_tab : (tab_id : ℕ) → InputEvent
  switch_tab : (tab_id : ℕ) → InputEvent
  clear_data : (clear_cookies clear_cache clear_storage : Bool) → InputEvent

unfoldable pub into_proto_message : InputEvent → ℕ → Message
into_proto_message (InputEvent.navigate url) ts_us = Message.nav url
into_proto_message (InputEvent.resize w h) ts_us = Message.resize w h 100
into_proto_message (InputEvent.set_zoom level_milli) ts_us = Message.set_zoom level_milli
into_proto_message (InputEvent.nav_action action) ts_us = Message.nav_action action
into_proto_message InputEvent.stop ts_us = Message.stop
into_proto_message (InputEvent.create_tab tab_id url) ts_us = Message.create_tab tab_id url
into_proto_message (InputEvent.close_tab tab_id) ts_us = Message.close_tab tab_id
into_proto_message (InputEvent.switch_tab tab_id) ts_us = Message.switch_tab tab_id
into_proto_message (InputEvent.clear_data cookies cache storage) ts_us =
    Message.clear_data cookies cache storage
into_proto_message (InputEvent.motion x y mods) ts_us = Message.input_pointer ts_us x y mods
into_proto_message (InputEvent.button x y b pressed mods) ts_us =
    Message.input_button ts_us x y b pressed mods
into_proto_message (InputEvent.key keysym mods pressed) ts_us =
    Message.input_key ts_us keysym mods pressed
into_proto_message (InputEvent.scroll dx dy) ts_us = Message.input_scroll ts_us 0 dx dy update
