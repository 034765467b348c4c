-- ===== src/Message/Tag.antt =====
-- gutted-proto/src/lib.rs: `mod tag`, and `Message::tag`.
use exo_browser_core.Common.{ℕ}
use exo_browser_core.Message.Types.{Message}

abbrev pub tag_hello : ℕ
tag_hello = 0x01

abbrev pub tag_welcome : ℕ
tag_welcome = 0x02

abbrev pub tag_resize : ℕ
tag_resize = 0x03

abbrev pub tag_nav : ℕ
tag_nav = 0x04

abbrev pub tag_nav_action : ℕ
tag_nav_action = 0x06

abbrev pub tag_stop : ℕ
tag_stop = 0x07

abbrev pub tag_heartbeat : ℕ
tag_heartbeat = 0x05

abbrev pub tag_input_pointer : ℕ
tag_input_pointer = 0x10

abbrev pub tag_input_key : ℕ
tag_input_key = 0x11

abbrev pub tag_input_scroll : ℕ
tag_input_scroll = 0x12

abbrev pub tag_input_button : ℕ
tag_input_button = 0x13

abbrev pub tag_set_zoom : ℕ
tag_set_zoom = 0x14

abbrev pub tag_cursor_state : ℕ
tag_cursor_state = 0x30

abbrev pub tag_load_state : ℕ
tag_load_state = 0x31

abbrev pub tag_title : ℕ
tag_title = 0x32

abbrev pub tag_url_changed : ℕ
tag_url_changed = 0x33

abbrev pub tag_raw_frame : ℕ
tag_raw_frame = 0x40

abbrev pub tag_subframe : ℕ
tag_subframe = 0x41

abbrev pub tag_tile_data : ℕ
tag_tile_data = 0x42

abbrev pub tag_tile_ref : ℕ
tag_tile_ref = 0x43

abbrev pub tag_audio_frame : ℕ
tag_audio_frame = 0x48

abbrev pub tag_video_chunk : ℕ
tag_video_chunk = 0x49

abbrev pub tag_asset_register : ℕ
tag_asset_register = 0x50

abbrev pub tag_draw_commands : ℕ
tag_draw_commands = 0x51

abbrev pub tag_layer_add : ℕ
tag_layer_add = 0x60

abbrev pub tag_layer_update : ℕ
tag_layer_update = 0x61

abbrev pub tag_layer_remove : ℕ
tag_layer_remove = 0x62

abbrev pub tag_scene_commit : ℕ
tag_scene_commit = 0x63

abbrev pub tag_create_tab : ℕ
tag_create_tab = 0x70

abbrev pub tag_close_tab : ℕ
tag_close_tab = 0x71

abbrev pub tag_switch_tab : ℕ
tag_switch_tab = 0x72

abbrev pub tag_tab_created : ℕ
tag_tab_created = 0x73

abbrev pub tag_tab_closed : ℕ
tag_tab_closed = 0x74

abbrev pub tag_tab_activated : ℕ
tag_tab_activated = 0x75

abbrev pub tag_tab_title : ℕ
tag_tab_title = 0x76

abbrev pub tag_tab_url : ℕ
tag_tab_url = 0x77

abbrev pub tag_clear_data : ℕ
tag_clear_data = 0x80

abbrev pub tag_auth_challenge : ℕ
tag_auth_challenge = 0x90

abbrev pub tag_auth_response : ℕ
tag_auth_response = 0x91

abbrev pub tag_auth_success : ℕ
tag_auth_success = 0x92

unfoldable pub tag : Message → ℕ
tag (Message.hello _ _ _ _ _ _) = tag_hello
tag (Message.welcome _ _ _ _ _) = tag_welcome
tag (Message.resize _ _ _) = tag_resize
tag (Message.nav _) = tag_nav
tag (Message.nav_action _) = tag_nav_action
tag Message.stop = tag_stop
tag (Message.heartbeat _) = tag_heartbeat
tag (Message.input_pointer _ _ _ _) = tag_input_pointer
tag (Message.input_button _ _ _ _ _ _) = tag_input_button
tag (Message.input_key _ _ _ _) = tag_input_key
tag (Message.input_scroll _ _ _ _ _) = tag_input_scroll
tag (Message.set_zoom _) = tag_set_zoom
tag (Message.cursor_state _ _ _ _) = tag_cursor_state
tag (Message.load_state _) = tag_load_state
tag (Message.title _) = tag_title
tag (Message.url_changed _) = tag_url_changed
tag (Message.raw_frame _ _ _ _ _ _ _) = tag_raw_frame
tag (Message.subframe _ _ _ _ _ _ _ _ _) = tag_subframe
tag (Message.tile_data _ _ _ _ _ _ _) = tag_tile_data
tag (Message.tile_ref _ _ _ _ _ _) = tag_tile_ref
tag (Message.asset_register _ _ _) = tag_asset_register
tag (Message.draw_commands _ _ _) = tag_draw_commands
tag (Message.audio_frame _ _ _ _ _) = tag_audio_frame
tag (Message.video_chunk _ _ _ _ _ _) = tag_video_chunk
tag (Message.layer_add _ _ _ _ _ _ _) = tag_layer_add
tag (Message.layer_update _ _ _ _ _ _ _) = tag_layer_update
tag (Message.layer_remove _) = tag_layer_remove
tag (Message.scene_commit _) = tag_scene_commit
tag (Message.create_tab _ _) = tag_create_tab
tag (Message.close_tab _) = tag_close_tab
tag (Message.switch_tab _) = tag_switch_tab
tag (Message.tab_created _ _ _) = tag_tab_created
tag (Message.tab_closed _) = tag_tab_closed
tag (Message.tab_activated _) = tag_tab_activated
tag (Message.tab_title _ _) = tag_tab_title
tag (Message.tab_url _ _) = tag_tab_url
tag (Message.clear_data _ _ _) = tag_clear_data
tag (Message.auth_challenge _) = tag_auth_challenge
tag (Message.auth_response _) = tag_auth_response
tag (Message.auth_success _) = tag_auth_success
