-- ===== src/Message/Decode/Session.antt =====
-- gutted-proto/src/lib.rs: the arms of `Message::decode_payload` for the session, navigation and the page state.
use exo_browser_core.Wire.Reader.{
  Reader, ◌>>=◌, ret, read_u8, read_u16, read_u32, read_u64, read_str,
}
use exo_browser_core.Message.Types.{Message}

unfoldable pub read_hello : Reader Message
read_hello = do
  proto_version ← read_u32
  viewport_w ← read_u16
  viewport_h ← read_u16
  dpr_hundredths ← read_u16
  capabilities ← read_u32
  client_name ← read_str
  ret (Message.hello proto_version viewport_w viewport_h dpr_hundredths client_name capabilities)

unfoldable pub read_welcome : Reader Message
read_welcome = do
  proto_version ← read_u32
  session_id ← read_u64
  features ← read_u32
  cursor_track_id ← read_u32
  current_url ← read_str
  ret (Message.welcome proto_version session_id features cursor_track_id current_url)

unfoldable pub read_resize : Reader Message
read_resize = do
  viewport_w ← read_u16
  viewport_h ← read_u16
  dpr_hundredths ← read_u16
  ret (Message.resize viewport_w viewport_h dpr_hundredths)

unfoldable pub read_nav : Reader Message
read_nav = do url ← read_str; ret (Message.nav url)

unfoldable pub read_nav_action : Reader Message
read_nav_action = do action ← read_u8; ret (Message.nav_action action)

unfoldable pub read_stop : Reader Message
read_stop = ret Message.stop

unfoldable pub read_heartbeat : Reader Message
read_heartbeat = do ts_us ← read_u64; ret (Message.heartbeat ts_us)

unfoldable pub read_load_state : Reader Message
read_load_state = do state ← read_u8; ret (Message.load_state state)

unfoldable pub read_title : Reader Message
read_title = do title ← read_str; ret (Message.title title)

unfoldable pub read_url_changed : Reader Message
read_url_changed = do url ← read_str; ret (Message.url_changed url)
