-- ===== src/Message/Decode/Tabs.antt =====
-- gutted-proto/src/lib.rs: the arms of `Message::decode_payload` for tabs, stored data and authentication.
use exo_browser_core.Wire.Reader.{read_hash, Reader, ◌>>=◌, ret, read_u32, read_bool, read_str}
use exo_browser_core.Message.Types.{Message}

unfoldable pub read_create_tab : Reader Message
read_create_tab = do tab_id ← read_u32; url ← read_str; ret (Message.create_tab tab_id url)

unfoldable pub read_close_tab : Reader Message
read_close_tab = do tab_id ← read_u32; ret (Message.close_tab tab_id)

unfoldable pub read_switch_tab : Reader Message
read_switch_tab = do tab_id ← read_u32; ret (Message.switch_tab tab_id)

unfoldable pub read_tab_created : Reader Message
read_tab_created = do
  tab_id ← read_u32
  title ← read_str
  url ← read_str
  ret (Message.tab_created tab_id title url)

unfoldable pub read_tab_closed : Reader Message
read_tab_closed = do tab_id ← read_u32; ret (Message.tab_closed tab_id)

unfoldable pub read_tab_activated : Reader Message
read_tab_activated = do tab_id ← read_u32; ret (Message.tab_activated tab_id)

unfoldable pub read_tab_title : Reader Message
read_tab_title = do tab_id ← read_u32; title ← read_str; ret (Message.tab_title tab_id title)

unfoldable pub read_tab_url : Reader Message
read_tab_url = do tab_id ← read_u32; url ← read_str; ret (Message.tab_url tab_id url)

unfoldable pub read_clear_data : Reader Message
read_clear_data = do
  clear_cookies ← read_bool
  clear_cache ← read_bool
  clear_storage ← read_bool
  ret (Message.clear_data clear_cookies clear_cache clear_storage)

unfoldable pub read_auth_challenge : Reader Message
read_auth_challenge = do nonce ← read_hash; ret (Message.auth_challenge nonce)

unfoldable pub read_auth_response : Reader Message
read_auth_response = do token_hash ← read_hash; ret (Message.auth_response token_hash)

unfoldable pub read_auth_success : Reader Message
read_auth_success = do node_id ← read_str; ret (Message.auth_success node_id)
