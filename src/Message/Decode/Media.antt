-- ===== src/Message/Decode/Media.antt =====
-- gutted-proto/src/lib.rs: the arms of `Message::decode_payload` for frames, tiles, assets, audio and video.
use exo_browser_core.Wire.Reader.{
  read_blob, read_hash, Reader, ◌>>=◌, ret, read_varint, read_u8, read_u16, read_u32, read_u64,
  read_bool, read_times,
}
use exo_browser_core.Pixel.Payload.{read_payload_geom, saturating_mul}
use exo_browser_core.Message.Types.{Message}
use exo_browser_core.Message.Parts.{read_draw_cmd}

unfoldable pub read_raw_frame : Reader Message
read_raw_frame = do
  ts_us ← read_u64
  width ← read_u16
  height ← read_u16
  stride ← read_u32
  format ← read_u32
  compression ← read_u8
  pixels ← read_payload_geom compression width height (saturating_mul stride height)
  ret (Message.raw_frame ts_us width height stride format compression pixels)

unfoldable pub read_subframe : Reader Message
read_subframe = do
  ts_us ← read_u64
  x ← read_u16
  y ← read_u16
  w ← read_u16
  h ← read_u16
  stride ← read_u32
  format ← read_u32
  compression ← read_u8
  pixels ← read_payload_geom compression w h (saturating_mul stride h)
  ret (Message.subframe ts_us x y w h stride format compression pixels)

unfoldable pub read_tile_data : Reader Message
read_tile_data = do
  hash ← read_u64
  w ← read_u16
  h ← read_u16
  stride ← read_u32
  format ← read_u32
  compression ← read_u8
  pixels ← read_payload_geom compression w h (saturating_mul stride h)
  ret (Message.tile_data hash w h stride format compression pixels)

unfoldable pub read_tile_ref : Reader Message
read_tile_ref = do
  ts_us ← read_u64
  x ← read_u16
  y ← read_u16
  w ← read_u16
  h ← read_u16
  hash ← read_u64
  ret (Message.tile_ref ts_us x y w h hash)

unfoldable pub read_asset_register : Reader Message
read_asset_register = do
  hash ← read_hash
  kind ← read_u8
  bytes ← read_blob
  ret (Message.asset_register hash kind bytes)

unfoldable pub read_draw_commands : Reader Message
read_draw_commands = do
  ts_us ← read_u64
  layer_id ← read_u32
  count ← read_varint
  commands ← read_times count read_draw_cmd
  ret (Message.draw_commands ts_us layer_id commands)

unfoldable pub read_audio_frame : Reader Message
read_audio_frame = do
  pts_us ← read_u64
  codec ← read_u8
  channels ← read_u8
  sample_rate ← read_u32
  bytes ← read_blob
  ret (Message.audio_frame pts_us codec channels sample_rate bytes)

unfoldable pub read_video_chunk : Reader Message
read_video_chunk = do
  pts_us ← read_u64
  duration_us ← read_u32
  is_keyframe ← read_bool
  codec ← read_u8
  layer_id ← read_u32
  bytes ← read_blob
  ret (Message.video_chunk pts_us duration_us is_keyframe codec layer_id bytes)
