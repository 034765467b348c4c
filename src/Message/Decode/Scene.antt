-- ===== src/Message/Decode/Scene.antt =====
-- gutted-proto/src/lib.rs: the arms of `Message::decode_payload` for the layer tree.
use exo_browser_core.Common.{ℕ, Bool, if◌then◌else◌, [], ◌∷◌, pos}
use exo_browser_core.Wire.Reader.{
  Reader, ◌>>=◌, ret, read_u8, read_u16, read_u32, read_u64, read_i32, read_times,
}
use exo_browser_core.Message.Types.{Message, ContentRef, Transform}
use exo_browser_core.Message.Parts.{kind_from_u8, read_content_ref}
use exo_browser_core.Message.Encode.{
  has, layer_mask_transform, layer_mask_opacity, layer_mask_size, layer_mask_content_ref,
  layer_mask_damage,
}

unfoldable pub read_layer_add : Reader Message
read_layer_add = do
  id ← read_u32
  parent ← read_u32
  kind_byte ← read_u8
  kind ← kind_from_u8 kind_byte
  width ← read_u16
  height ← read_u16
  transform ← read_times 6 read_i32
  opacity ← read_u8
  content ← read_content_ref
  ret (Message.layer_add id parent kind (width, height) transform opacity content)

abbrev pub transform_identity : Transform
transform_identity = pos 256 ∷ pos 0 ∷ pos 0 ∷ pos 256 ∷ pos 0 ∷ pos 0 ∷ []

-- `if b { read } else { default }`.
unfoldable pub read_if : {A : Type 0} → Bool → Reader A → A → Reader A
read_if b read default = if b then read else ret default

unfoldable pub read_size : Reader (ℕ × ℕ)
read_size = do w ← read_u16; h ← read_u16; ret (w, h)

unfoldable pub read_damage : Reader (ℕ × ℕ × ℕ × ℕ)
read_damage = do x ← read_u16; y ← read_u16; w ← read_u16; h ← read_u16; ret (x, y, w, h)

unfoldable pub read_layer_update : Reader Message
read_layer_update = do
  id ← read_u32
  mask ← read_u32
  transform ← read_if (has mask layer_mask_transform) (read_times 6 read_i32) transform_identity
  opacity ← read_if (has mask layer_mask_opacity) read_u8 255
  size ← read_if (has mask layer_mask_size) read_size (0, 0)
  content ← read_if (has mask layer_mask_content_ref) read_content_ref ContentRef.none
  damage ← read_if (has mask layer_mask_damage) read_damage (0, 0, 0, 0)
  ret (Message.layer_update id mask transform opacity size content damage)

unfoldable pub read_layer_remove : Reader Message
read_layer_remove = do id ← read_u32; ret (Message.layer_remove id)

unfoldable pub read_scene_commit : Reader Message
read_scene_commit = do version ← read_u64; ret (Message.scene_commit version)
