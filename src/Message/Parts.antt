-- ===== src/Message/Parts.antt =====
-- gutted-proto/src/lib.rs: `from_u8` of the enums with their discriminants, and the codecs of
-- `ContentRef` and `DrawCommand`.
use exo_browser_core.Common.{ℕ, ◌==◌, if◌then◌else◌}
use exo_browser_core.Wire.Result.{invalid_value}
use exo_browser_core.Wire.Writer.{
  Writer, ◌>>◌, write_bytes, write_u8, write_u16, write_u32, write_u64, write_i32, write_str,
}
use exo_browser_core.Wire.Reader.{
  read_hash, Reader, ◌>>=◌, ret, fail, read_u8, read_u16, read_u32, read_u64, read_i32, read_str,
}
use exo_browser_core.Message.Types.{
  ScrollPhase, LayerKind, ContentRef, CursorShape, DrawCommand, begin, update, end, momentum,
  default, pointer, text, progress, wait, crosshair, move, not_allowed, grab, grabbing, resize_ew,
  resize_ns, resize_nesw, resize_nwse, custom, fill_rect, stroke_rect, draw_text, draw_image,
  set_clip, clear_clip,
}

-- `*phase as u8`.
unfoldable pub phase_to_u8 : ScrollPhase → ℕ
phase_to_u8 begin = 1
phase_to_u8 update = 2
phase_to_u8 end = 3
phase_to_u8 momentum = 4

unfoldable pub phase_from_u8 : ℕ → Reader ScrollPhase
phase_from_u8 v =
    if v == 1
    then ret begin
    else if v == 2
    then ret update
    else if v == 3
    then ret end
    else if v == 4
    then ret momentum
    else fail invalid_value

unfoldable pub kind_to_u8 : LayerKind → ℕ
kind_to_u8 LayerKind.solid = 0
kind_to_u8 LayerKind.video = 1
kind_to_u8 LayerKind.tile = 2
kind_to_u8 LayerKind.vector = 3

unfoldable pub kind_from_u8 : ℕ → Reader LayerKind
kind_from_u8 v =
    if v == 0
    then ret LayerKind.solid
    else if v == 1
    then ret LayerKind.video
    else if v == 2
    then ret LayerKind.tile
    else if v == 3
    then ret LayerKind.vector
    else fail invalid_value

unfoldable pub shape_to_u8 : CursorShape → ℕ
shape_to_u8 default = 0
shape_to_u8 pointer = 1
shape_to_u8 text = 2
shape_to_u8 progress = 3
shape_to_u8 wait = 4
shape_to_u8 crosshair = 5
shape_to_u8 move = 6
shape_to_u8 not_allowed = 7
shape_to_u8 grab = 8
shape_to_u8 grabbing = 9
shape_to_u8 resize_ew = 10
shape_to_u8 resize_ns = 11
shape_to_u8 resize_nesw = 12
shape_to_u8 resize_nwse = 13
shape_to_u8 custom = 255

unfoldable pub shape_from_u8 : ℕ → Reader CursorShape
shape_from_u8 v =
    if v == 0
    then ret default
    else if v == 1
    then ret pointer
    else if v == 2
    then ret text
    else if v == 3
    then ret progress
    else if v == 4
    then ret wait
    else if v == 5
    then ret crosshair
    else if v == 6
    then ret move
    else if v == 7
    then ret not_allowed
    else if v == 8
    then ret grab
    else if v == 9
    then ret grabbing
    else if v == 10
    then ret resize_ew
    else if v == 11
    then ret resize_ns
    else if v == 12
    then ret resize_nesw
    else if v == 13
    then ret resize_nwse
    else if v == 255
    then ret custom
    else fail invalid_value

unfoldable pub write_content_ref : ContentRef → Writer
write_content_ref ContentRef.none = write_u8 0
write_content_ref (ContentRef.solid rgba) = do write_u8 1; write_u32 rgba
write_content_ref (ContentRef.track_id t) = do write_u8 2; write_u64 t
write_content_ref (ContentRef.asset_hash h) = do write_u8 3; write_bytes h

-- The match of `read_content_ref` on the byte that it reads.
unfoldable pub content_ref_body : ℕ → Reader ContentRef
content_ref_body tag =
    if tag == 0
    then ret ContentRef.none
    else if tag == 1
    then (do rgba ← read_u32; ret (ContentRef.solid rgba))
    else if tag == 2
    then (do t ← read_u64; ret (ContentRef.track_id t))
    else if tag == 3
    then (do h ← read_hash; ret (ContentRef.asset_hash h))
    else fail invalid_value

unfoldable pub read_content_ref : Reader ContentRef
read_content_ref = do tag ← read_u8; content_ref_body tag

unfoldable pub write_draw_cmd : DrawCommand → Writer
write_draw_cmd (fill_rect x y w h rgba) = do
  write_u8 1
  write_i32 x
  write_i32 y
  write_u32 w
  write_u32 h
  write_u32 rgba
write_draw_cmd (stroke_rect x y w h rgba line_width) = do
  write_u8 2
  write_i32 x
  write_i32 y
  write_u32 w
  write_u32 h
  write_u32 rgba
  write_u16 line_width
write_draw_cmd (draw_text x y font_size rgba s) = do
  write_u8 3
  write_i32 x
  write_i32 y
  write_u16 font_size
  write_u32 rgba
  write_str s
write_draw_cmd (draw_image x y w h asset_hash) = do
  write_u8 4
  write_i32 x
  write_i32 y
  write_u32 w
  write_u32 h
  write_bytes asset_hash
write_draw_cmd (set_clip x y w h) = do
  write_u8 5
  write_i32 x
  write_i32 y
  write_u32 w
  write_u32 h
write_draw_cmd clear_clip = write_u8 6

read_fill_rect : Reader DrawCommand
read_fill_rect = do
  x ← read_i32
  y ← read_i32
  w ← read_u32
  h ← read_u32
  rgba ← read_u32
  ret (fill_rect x y w h rgba)

read_stroke_rect : Reader DrawCommand
read_stroke_rect = do
  x ← read_i32
  y ← read_i32
  w ← read_u32
  h ← read_u32
  rgba ← read_u32
  line_width ← read_u16
  ret (stroke_rect x y w h rgba line_width)

read_draw_text : Reader DrawCommand
read_draw_text = do
  x ← read_i32
  y ← read_i32
  font_size ← read_u16
  rgba ← read_u32
  s ← read_str
  ret (draw_text x y font_size rgba s)

read_draw_image : Reader DrawCommand
read_draw_image = do
  x ← read_i32
  y ← read_i32
  w ← read_u32
  h ← read_u32
  asset_hash ← read_hash
  ret (draw_image x y w h asset_hash)

read_set_clip : Reader DrawCommand
read_set_clip = do x ← read_i32; y ← read_i32; w ← read_u32; h ← read_u32; ret (set_clip x y w h)

-- The match of `read_draw_cmd` on the byte that it reads.
unfoldable pub draw_cmd_body : ℕ → Reader DrawCommand
unfolding read_fill_rect read_stroke_rect read_draw_text read_draw_image read_set_clip
draw_cmd_body tag =
    if tag == 1
    then read_fill_rect
    else if tag == 2
    then read_stroke_rect
    else if tag == 3
    then read_draw_text
    else if tag == 4
    then read_draw_image
    else if tag == 5
    then read_set_clip
    else if tag == 6
    then ret clear_clip
    else fail invalid_value

unfoldable pub read_draw_cmd : Reader DrawCommand
read_draw_cmd = do tag ← read_u8; draw_cmd_body tag
