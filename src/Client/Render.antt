-- ===== src/Client/Render.antt =====
-- gutted-client/src/render.rs: the part of `BrowserCore::render_into` that puts frames, stored pictures,
-- subframes and tiles below the chrome. `none` is a slice out of range. What the source computes in
-- `u32` wraps around at 2^32; what it computes in `usize` is taken to fit.
pub mod Spans
pub mod Base
pub mod Total
pub mod Whole
pub mod Taken
pub mod Narrow
pub mod Shown
pub mod Pixels
pub mod Frames
use exo_browser_core.Common.{
  ℕ, zero, suc, ◌+◌, ◌-◌, ◌*◌, min, leb, ltb, ◌==◌, ◌&&◌, ◌||◌, ◌^◌, ◌%◌, Bool, true, false, Option,
  none, some, List, [], ◌∷◌, ◌++◌, length, take, drop, replicate, if◌then◌else◌,
}
use exo_browser_core.Pixel.Bytes.{slice, ◌>>=◌}
use exo_browser_core.Client.Session.{chrome_h}
use exo_browser_core.Client.Events.{GfxFrame, GfxSubframe}
use exo_browser_core.Client.Core.State.{TabBuffer, DamageRect, BrowserCore, lookup_key}
use exo_browser_core.Client.Core.Handle.{copy_bgra_row_to_u32}

abbrev pub Words : Type 0
Words = List ℕ

-- The words at a place replaced by others.
unfoldable pub write_at : ℕ → Words → Words → Words
write_at zero ws buffer = ws ++ drop (length ws) buffer
write_at (suc i) ws [] = []
write_at (suc i) ws (x ∷ buffer) = x ∷ write_at i ws buffer

-- `buffer[at..at + n].copy_from_slice(ws)` for `n` words, and `buffer[from..to].fill(0x0F0F12)`.
unfoldable pub copy_into : ℕ → Words → Words → Option Words
unfolding write_at
copy_into at_word ws buffer =
    if leb (at_word + length ws) (length buffer) then some (write_at at_word ws buffer) else none

unfoldable pub fill : ℕ → ℕ → Words → Option Words
unfolding copy_into
fill from to buffer =
    if leb from to then copy_into from (replicate (to - from) 0x0F0F12) buffer else none

-- `for row in row..row + n { … }`.
unfoldable pub rows : ℕ → ℕ → (ℕ → Words → Option Words) → Words → Option Words
rows zero row draw buffer = some buffer
rows (suc n) row draw buffer = draw row buffer >>= λ drawn. rows n (row + 1) draw drawn

abbrev pub content_of : ℕ → ℕ
content_of bh = bh - chrome_h

-- A row of words below the chrome, with the background to the right of it.
unfoldable pub put_row : ℕ → ℕ → ℕ → Words → Words → Option Words
unfolding copy_into fill
put_row bw copy_w row ws buffer =
    let dst = (chrome_h + row) * bw in
    copy_into dst ws buffer >>= λ drawn.
    if ltb copy_w bw then fill (dst + copy_w) (dst + bw) drawn else some drawn

unfoldable pub frame_row : ℕ → ℕ → GfxFrame → ℕ → Words → Option Words
unfolding slice put_row copy_bgra_row_to_u32
frame_row bw copy_w f row buffer = slice f.pixels (row * f.stride) (copy_w * 4) >>= λ src.
    put_row bw copy_w row (copy_bgra_row_to_u32 copy_w src) buffer

unfoldable pub picture_row : ℕ → ℕ → TabBuffer → ℕ → Words → Option Words
unfolding slice put_row
picture_row bw copy_w tb row buffer =
    slice tb.pixels (row * tb.w) copy_w >>= λ src. put_row bw copy_w row src buffer

-- The rows of a picture, and the background below them.
unfoldable pub draw_rows : ℕ → ℕ → ℕ → (ℕ → Words → Option Words) → Words → Option Words
unfolding rows fill
draw_rows bw bh copy_h draw buffer = rows copy_h 0 draw buffer >>= λ drawn.
    if ltb copy_h (content_of bh)
    then fill ((chrome_h + copy_h) * bw) (bw * bh) drawn
    else some drawn

unfoldable pub draw_frame : ℕ → ℕ → GfxFrame → Words → Option Words
unfolding frame_row draw_rows
draw_frame bw bh f =
    draw_rows bw bh (min f.height (content_of bh)) (frame_row bw (min f.width bw) f)

unfoldable pub draw_stored : ℕ → ℕ → Option TabBuffer → Words → Option Words
unfolding picture_row draw_rows fill
draw_stored bw bh none buffer = fill (chrome_h * bw % 2 ^ 32) (bw * bh) buffer
draw_stored bw bh (some tb) buffer =
    draw_rows bw bh (min tb.h (content_of bh)) (picture_row bw (min tb.w bw) tb) buffer

-- The buffer, and what of it changed.
abbrev pub Drawn : Type 0
Drawn = Words × List DamageRect

-- The part of a rectangle that is on the screen, with its rows; nothing where there is none.
unfoldable pub draw_part : ℕ → ℕ → (x y w h : ℕ) → (ℕ → ℕ → Option Words) → Drawn → Option Drawn
unfolding rows copy_into
draw_part bw bh x y w h source (buffer, damage) =
    let x0 = min x bw in
    let y0 = min y (content_of bh) in
    let x1 = min ((x + w) % 2 ^ 32) bw in
    let y1 = min ((y + h) % 2 ^ 32) (content_of bh) in
    let copy_w = x1 - x0 in
    let draw = λ (row : ℕ) (b : Words).
      source copy_w row >>= λ ws. copy_into ((chrome_h + y0 + row) * bw + x0) ws b in
    if ltb x0 x1 && ltb y0 y1
    then (rows (y1 - y0) 0 draw buffer >>= λ drawn.
        some
          (drawn, damage ++ (record { x = x0; y = chrome_h + y0; w = x1 - x0; h = y1 - y0 } ∷ [])))
    else some (buffer, damage)

unfoldable pub sub_source : GfxSubframe → ℕ → ℕ → Option Words
unfolding slice copy_bgra_row_to_u32
sub_source s copy_w row =
    slice s.pixels (row * s.stride) (copy_w * 4) >>= λ src. some (copy_bgra_row_to_u32 copy_w src)

unfoldable pub tile_source : Words → ℕ → ℕ → Option Words
unfolding slice
tile_source tile copy_w row = slice tile (row * 64) copy_w

unfoldable pub draw_subframes : ℕ → ℕ → List GfxSubframe → Drawn → Option Drawn
unfolding draw_part sub_source
draw_subframes bw bh [] d = some d
draw_subframes bw bh (s ∷ ss) d =
    draw_part bw bh s.x s.y s.w s.h (sub_source s) d >>= λ drawn. draw_subframes bw bh ss drawn

unfoldable pub draw_tiles : ℕ → ℕ → List (ℕ × Words) → List (ℕ × ℕ × ℕ) → Drawn → Option Drawn
unfolding draw_part tile_source lookup_key
draw_tiles bw bh cache [] d = some d
draw_tiles bw bh cache ((tx, ty, hash) ∷ ts) d = elim (lookup_key hash cache) [
  | none ↦ draw_tiles bw bh cache ts d
  | some tile ↦
      draw_part bw bh tx ty 64 64 (tile_source tile) d >>= λ drawn. draw_tiles bw bh cache ts drawn
]

-- `self.pending_frames.pop()`.
unfoldable pub last_of : List GfxFrame → Option GfxFrame
last_of [] = none
last_of (f ∷ fs) = elim (last_of fs) [ none ↦ some f | some g ↦ some g ]

abbrev pub content_rect : ℕ → ℕ → DamageRect
content_rect bw bh = record { x = 0; y = chrome_h; w = bw; h = content_of bh }

abbrev pub with_content : ℕ → ℕ → List DamageRect → Option Words → Option Drawn
with_content bw bh damage none = none
with_content bw bh damage (some drawn) = some (drawn, damage ++ (content_rect bw bh ∷ []))

-- A frame that waits, or the stored picture where all is to be drawn.
unfoldable pub draw_base : ℕ → ℕ → BrowserCore → Drawn → Option Drawn
unfolding last_of draw_frame draw_stored
draw_base bw bh core (buffer, damage) = elim (last_of core.pending.pending_frames) [
  | some f ↦ with_content bw bh damage (draw_frame bw bh f buffer)
  | none ↦
      if core.full_content_dirty
      then with_content bw bh damage (draw_stored bw bh core.tab_state.active_buf buffer)
      else some (buffer, damage)
]

-- What waited has been drawn.
abbrev pub all_drawn : BrowserCore → BrowserCore
all_drawn core =
    let p = core.pending in
    record core {
      pending = record p {
        pending_damage = [];
        pending_frames = [];
        pending_subframes = [];
        pending_tiles = [];
      };
      full_content_dirty = false;
    }

-- A window of no pixels, or a buffer of `len` words that is shorter than the window.
abbrev pub no_room : ℕ → ℕ → ℕ → Bool
no_room bw bh len = bw == 0 || bh == 0 || ltb len (bw * bh)

-- `render_into` without its drawing of the chrome.
unfoldable pub render_content : ℕ → ℕ → BrowserCore → Drawn → Option (Drawn × BrowserCore)
unfolding draw_base draw_subframes draw_tiles
render_content bw bh core (buffer, damage) =
    if no_room bw bh (length buffer)
    then some ((buffer, []), core)
    else if content_of bh == 0
    then some ((buffer, damage), core)
    else (draw_base bw bh core (buffer, damage) >>= λ d1.
        draw_subframes bw bh core.pending.pending_subframes d1 >>= λ d2.
        draw_tiles bw bh core.pending.tile_cache core.pending.pending_tiles d2 >>= λ d3.
        some (d3, all_drawn core))
