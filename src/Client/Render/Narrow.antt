-- ===== src/Client/Render/Narrow.antt =====
-- gutted-client/src/render.rs: a frame whose rows overlap is taken by `handle_render_event`, and makes
-- `render_into` panic.
use exo_browser_core.Common.{
  ℕ, zero, suc, ◌+◌, ◌-◌, ◌*◌, ◌≤◌, ◌<◌, ◌==◌, ◌||◌, ◌≡◌, refl, ap, ◌∙◌, subst, min, ltb, leb,
  lt→ltb, true, false, Option, none, some, length, arith,
}
use exo_browser_core.Pixel.Bytes.{slice, ◌>>=◌}
use exo_browser_core.Client.Events.{GfxFrame, RenderEvent}
use exo_browser_core.Client.Core.State.{BrowserCore}
use exo_browser_core.Client.Core.Handle.{handle_render_event}
use exo_browser_core.Client.Render.Taken.{on_frame-waiting}
use exo_browser_core.Client.Render.{
  Words, Drawn, content_of, rows, frame_row, draw_rows, draw_frame, last_of, draw_base,
  render_content,
}

bind_none :
    {A : Type 0} {B : Type 0} (o : Option A) (f : A → Option B)
    → ((a : A) → f a ≡ none)
    → (o >>= f) ≡ none
bind_none none f stuck = refl
bind_none (some a) f stuck = stuck a

-- Where the last row of a loop panics, whatever the buffer, the loop does.
rows_none :
    (n row : ℕ) (draw : ℕ → Words → Option Words) (buffer : Words)
    → ((b : Words) → draw (row + n) b ≡ none)
    → rows (suc n) row draw buffer ≡ none
unfolding rows
rows_none zero row draw buffer stuck =
    let last : row + 0 ≡ row = omega arith in
    rw (subst (λ (r : ℕ). draw r buffer ≡ none) last (stuck buffer)) refl
rows_none (suc n) row draw buffer stuck =
    let last : row + suc n ≡ row + 1 + n = omega arith in
    bind_none (draw row buffer) _
      λ b. rows_none n (row + 1) draw b λ c. subst (λ (r : ℕ). draw r c ≡ none) last (stuck c)

last_row_out : (n s c len : ℕ) → len ≡ s * suc n → s < c → ltb len (n * s + c) ≡ true
last_row_out n s c len e h = lt→ltb _ _ (grind arith)

-- The last row of a frame whose rows overlap.
draw_frame_none :
    (bw bh : ℕ) (f : GfxFrame) (buffer : Words) (n : ℕ)
    → f.height ≡ suc n
    → f.height ≤ content_of bh
    → f.stride < min f.width bw * 4
    → length f.pixels ≡ f.stride * f.height
    → draw_frame bw bh f buffer ≡ none
unfolding draw_frame draw_rows frame_row slice
draw_frame_none bw bh f buffer n tall low narrow full =
    let c = min f.width bw * 4 in
    let count : min f.height (content_of bh) ≡ suc n = omega arith in
    let product : length f.pixels ≡ f.stride * suc n = full ∙ ap (λ (h : ℕ). f.stride * h) tall in
    let over = last_row_out n f.stride c (length f.pixels) product narrow in
    let out : leb (n * f.stride + c) (length f.pixels) ≡ false = ground (arith, over) in
    let same : 0 + n ≡ n = omega arith in
    let stuck : (b : Words) → frame_row bw (min f.width bw) f (0 + n) b ≡ none =
      λ b. rw (same, out) refl in
    rw (count, rows_none n 0 (frame_row bw (min f.width bw) f) buffer stuck) refl

-- A frame with as many bytes as its rows have, whose rows are shorter than the part of them that is
-- shown, on a window that shows the last row and a buffer of at least the window's words:
-- `handle_render_event` takes it, and the next `render_into` reads out of range, whatever the rest of
-- the core is.
pub render_content-narrow :
    (now bw bh : ℕ) (core : BrowserCore) (f : GfxFrame) (d : Drawn)
    → 0 < f.height
    → f.height ≤ content_of bh
    → f.stride < min f.width bw * 4
    → length f.pixels ≡ f.stride * f.height
    → bw * bh ≤ length d.0
    → render_content bw bh (handle_render_event now core (RenderEvent.frame f)).0 d ≡ none
unfolding handle_render_event render_content draw_base last_of
render_content-narrow now bw bh core f (buffer, damage) some_rows low narrow full big =
    let room : (bw == 0 || bh == 0 || ltb (length buffer) (bw * bh)) ≡ false =
      ground (arith, some_rows, low, narrow, big) in
    let seen : (content_of bh == 0) ≡ false = ground arith in
    let rest : f.height ≡ suc (f.height - 1) = omega arith in
    let stuck = draw_frame_none bw bh f buffer (f.height - 1) rest low narrow full in
    rw (on_frame-waiting f core (omega arith) some_rows (omega (arith, full)))
      (rw (room, seen, stuck) refl)
