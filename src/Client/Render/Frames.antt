-- ===== src/Client/Render/Frames.antt =====
-- gutted-client/src/render.rs: a frame that arrives is what `render_into` shows below the chrome.
use exo_browser_core.Common.{
  ◌||◌, ℕ, ◌+◌, ◌-◌, ◌*◌, ◌≤◌, ◌<◌, ◌==◌, ◌&&◌, ◌≡◌, refl, sym, ap, ◌∙◌, subst, min, ltb, lt→ltb,
  ltb→lt, le→ltb_false, le→leb, true, false, Option, some, [], ◌∷◌, ◌++◌, length, take, drop,
  get_elem?, length-take, length-drop, arith, Bool-cases, inl, inr, if◌then◌else◌,
}
use exo_browser_core.Pixel.Bytes.{slice}
use exo_browser_core.Client.Session.{chrome_h}
use exo_browser_core.Client.Events.{GfxFrame, RenderEvent}
use exo_browser_core.Client.Core.State.{BrowserCore}
use exo_browser_core.Client.Core.Handle.{handle_render_event, copy_bgra_row_to_u32, with_pending}
use exo_browser_core.Client.Render.{
  Words, Drawn, content_of, frame_row, draw_rows, draw_frame, last_of, draw_base, draw_subframes,
  draw_tiles, all_drawn, content_rect, render_content,
}
use exo_browser_core.Client.Render.Spans.{length-copy_bgra_row_to_u32}
use exo_browser_core.Client.Render.Base.{mul_mono, row_fits, IsWholeFrame}
use exo_browser_core.Client.Render.Taken.{waiting, on_frame-waiting}
use exo_browser_core.Client.Render.Shown.{
  Shows, same_front, fill-Shows, word_at, get_elem?-copy_bgra_row_to_u32,
}
use exo_browser_core.Client.Render.Pixels.{word_at-slice, row_word, put_row-Shows, rows-Area}

-- What a frame shows at a place: its pixel, and the background to the right of it and below it.
unfoldable pub frame_word : GfxFrame → ℕ → ℕ → ℕ
frame_word f y x =
    if ltb x f.width && ltb y f.height then word_at f.pixels (y * f.stride + x * 4) else 0x0F0F12

module _ (bw bh : ℕ) (below : chrome_h < bh) (f : GfxFrame) (v : IsWholeFrame f) where
  frame_row-Shows :
      (r : ℕ) (buffer : Words)
      → r < min f.height (content_of bh)
      → bw * bh ≤ length buffer
      → Shows
          ((chrome_h + r) * bw)
          bw
          (row_word (min f.width bw) (λ x. word_at f.pixels (r * f.stride + x * 4)))
          buffer
          (frame_row bw (min f.width bw) f r buffer)
  unfolding frame_row slice
  frame_row-Shows r buffer low big =
      let w = min f.width bw in
      let src = take (w * 4) (drop (r * f.stride) f.pixels) in
      let last = row_fits r f.height f.stride (omega arith) in
      let fits : r * f.stride + w * 4 ≤ length f.pixels = omega (arith, v.0, v.1) in
      let long : length src ≡ w * 4 = omega (
        arith,
        length-take (w * 4) (drop (r * f.stride) f.pixels),
        length-drop (r * f.stride) f.pixels,
      ) in
      let room = row_fits (chrome_h + r) bh bw (omega arith) in
      rw (le→leb _ _ fits) (
        put_row-Shows bw bh w r _ (copy_bgra_row_to_u32 w src) buffer (omega arith) (omega arith)
          (length-copy_bgra_row_to_u32 w src)
          (λ x h.
            get_elem?-copy_bgra_row_to_u32 w x src h (omega (arith, long))
            ∙ ap some (word_at-slice f.pixels (r * f.stride) (w * 4) (x * 4) (omega arith))))

  -- The whole content of the window.
  record Content (buffer : Words) (o : Option Words) : Type 0 where
    out : Words
    returns : o ≡ some out
    shown :
        (y x : ℕ)
        → y < content_of bh
        → x < bw
        → get_elem? out ((chrome_h + y) * bw + x) ≡ some (frame_word f y x)

  row_word-frame_word :
      (y x : ℕ)
      → y < f.height
      → x < bw
      → row_word (min f.width bw) (λ x. word_at f.pixels (y * f.stride + x * 4)) x
        ≡ frame_word f y x
  unfolding frame_word
  row_word-frame_word y x low h =
      let within : ltb x (min f.width bw) ≡ ltb x f.width = ground arith in
      rw (within, lt→ltb y f.height low)
        (elim (Bool-cases (ltb x f.width)) [ inl e ↦ rw e refl | inr e ↦ rw e refl ])

  below_frame : (y x : ℕ) → f.height ≤ y → frame_word f y x ≡ 0x0F0F12
  unfolding frame_word
  below_frame y x h =
      rw (le→ltb_false f.height y h)
        (elim (Bool-cases (ltb x f.width)) [ inl e ↦ rw e refl | inr e ↦ rw e refl ])

  draw_frame-Content :
      (buffer : Words) → bw * bh ≤ length buffer → Content buffer (draw_frame bw bh f buffer)
  unfolding draw_frame draw_rows
  draw_frame-Content buffer big =
      let n = min f.height (content_of bh) in
      let m =
        rows-Area bw bh n 0 (frame_row bw (min f.width bw) f) _ buffer
          (λ r c lo hi long. frame_row-Shows r c (omega arith) (omega arith)) in
      elim (Bool-cases (ltb n (content_of bh))) [
        | inr full ↦ record {
          out = m.out;
          returns = rw (m.returns, full) refl;
          shown = λ y x low h.
              m.shown y x (omega arith) (ground (arith, full)) h
              ∙ ap some (row_word-frame_word y x (ground (arith, full)) h);
        }
        | inl more ↦
            let from = (chrome_h + n) * bw in
            let order : from ≤ bw * bh = grind (arith, mul_mono (chrome_h + n) bh bw) in
            let p = fill-Shows from (bw * bh) m.out order (omega (arith, m.long)) in
            record {
              out = p.out;
              returns = rw (m.returns, more) p.returns;
              shown = λ y x low h. elim (Bool-cases (ltb y n)) [
                | inl above ↦
                    let inside = ltb→lt _ _ above in
                    let place = row_fits (chrome_h + y) (chrome_h + n) bw (omega arith) in
                    let turned : bw * (chrome_h + n) ≡ from = grind arith in
                    same_front ((chrome_h + y) * bw + x) from p.out m.out (omega arith) p.front
                    ∙ m.shown y x (omega arith) (omega arith) h
                    ∙ ap some (row_word-frame_word y x (omega arith) h)
                | inr under ↦
                    let high : n ≤ y = ground (arith, under) in
                    let start = mul_mono (chrome_h + n) (chrome_h + y) bw (omega arith) in
                    let end = row_fits (chrome_h + y) bh bw (omega arith) in
                    let i = (chrome_h + y) * bw + x - from in
                    let place : from + i ≡ (chrome_h + y) * bw + x = omega arith in
                    subst (λ (k : ℕ). get_elem? p.out k ≡ some 0x0F0F12) place
                      (p.shown i (omega arith))
                    ∙ ap some (sym (below_frame y x (omega (arith, more_low more))))
              ];
            }
      ]
    where
      more_low :
          ltb (min f.height (content_of bh)) (content_of bh) ≡ true → f.height < content_of bh
      more_low e = let l = ltb→lt _ _ e in omega arith

-- On a buffer of at least the window's words: when a frame arrives that is not empty and has its rows,
-- the next `render_into` puts it below the chrome, each pixel at its place, as far as the window
-- reaches, and the background where the window is wider or higher than the frame.
pub render_content-frame :
    (now bw bh : ℕ) (core : BrowserCore) (f : GfxFrame) (d : Drawn)
    → chrome_h < bh
    → 0 < f.width
    → 0 < f.height
    → IsWholeFrame f
    → bw * bh ≤ length d.0
    → (out : Drawn) × (after : BrowserCore) × (render_content bw bh
          (handle_render_event now core (RenderEvent.frame f)).0
          d
        ≡ some (out, after))
      × ((y x : ℕ)
          → y < content_of bh
          → x < bw
          → get_elem? out.0 ((chrome_h + y) * bw + x) ≡ some (frame_word f y x))
unfolding handle_render_event render_content draw_base last_of draw_subframes draw_tiles
render_content-frame now bw bh core f (buffer, damage) below wide tall v big =
    let seen : (content_of bh == 0) ≡ false = ground arith in
    let held = on_frame-waiting f core wide tall v.1 in
    let m = draw_frame-Content bw bh below f v buffer big in
    let core' = with_pending true (waiting f core.pending) core in
    elim (Bool-cases (bw == 0 || bh == 0 || ltb (length buffer) (bw * bh))) [
      | inl empty ↦ (
        (buffer, []),
        core',
        rw held (rw empty refl),
        λ y x low h. absurd (ground (arith, empty, big)),
      )
      | inr room ↦ (
        (m.out, damage ++ (content_rect bw bh ∷ [])),
        all_drawn core',
        rw held (rw (room, seen, m.returns) refl),
        m.shown,
      )
    ]
