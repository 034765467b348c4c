-- ===== src/Client/Render/Base.antt =====
-- gutted-client/src/render.rs: the rows of a frame, of a stored picture and of the background are drawn
-- in range and below the chrome.
use exo_browser_core.Common.{
  ◌^◌, ◌%◌, ℕ, ◌+◌, ◌*◌, ◌≤◌, ◌<◌, ◌≡◌, min, ltb, Option, none, some, length, Bool-cases, inl, inr,
  arith,
}
use exo_browser_core.Client.Session.{chrome_h}
use exo_browser_core.Client.Events.{GfxFrame, GfxSubframe}
use exo_browser_core.Client.Core.State.{TabBuffer}
use exo_browser_core.Client.Core.Handle.{copy_bgra_row_to_u32}
use exo_browser_core.Client.Render.{
  Words, content_of, put_row, frame_row, picture_row, draw_rows, draw_frame, draw_stored,
}
use exo_browser_core.Client.Render.Spans.{
  Keeps, stays, copy_into-Keeps, fill-Keeps, Keeps-bind, rows-Keeps, slice-some,
  length-copy_bgra_row_to_u32,
}

pub mul_mono : (a b c : ℕ) → a ≤ b → a * c ≤ b * c
mul_mono a b c h = grind arith

-- A row in range ends before the whole does.
pub row_fits : (r n w : ℕ) → r < n → r * w + w ≤ w * n
row_fits r n w h = grind arith

-- The rows of the picture and of the stored one are in range.
abbrev pub IsWholeFrame : GfxFrame → Type 0
IsWholeFrame f = (f.width * 4 ≤ f.stride) × (f.stride * f.height ≤ length f.pixels)

abbrev pub IsWholeSubframe : GfxSubframe → Type 0
IsWholeSubframe s = (s.w * 4 ≤ s.stride) × (s.stride * s.h ≤ length s.pixels)

abbrev pub IsWholeTile : ℕ × Words → Type 0
IsWholeTile t = 64 * 64 ≤ length t.1

abbrev pub IsWholePicture : Option TabBuffer → Type 0
IsWholePicture none = Unit {0}
IsWholePicture (some tb) = tb.w * tb.h ≤ length tb.pixels

module _ (bw bh : ℕ) (below : chrome_h < bh) where
  put_row-Keeps :
      (copy_w row : ℕ) (ws buffer : Words)
      → bw * bh ≤ length buffer
      → row < content_of bh
      → copy_w ≤ bw
      → length ws ≡ copy_w
      → Keeps (chrome_h * bw) buffer (put_row bw copy_w row ws buffer)
  unfolding put_row
  put_row-Keeps copy_w row ws buffer big in_range narrow long =
      let fits = row_fits (chrome_h + row) bh bw (omega arith) in
      let behind = mul_mono chrome_h (chrome_h + row) bw (omega arith) in
      Keeps-bind (chrome_h * bw) buffer _ _
        (copy_into-Keeps _ ((chrome_h + row) * bw) ws buffer behind (omega arith))
        λ drawn same. elim (Bool-cases (ltb copy_w bw)) [
          | inl more ↦ rw more (
              fill-Keeps _ ((chrome_h + row) * bw + copy_w) ((chrome_h + row) * bw + bw) drawn
                (omega arith) (omega arith) (omega arith))
          | inr full ↦ rw full (stays _ drawn)
        ]

  draw_rows-Keeps :
      (copy_h : ℕ) (draw : ℕ → Words → Option Words) (buffer : Words)
      → bw * bh ≤ length buffer
      → copy_h ≤ content_of bh
      → ((r : ℕ) (c : Words) → r < copy_h → bw * bh ≤ length c → Keeps (chrome_h * bw) c (draw r c))
      → Keeps (chrome_h * bw) buffer (draw_rows bw bh copy_h draw buffer)
  unfolding draw_rows
  draw_rows-Keeps copy_h draw buffer big low each =
      Keeps-bind (chrome_h * bw) buffer _ _
        (rows-Keeps _ copy_h 0 draw buffer λ r c lo hi long. each r c (omega arith) (omega arith))
        λ drawn same. elim (Bool-cases (ltb copy_h (content_of bh))) [
          | inl more ↦
              let fits = mul_mono (chrome_h + copy_h) bh bw (omega arith) in
              let behind = mul_mono chrome_h (chrome_h + copy_h) bw (omega arith) in
              let turned : bh * bw ≡ bw * bh = grind arith in
              rw more (
                fill-Keeps _ ((chrome_h + copy_h) * bw) (bw * bh) drawn behind (omega arith)
                  (omega arith))
          | inr full ↦ rw full (stays _ drawn)
        ]

  pub draw_frame-Keeps :
      (f : GfxFrame) (buffer : Words)
      → bw * bh ≤ length buffer
      → IsWholeFrame f
      → Keeps (chrome_h * bw) buffer (draw_frame bw bh f buffer)
  unfolding draw_frame frame_row
  draw_frame-Keeps f buffer big v =
      draw_rows-Keeps (min f.height (content_of bh)) (frame_row bw (min f.width bw) f) buffer big
        (omega arith)
        λ r c low long.
          let fits = row_fits r f.height f.stride (omega arith) in
          let (src, e, _) =
            slice-some f.pixels (r * f.stride) (min f.width bw * 4) (omega (arith, v.0, v.1)) in
          rw e (
            put_row-Keeps (min f.width bw) r (copy_bgra_row_to_u32 (min f.width bw) src) c long
              (omega arith) (omega arith) (length-copy_bgra_row_to_u32 (min f.width bw) src))

  pub draw_stored-Keeps :
      (o : Option TabBuffer) (buffer : Words)
      → chrome_h * bw < 2 ^ 32
      → bw * bh ≤ length buffer
      → IsWholePicture o
      → Keeps (chrome_h * bw) buffer (draw_stored bw bh o buffer)
  unfolding draw_stored picture_row
  draw_stored-Keeps none buffer no_wrap big v =
      let fits = mul_mono chrome_h bh bw (omega arith) in
      let turned : bh * bw ≡ bw * bh = grind arith in
      let start : chrome_h * bw % 2 ^ 32 ≡ chrome_h * bw = omega arith in
      rw start
        (fill-Keeps _ (chrome_h * bw) (bw * bh) buffer (omega arith) (omega arith) (omega arith))
  draw_stored-Keeps (some tb) buffer no_wrap big v =
      draw_rows-Keeps (min tb.h (content_of bh)) (picture_row bw (min tb.w bw) tb) buffer big
        (omega arith)
        λ r c low long.
          let fits = row_fits r tb.h tb.w (omega arith) in
          let (src, e, n) = slice-some tb.pixels (r * tb.w) (min tb.w bw) (omega (arith, v)) in
          rw e (put_row-Keeps (min tb.w bw) r src c long (omega arith) (omega arith) n)
