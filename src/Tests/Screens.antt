-- ===== src/Tests/Screens.antt =====
-- The theorems on the drawing below the chrome at concrete inputs.
use exo_browser_core.Common.{
  ℕ, ◌+◌, ◌*◌, ◌<◌, ◌≡◌, refl, some, none, false, [], ◌∷◌, replicate, get_elem?, arith,
}
use exo_browser_core.Wire.Reader.{from_le_bytes}
use exo_browser_core.Client.Session.{chrome_h}
use exo_browser_core.Client.Events.{GfxFrame, GfxSubframe, RenderEvent}
use exo_browser_core.Client.Core.State.{BrowserCore}
use exo_browser_core.Client.Core.Handle.{handle_render_event}
use exo_browser_core.Client.Ui.{new_no_std}
use exo_browser_core.Client.Render.{Drawn, content_of, render_content}
use exo_browser_core.Client.Render.Narrow.{render_content-narrow}
use exo_browser_core.Client.Render.Shown.{word_at}
use exo_browser_core.Client.Render.Frames.{frame_word, render_content-frame}

-- A window of two columns, with two rows below the chrome.
abbrev blank : Drawn
blank = (replicate (2 * (chrome_h + 2)) 0, [])

abbrev quiet_core : BrowserCore
quiet_core = (new_no_std 2 (chrome_h + 2) [] false).core

-- One pixel, in a row with four bytes too many.
abbrev dot : GfxFrame
dot = record { width = 1; height = 1; stride = 8; pixels = 1 ∷ 2 ∷ 3 ∷ 4 ∷ 0 ∷ 0 ∷ 0 ∷ 0 ∷ [] }

dot_word : frame_word dot 0 0 ≡ 197121
unfolding frame_word word_at from_le_bytes
dot_word = refl

beside_dot : frame_word dot 0 1 ≡ 0x0F0F12
unfolding frame_word
beside_dot = refl

render_content-frame_example :
    (out : Drawn) × (after : BrowserCore) × (render_content 2
        (chrome_h + 2)
        (handle_render_event 0 quiet_core (RenderEvent.frame dot)).0
        blank
      ≡ some (out, after))
    × ((y x : ℕ)
        → y < content_of (chrome_h + 2)
        → x < 2
        → get_elem? out.0 ((chrome_h + y) * 2 + x) ≡ some (frame_word dot y x))
render_content-frame_example =
    render_content-frame 0 2 (chrome_h + 2) quiet_core dot blank (omega arith) (omega arith)
      (omega arith) (omega arith, omega arith) (omega arith)

-- A subframe that lies half beyond the right side, and nothing else.
abbrev half_off : GfxSubframe
half_off = record {
  x = 1;
  y = 0;
  w = 2;
  h = 1;
  stride = 8;
  pixels = 1 ∷ 2 ∷ 3 ∷ 4 ∷ 5 ∷ 6 ∷ 7 ∷ 8 ∷ [];
}

abbrev partial_core : BrowserCore
partial_core = record quiet_core {
  pending = record quiet_core.pending { pending_subframes = half_off ∷ [] };
}

-- A frame of one pixel and no bytes.
abbrev empty_frame : GfxFrame
empty_frame = record { width = 1; height = 1; stride = 0; pixels = [] }

render_content-narrow_example :
    render_content 2
      (chrome_h + 2)
      (handle_render_event 0 quiet_core (RenderEvent.frame empty_frame)).0
      blank
    ≡ none
render_content-narrow_example =
    render_content-narrow 0 2 (chrome_h + 2) quiet_core empty_frame blank (omega arith)
      (omega arith) (omega arith) refl (omega arith)
