-- ===== src/Client/Render/Taken.antt =====
-- gutted-client/src/render.rs: `handle_render_event` takes a frame that has the bytes of its rows.
use exo_browser_core.Common.{
  ◌+◌, ◌*◌, ◌%◌, ◌^◌, ◌≤◌, ◌<◌, ◌==◌, ◌≡◌, refl, le→ltb_false, true, false, some, [], ◌∷◌, length,
  arith,
}
use exo_browser_core.Client.Events.{GfxFrame}
use exo_browser_core.Client.Core.State.{Pending, BrowserCore}
use exo_browser_core.Client.Core.Handle.{on_frame, take_frame, with_pending}

-- What waits when a frame has been taken: it alone.
abbrev pub waiting : GfxFrame → Pending → Pending
waiting f p = record p {
  pending_damage = [];
  pending_frames = f ∷ [];
  pending_subframes = [];
  pending_tiles = [];
  frames_seen = (p.frames_seen + 1) % 2 ^ 64;
}

pub on_frame-waiting :
    (f : GfxFrame) (core : BrowserCore)
    → 0 < f.width
    → 0 < f.height
    → f.stride * f.height ≤ length f.pixels
    → on_frame f core ≡ with_pending true (waiting f core.pending) core
unfolding on_frame take_frame
on_frame-waiting f core wide tall enough =
    let a : (f.width == 0) ≡ false = ground arith in
    let b : (f.height == 0) ≡ false = ground arith in
    let c = le→ltb_false (f.stride * f.height) (length f.pixels) enough in
    let taken : take_frame f core.pending ≡ some (waiting f core.pending) =
      rw (take_frame, a, b, c) refl in
    rw (on_frame, taken) refl
