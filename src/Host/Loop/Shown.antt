-- ===== src/Host/Loop/Shown.antt =====
-- gutted-host-rs/src/main.rs: what the event loop publishes for a frame shows that frame.
use exo_browser_core.Common.{
  suc, ◌+◌, ◌-◌, drop, length-take, length-drop, ℕ, ◌*◌, ◌%◌, ◌^◌, ◌≤◌, ◌<◌, ◌≡◌, refl, sym, ap,
  ap₂, ◌∙◌, true, ◌||◌, some, List, [], ◌∷◌, length, All, Any, ltb, leb, Bool-cases, ◌⊎◌, inl, inr,
  arith, not_both,
}
use exo_browser_core.Message.Types.{Message}
use exo_browser_core.Host.Rect.{in_rect, in_rect-Inside, Inside-in_rect}
use exo_browser_core.Host.Diff.{Frames, Region}
use exo_browser_core.Host.Diff.Rows.{Changed, IsFrames}
use exo_browser_core.Host.Diff.Covers.{InRegion, IsRegion, diff_regions-Regions}
use exo_browser_core.Host.Diff.Patches.{cut_pixels, same_or, pixel-row}
use native.Mathlib.Nat.{mul-le-mul_right, suc-mul}
use exo_browser_core.Host.Diff.{extract_subrect}
use exo_browser_core.Host.Diff.Cut.{extract_subrect-size}
use exo_browser_core.Host.Screen.Arrives.{IsFrame, full_frame-arrived}
use exo_browser_core.Host.Screen.Regions.{region-arrived}
use exo_browser_core.Host.State.{Frame, full_frame}
use exo_browser_core.Host.Screen.{Screen, pixel_of, show, show_all}
use exo_browser_core.Host.Loop.{compression_of, sub_messages, total_px, changed_messages}

pub full_of : {f : Frame} → IsFrame f → f.height * f.stride ≤ length f.pixels
full_of v = omega (arith, v.exact)

-- A pixel of the frame, or, where a picture in half resolution was drawn last, any pixel.
abbrev pub Seen : Screen → Frame → ℕ → ℕ → Type 0
Seen s f x y =
    (s.at x y ≡ pixel_of f.pixels f.stride x y) ⊎ ((s.halved x y ≡ true) × (length (s.at x y) ≡ 4))

-- The screen has the size of the frame and each of its pixels, but for those in half resolution.
pub record Shows (s : Screen) (f : Frame) : Type 0 where
  pub size : s.size ≡ (f.width, f.height)
  pub same : (x y : ℕ) → x < f.width → y < f.height → Seen s f x y

-- Every pixel of a whole frame arrives.
pub full_frame-exact :
    (ts_us : ℕ) (f : Frame) (s : Screen)
    → ts_us < 2 ^ 64
    → IsFrame f
    → (x y : ℕ) → (show (full_frame ts_us f) s).at x y ≡ pixel_of f.pixels f.stride x y
unfolding full_frame show
full_frame-exact ts_us f s t v x y =
    let st : f.stride % 2 ^ 32 ≡ f.stride = omega (arith, v.stride_fits) in
    let got = full_frame-arrived ts_us f t v in rw got (rw st refl)

pub full_frame-Shows :
    (ts_us : ℕ) (f : Frame) (s : Screen)
    → ts_us < 2 ^ 64
    → IsFrame f
    → Shows (show (full_frame ts_us f) s) f
unfolding full_frame show
full_frame-Shows ts_us f s t v =
    let w : f.width % 2 ^ 16 ≡ f.width = omega (arith, v.narrow) in
    let h : f.height % 2 ^ 16 ≡ f.height = omega (arith, v.low) in
    record { size = rw (w, h) refl; same = λ x y p q. inl (full_frame-exact ts_us f s t v x y) }

no_regions : (P : Region → Type 0) (rs : List Region) → leb (length rs) 0 ≡ true → Any P rs → ⊥
no_regions P [] h p = p
no_regions P (r ∷ rs) h p = ground arith

-- `Message::Subframe` of a region.
abbrev region_message : ℕ → Frame → Region → List ℕ → Message
region_message ts_us f r cut =
    Message.subframe ts_us r.x r.y r.w r.h (r.w * 4) f.format (compression_of (r.w * r.h)) cut

-- A place within `h` rows of `w` pixels has its four bytes.
length-pixel_of :
    (pixels : List ℕ) (w h x y : ℕ)
    → length pixels ≡ h * (w * 4)
    → x < w
    → y < h
    → length (pixel_of pixels (w * 4) x y) ≡ 4
length-pixel_of pixels w h x y size p q =
    let next : suc y * (w * 4) ≤ h * (w * 4) = mul-le-mul_right {m = suc y} {n = h} (w * 4) q in
    omega (
      arith,
      size,
      next,
      suc-mul y (w * 4),
      length-take 4 (drop (y * (w * 4) + x * 4) pixels),
      length-drop (y * (w * 4) + x * 4) pixels,
    )

module _ (ts_us : ℕ) (t : ts_us < 2 ^ 64) (prev f : Frame) where
  abbrev both : Frames
  both = record {
    at_a = prev.at;
    at_b = f.at;
    a = prev.pixels;
    b = f.pixels;
    w = f.width;
    h = f.height;
    s = f.stride;
  }

  -- Pixels that are right already, or in a region that is still to come.
  abbrev Pending : Screen → List Region → Type 0
  Pending s regions =
      (x y : ℕ) → x < f.width → y < f.height → Seen s f x y ⊎ Any (InRegion x y) regions

  -- A region that arrives, drawn over a screen.
  drawn_region :
      (r : Region) (s : Screen) (cut : List ℕ)
      → IsFrame f
      → IsRegion both r
      → extract_subrect f.pixels f.stride r ≡ some cut
      → ((x y : ℕ)
          → InRegion x y r
          → pixel_of cut (r.w * 4) (x - r.x) (y - r.y) ≡ pixel_of f.pixels f.stride x y)
      → (x y : ℕ) → InRegion x y r
      → Seen (show (region_message ts_us f r cut) s) f x y
  unfolding show
  drawn_region r s cut v i e pixels x y p =
      let (size, bytes) = extract_subrect-size f.pixels f.stride r cut v.bytes e in
      let (got, came, comes) = region-arrived ts_us f r cut t v i.across i.down size bytes in
      let inside = Inside-in_rect r.x r.y r.w r.h x y p in
      elim comes [
        | inl same ↦ inl (rw (inside, came) (rw same (pixels x y p)))
        | inr half ↦ inr (
          rw inside half.0,
          rw (inside, came)
              (length-pixel_of got r.w r.h (x - r.x) (y - r.y) half.1
                (omega (arith, p.left, p.right)) (omega (arith, p.top, p.bottom))),
        )
      ]

  sub_messages-Shows :
      (regions : List Region) (s : Screen)
      → IsFrames both
      → IsFrame f
      → All (IsRegion both) regions
      → s.size ≡ (f.width, f.height)
      → Pending s regions
      → (ms : List Message) × (sub_messages ts_us f regions ≡ some ms) × Shows (show_all ms s) f
  unfolding sub_messages show_all show
  sub_messages-Shows [] s v u h size pending = (
    [],
    refl,
    record {
      size = size;
      same = λ x y p q. elim (pending x y p q) [ inl e ↦ e | inr z ↦ absurd z ];
    },
  )
  sub_messages-Shows (r ∷ regions) s v u h size pending =
      let (cut, e, pixels) = cut_pixels both r v h.0 in
      let m = region_message ts_us f r cut in
      let drawn = drawn_region r s cut u h.0 e (λ x y p.
        pixels x y p ∙ pixel-row both f.pixels x y (omega (arith, p.right, h.0.across))) in
      let (ms, e', shows) = sub_messages-Shows regions (show m s) v u h.1 size (λ x y p q.
        elim (Bool-cases (in_rect r.x r.y r.w r.h x y)) [
          | inl inside ↦ inl (drawn x y (in_rect-Inside r.x r.y r.w r.h x y inside))
          | inr outside ↦ elim (pending x y p q) [
            | inl (inl right) ↦ inl (inl (rw outside right))
            | inl (inr half) ↦ inl (inr (rw outside half.0, rw outside half.1))
            | inr z ↦ elim z [
              | inl here ↦ absurd (
                  not_both (in_rect r.x r.y r.w r.h x y) (Inside-in_rect r.x r.y r.w r.h x y here)
                    outside)
              | inr later ↦ inr later
            ]
          ]
        ]) in
      (m ∷ ms, rw (sub_messages, e, e') refl, shows)

  -- A screen with the old frame is wrong at most within the regions.
  regions-Pending :
      (s : Screen) (regions : List Region)
      → prev.width ≡ f.width
      → prev.height ≡ f.height
      → prev.stride ≡ f.stride
      → Shows s prev
      → ((x y : ℕ) → x < f.width → y < f.height → Changed both x y → Any (InRegion x y) regions)
      → Pending s regions
  regions-Pending s regions ew eh es shown covers x y h k =
      elim (same_or both x y regions (covers x y h k)) [
        | inr z ↦ inr z
        | inl e ↦
            let seen = shown.same x y (omega (arith, ew)) (omega (arith, eh)) in
            inl (elim seen [
              | inl old ↦ inl (
                  old
                  ∙ ap (λ (n : ℕ). pixel_of prev.pixels n x y) es
                  ∙ sym (pixel-row both prev.pixels x y h)
                  ∙ e
                  ∙ pixel-row both f.pixels x y h)
              | inr half ↦ inr half
            ])
      ]

  pub changed_messages-Shows :
      (s : Screen)
      → IsFrame prev
      → IsFrame f
      → prev.width ≡ f.width
      → prev.height ≡ f.height
      → prev.stride ≡ f.stride
      → Shows s prev
      → (ms : List Message) × (changed_messages ts_us prev f ≡ some ms) × Shows (show_all ms s) f
  unfolding changed_messages show_all
  changed_messages-Shows s p v ew eh es shown =
      let frames : IsFrames both = record {
        columns = v.columns;
        wide = v.wide;
        full_a = rw (← eh, ← es) (full_of p);
        full_b = full_of v;
        bytes_a = p.bytes;
        bytes_b = v.bytes;
      } in
      let r = diff_regions-Regions both frames v.narrow v.low in
      let size : s.size ≡ (f.width, f.height) = shown.size ∙ ap₂ (λ (a b : ℕ). (a, b)) ew eh in
      let pending = regions-Pending s r.out ew eh es shown r.covers in
      elim (Bool-cases (leb (length r.out) 0)) [
        | inl nothing ↦ (
          [],
          rw (r.returns, nothing) refl,
          record {
            size = size;
            same = λ x y h k. elim (pending x y h k) [
              | inl e ↦ e
              | inr z ↦ absurd (no_regions (InRegion x y) r.out nothing z)
            ];
          },
        )
        | inr something ↦
            elim (Bool-cases
              (leb (f.width * f.height * 8) (total_px r.out * 10) || ltb 16 (length r.out))) [
                | inl most ↦ (
                  full_frame ts_us f ∷ [],
                  rw (r.returns, something, most) refl,
                  full_frame-Shows ts_us f s t v,
                )
                | inr few ↦
                    let (ms, e, shows) =
                      sub_messages-Shows r.out s frames v r.inside size pending in
                    (ms, rw (r.returns, something, few) e, shows)
              ]
      ]
