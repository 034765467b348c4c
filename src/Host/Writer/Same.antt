-- ===== src/Host/Writer/Same.antt =====
-- gutted-host-rs/src/main.rs: the writers that leave out frames show what a writer of all would.
use exo_browser_core.Common.{
  ◌==◌, sym, ap, ◌∙◌, ℕ, ◌+◌, ◌-◌, ◌≡◌, refl, true, sym, ap, ◌∙◌, ◌&&◌, List, [], ◌∷◌, leb,
  if◌then◌else◌, Bool-cases, inl, inr, arith, not_both,
}
use exo_browser_core.Message.Types.{Message}
use exo_browser_core.Host.Screen.{
  others, show_all, is_frame, Screen, pixel_of, pixels_in, arrived, show,
}
use exo_browser_core.Host.Rect.{in_rect, in_rect-Inside, Inside-in_rect}
use exo_browser_core.Host.Writer.{written, superseded}

-- A rectangle that holds another one hides it.
covered :
    {A : Type 0} (x1 y1 w1 h1 x2 y2 w2 h2 col row : ℕ) (old new below : A)
    → (leb x2 x1 && leb y2 y1 && leb (x1 + w1) (x2 + w2) && leb (y1 + h1) (y2 + h2)) ≡ true
    → (if in_rect x2 y2 w2 h2 col row
        then new
        else (if in_rect x1 y1 w1 h1 col row then old else below))
      ≡ (if in_rect x2 y2 w2 h2 col row then new else below)
covered x1 y1 w1 h1 x2 y2 w2 h2 col row old new below h =
    elim (Bool-cases (in_rect x2 y2 w2 h2 col row)) [
      | inl inside ↦ rw inside refl
      | inr outside ↦ elim (Bool-cases (in_rect x1 y1 w1 h1 col row)) [
        | inl within ↦
            let v = in_rect-Inside x1 y1 w1 h1 col row within in
            absurd (
              not_both (in_rect x2 y2 w2 h2 col row)
                (Inside-in_rect x2 y2 w2 h2 col row (record {
                  left = ground (arith, h, v.left);
                  right = ground (arith, h, v.right);
                  top = ground (arith, h, v.top);
                  bottom = ground (arith, h, v.bottom);
                }))
                outside)
        | inr without ↦ rw (outside, without) refl
      ]
    ]

superseded-show :
    (item newer : Message) (s : Screen)
    → superseded item newer ≡ true
    → show newer (show item s) ≡ show newer s
unfolding superseded show
superseded-show (Message.raw_frame _ _ _ _ _ _ _) (Message.raw_frame _ _ _ _ _ _ _) s h = refl
superseded-show (Message.subframe _ _ _ _ _ _ _ _ _) (Message.raw_frame _ _ _ _ _ _ _) s h = refl
superseded-show (Message.subframe t1 x1 y1 w1 h1 st1 f1 c1 p1)
      (Message.subframe t2 x2 y2 w2 h2 st2 f2 c2 p2) s h =
    let got1 = pixels_in (arrived (Message.subframe t1 x1 y1 w1 h1 st1 f1 c1 p1)) in
    let got2 = pixels_in (arrived (Message.subframe t2 x2 y2 w2 h2 st2 f2 c2 p2)) in
    λ i. record {
      size = s.size;
      at = λ col row.
          covered x1 y1 w1 h1 x2 y2 w2 h2 col row (pixel_of got1 st1 (col - x1) (row - y1))
            (pixel_of got2 st2 (col - x2) (row - y2)) (s.at col row) h i;
      halved = λ col row.
          covered x1 y1 w1 h1 x2 y2 w2 h2 col row (c1 == 3) (c2 == 3) (s.halved col row) h i;
    }
superseded-show _ _ s h = ground arith

superseded-frames :
    (item newer : Message)
    → superseded item newer ≡ true
    → (is_frame item ≡ true) × (is_frame newer ≡ true)
unfolding superseded
superseded-frames (Message.raw_frame _ _ _ _ _ _ _) (Message.raw_frame _ _ _ _ _ _ _) h =
    (refl, refl)
superseded-frames (Message.subframe _ _ _ _ _ _ _ _ _) (Message.raw_frame _ _ _ _ _ _ _) h =
    (refl, refl)
superseded-frames (Message.subframe _ _ _ _ _ _ _ _ _) (Message.subframe _ _ _ _ _ _ _ _ _) h =
    (refl, refl)
superseded-frames _ _ h = ground arith

-- What the writer sends of its queue gives a viewer the picture that the whole queue would give,
-- and every message that is not a frame is sent, in the order of the queue.
pub written-show_all :
    (item : Message) (queue : List Message) (s : Screen)
    → (show_all (written item queue) s ≡ show_all (item ∷ queue) s)
      × (others (written item queue) ≡ others (item ∷ queue))
unfolding written show_all others
written-show_all item [] s = (refl, refl)
written-show_all item (newer ∷ queue) s = elim (Bool-cases (superseded item newer)) [
  | inl out ↦
      let (shows, kept) = written-show_all newer queue s in
      let (a, b) = superseded-frames item newer out in
      rw (written, out, a)
        (shows ∙ ap (show_all queue) (sym (superseded-show item newer s out)), kept)
  | inr in_order ↦
      let (shows, kept) = written-show_all newer queue (show item s) in
      rw (written, in_order)
        (shows, ap (λ (ms : List Message). if is_frame item then ms else item ∷ ms) kept)
]
