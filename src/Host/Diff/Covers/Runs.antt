-- ===== src/Host/Diff/Covers/Runs.antt =====
-- gutted-host-rs/src/main.rs, `diff_regions`: the regions of the runs of rows, and the single region
-- of the fast path.
use exo_browser_core.Common.{
  ℕ, ◌+◌, ◌-◌, ◌%◌, ◌^◌, ◌≤◌, ◌<◌, ◌≡◌, refl, Bool, Option, some, List, [], ◌∷◌, All, Any, leb,
  Bool-cases, inl, inr, arith,
}
use exo_browser_core.Host.Diff.{Frames, Scan, Region, region_of, run_regions, fast_region}
use exo_browser_core.Host.Diff.Runs.{Dirty, Holds, IsRun}
use exo_browser_core.Host.Diff.Widen.{InRow}
use exo_browser_core.Host.Rect.{Inside}
use exo_browser_core.Host.Diff.Rows.{IsFrames, Changed, widen_rows-Widened}

-- A pixel of a region.
abbrev pub InRegion : ℕ → ℕ → Region → Type 0
InRegion x y r = Inside r.x r.y r.w r.h x y

-- A region of at least one pixel within the frame.
pub record IsRegion (f : Frames) (r : Region) : Type 0 where
  pub across : r.x + r.w ≤ f.w
  pub down : r.y + r.h ≤ f.h
  pub some_pixel : (1 ≤ r.w) × (1 ≤ r.h)

-- What is known of a list of regions, for the rows of `IsRow`.
pub record Regions (f : Frames) (IsRow : ℕ → Type 0) (result : Option (List Region)) : Type 0 where
  pub out : List Region
  pub returns : result ≡ some out
  pub inside : All (IsRegion f) out
  pub covers : (x y : ℕ) → x < f.w → IsRow y → Changed f x y → Any (InRegion x y) out

module _ (f : Frames) (v : IsFrames f) (narrow : f.w < 2 ^ 16) (low : f.h < 2 ^ 16) where
  pub nothing_yet : InRow f.w (f.w, 0)
  nothing_yet = record { empty = λ h. (refl, refl); inside = λ h. omega (arith, v.columns) }

  pub region_of-IsRegion :
      (left right top bot : ℕ)
      → left ≤ right
      → right < f.w
      → top ≤ bot
      → bot < f.h
      → IsRegion f (region_of left right top bot)
  region_of-IsRegion left right top bot h k p q = record {
    across = omega arith;
    down = omega arith;
    some_pixel = (omega arith, omega arith);
  }

  pub region_of-InRegion :
      (left right top bot x y : ℕ)
      → right < f.w
      → bot < f.h
      → (left ≤ x) × (x ≤ right)
      → (top ≤ y) × (y ≤ bot)
      → InRegion x y (region_of left right top bot)
  region_of-InRegion left right top bot x y k q (p0, p1) (q0, q1) = record {
    left = omega arith;
    right = omega arith;
    top = omega arith;
    bottom = omega arith;
  }

  -- Runs of rows up to the last marked one.
  pub run_regions-Regions :
      (dirty : List Bool) (last : ℕ) (runs : List (ℕ × ℕ))
      → last < f.h
      → All (IsRun last) runs
      → Regions f (λ y. Dirty dirty y × Any (Holds y) runs) (run_regions f dirty runs)
  unfolding run_regions
  run_regions-Regions dirty last [] h k = record {
    out = [];
    returns = refl;
    inside = tt;
    covers = λ x y p q c. q.1;
  }
  run_regions-Regions dirty last ((top, bot) ∷ runs) h k =
      let (bounds, e, u) =
        widen_rows-Widened f dirty (bot + 1 - top) top (f.w, 0) v (omega (arith, k.0))
          nothing_yet in
      let rest = run_regions-Regions dirty last runs h k.1 in
      elim (Bool-cases (leb bounds.0 bounds.1)) [
        | inl found ↦
            let ordered : bounds.0 ≤ bounds.1 = ground (arith, found) in
            let inside = u.in_row.inside ordered in
            record {
              out = region_of bounds.0 bounds.1 top bot ∷ rest.out;
              returns = rw (run_regions, e, rest.returns, found) refl;
              inside = (
                region_of-IsRegion bounds.0 bounds.1 top bot ordered inside k.0.0
                    (omega (arith, k.0)),
                rest.inside,
              );
              covers = λ x y p q c. elim q.1 [
                | inl here ↦ inl (
                    region_of-InRegion bounds.0 bounds.1 top bot x y inside (omega (arith, k.0))
                      (u.covers x y p here.0 (omega (arith, here.1, k.0)) q.0 c) here)
                | inr later ↦ inr (rest.covers x y p (q.0, later) c)
              ];
            }
        | inr nothing ↦ record {
          out = rest.out;
          returns = rw (run_regions, e, rest.returns, nothing) refl;
          inside = rest.inside;
          covers = λ x y p q c. elim q.1 [
            | inl here ↦
                (let b = u.covers x y p here.0 (omega (arith, here.1, k.0)) q.0 c in
                  absurd (ground (arith, b.0, b.1, nothing)))
            | inr later ↦ rest.covers x y p (q.0, later) c
          ];
        }
      ]

  -- One region for all the rows from the first to the last marked one.
  pub fast_region-Regions :
      (c : Scan)
      → c.first_dirty ≤ c.last_dirty
      → c.last_dirty < f.h
      → Regions f
          (λ y. Dirty c.dirty y × (c.first_dirty ≤ y) × (y ≤ c.last_dirty))
          (fast_region f c)
  unfolding fast_region
  fast_region-Regions c h k =
      let (bounds, e, u) =
        widen_rows-Widened f c.dirty (c.last_dirty + 1 - c.first_dirty) c.first_dirty (f.w, 0) v
          (omega arith) nothing_yet in
      elim (Bool-cases (leb bounds.0 bounds.1)) [
        | inl found ↦
            let ordered : bounds.0 ≤ bounds.1 = ground (arith, found) in
            let inside = u.in_row.inside ordered in
            record {
              out = region_of bounds.0 bounds.1 c.first_dirty c.last_dirty ∷ [];
              returns = rw (fast_region, e, found) refl;
              inside = (
                region_of-IsRegion bounds.0 bounds.1 c.first_dirty c.last_dirty ordered inside h k,
                tt,
              );
              covers = λ x y p q d. inl (
                  region_of-InRegion bounds.0 bounds.1 c.first_dirty c.last_dirty x y inside k
                    (u.covers x y p q.1 (omega (arith, q.2)) q.0 d) (q.1, q.2));
            }
        | inr nothing ↦
            let whole : Region = record {
              x = 0;
              y = c.first_dirty % 2 ^ 16;
              w = f.w % 2 ^ 16;
              h = (c.last_dirty - c.first_dirty + 1) % 2 ^ 16;
            } in
            record {
              out = whole ∷ [];
              returns = rw (fast_region, e, nothing) refl;
              inside = (
                record {
                  across = omega arith;
                  down = omega arith;
                  some_pixel = (omega (arith, v.columns), omega arith);
                },
                tt,
              );
              covers = λ x y p q d. inl (record {
                left = omega arith;
                right = omega arith;
                top = omega (arith, q.1);
                bottom = omega (arith, q.2);
              });
            }
      ]
