-- ===== src/Host/Diff/Covers.antt =====
-- gutted-host-rs/src/main.rs, `diff_regions`: the regions hold every pixel that changed.
pub mod Runs
use exo_browser_core.Common.{
  ℕ, ◌+◌, ◌-◌, ◌*◌, ◌%◌, ◌^◌, ◌≤◌, ◌<◌, ◌≡◌, refl, ap, Bool, true, false, Option, some, List, [],
  ◌∷◌, get_or, length, All, Any, leb, ◌==◌, Bool-cases, if◌then◌else◌, inl, inr, arith,
}
use exo_browser_core.Host.Diff.{
  ◌>>=◌, Frames, Scan, Region, region_of, coalesce, run_regions, fast_region, diff_regions,
}
use exo_browser_core.Host.Diff.Runs.{Dirty, Holds, IsRun, coalesce-Holds}
use exo_browser_core.Host.Diff.Widen.{InRow}
use exo_browser_core.Host.Rect.{Inside}
use exo_browser_core.Host.Diff.Cells.{pixel}
use exo_browser_core.Host.Diff.Rows.{IsFrames, Changed, widen_rows-Widened}
use exo_browser_core.Host.Diff.Marks.{scan_rows-Marked}
pub use exo_browser_core.Host.Diff.Covers.Runs.{InRegion, IsRegion, Regions}
use exo_browser_core.Host.Diff.Covers.Runs.{run_regions-Regions, fast_region-Regions}

module _ (f : Frames) (v : IsFrames f) (narrow : f.w < 2 ^ 16) (low : f.h < 2 ^ 16) where
  -- The rows from the first marked one on, whether they are taken as runs or as one region.
  marked_rows-Regions :
      (c : Scan)
      → length c.dirty ≡ f.h
      → c.first_dirty ≤ c.last_dirty
      → c.last_dirty < f.h
      → Regions f
          (λ y. Dirty c.dirty y × (c.first_dirty ≤ y) × (y ≤ c.last_dirty))
          (if leb f.h (c.dirty_count * 4)
            then fast_region f c
            else (coalesce (c.last_dirty + 1) c.dirty c.last_dirty c.first_dirty >>= λ runs.
                run_regions f c.dirty runs))
  marked_rows-Regions c size h k = elim (Bool-cases (leb f.h (c.dirty_count * 4))) [
    | inl many ↦ rw many (fast_region-Regions f v narrow low c h k)
    | inr few ↦
        let (runs, e, are_runs, holds) =
          coalesce-Holds (c.last_dirty + 1) c.dirty c.last_dirty c.first_dirty (omega arith)
            (omega arith) in
        let r = run_regions-Regions f v narrow low c.dirty c.last_dirty runs k are_runs in
        rw few (record {
          out = r.out;
          returns = rw e r.returns;
          inside = r.inside;
          covers = λ x y p q d. r.covers x y p (q.0, holds y q.1 q.2 q.0) d;
        })
  ]

  -- Two frames of one geometry with at least one column and sides below 2^16: no slice is out of
  -- range, each region is a rectangle of at least one pixel within the frame, and every pixel that is
  -- not the same in both frames lies in a region.
  pub diff_regions-Regions : Regions f (λ y. y < f.h) (diff_regions f)
  unfolding diff_regions
  diff_regions-Regions =
      let start : Scan = record {
        dirty = [];
        dirty_count = 0;
        first_dirty = f.h;
        last_dirty = 0;
      } in
      let (c, e, m) = scan_rows-Marked f f.h 0 start v (omega arith) (record {
        size = refl;
        same = λ r h d. absurd (omega arith);
        first = λ r d. ground arith;
        last = λ r d. ground arith;
        some_row = inl (refl, refl, λ r d. ground arith);
      }) in
      let dirty_of : (x y : ℕ) → y < f.h → Changed f x y → Dirty c.dirty y = (λ x y h d.
        elim (Bool-cases (get_or c.dirty y false)) [
          | inl t ↦ t
          | inr t ↦ absurd (d (ap (λ (r : List ℕ). pixel r x) (m.same y h t)))
        ]) in
      elim m.some_row [
        | inl p ↦
            let zeroth : (c.dirty_count == 0) ≡ true = ground (arith, p.0) in
            record {
              out = [];
              returns = rw (e, zeroth) refl;
              inside = tt;
              covers = λ x y h k d. absurd (p.2 y (dirty_of x y k d));
            }
        | inr p ↦
            let nonzero : (c.dirty_count == 0) ≡ false = ground (arith, p.0) in
            let r = marked_rows-Regions c m.size p.1 p.2 in
            record {
              out = r.out;
              returns = rw (e, nonzero) r.returns;
              inside = r.inside;
              covers = λ x y h k d.
                  let t = dirty_of x y k d in r.covers x y h (t, m.first y t, m.last y t) d;
            }
      ]
