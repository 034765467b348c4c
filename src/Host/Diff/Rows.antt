-- ===== src/Host/Diff/Rows.antt =====
-- gutted-host-rs/src/main.rs, `diff_regions`: which rows changed, and the bounds of their columns.
use exo_browser_core.Common.{
  ℕ, zero, suc, ◌+◌, ◌*◌, ◌≤◌, ◌<◌, ◌≡◌, ◌≢◌, refl, ◌∙◌, Bool, true, false, ◌&&◌, Option, some,
  List, length, take, drop, get_or, All, All-take, All-drop, length-take, length-drop, leb, ◌==◌,
  Bool-cases, inl, inr, arith, not_both,
}
use native.Mathlib.Decide.{dec_le}
use native.Mathlib.Nat.{mul-le-mul_right}
use exo_browser_core.Wire.Varint.{IsByte}
use exo_browser_core.Pixel.Bytes.{slice}
use exo_browser_core.Host.Diff.{Frames, widen_rows}
use exo_browser_core.Host.Diff.Runs.{Dirty}
use exo_browser_core.Host.Diff.Widen.{InRow}
use exo_browser_core.Host.Diff.Cells.{Covers, pixel, whole_width, update_row_bounds-Covers}

-- Two frames whose rows of `w` pixels all stand in their buffers.
pub record IsFrames (f : Frames) : Type 0 where
  pub columns : 1 ≤ f.w
  pub wide : f.w * 4 ≤ f.s
  pub full_a : f.h * f.s ≤ length f.a
  pub full_b : f.h * f.s ≤ length f.b
  pub bytes_a : All IsByte f.a
  pub bytes_b : All IsByte f.b

abbrev pub row : Frames → List ℕ → ℕ → List ℕ
row f p y = take (f.w * 4) (drop (y * f.s) p)

row_end : (f : Frames) (y : ℕ) → IsFrames f → y < f.h → y * f.s + f.w * 4 ≤ f.h * f.s
row_end f y v h =
    let step : suc y * f.s ≤ f.h * f.s = mul-le-mul_right {m = suc y} {n = f.h} f.s h in
    let e : suc y * f.s ≡ y * f.s + f.s = omega arith in omega (arith, v.wide)

pub slice-row :
    (f : Frames) (p : List ℕ) (y : ℕ)
    → IsFrames f
    → f.h * f.s ≤ length p
    → y < f.h
    → slice p (y * f.s) (f.w * 4) ≡ some (row f p y)
unfolding slice
slice-row f p y v full h =
    let inside : leb (y * f.s + f.w * 4) (length p) ≡ true = ground (arith, row_end f y v h) in
    rw inside refl

pub length-row :
    (f : Frames) (p : List ℕ) (y : ℕ)
    → IsFrames f
    → f.h * f.s ≤ length p
    → y < f.h
    → length (row f p y) ≡ f.w * 4
length-row f p y v full h =
    omega
      (arith, length-take (f.w * 4) (drop (y * f.s) p), length-drop (y * f.s) p, row_end f y v h)

-- A pixel that is not the same in both frames.
abbrev pub Changed : Frames → ℕ → ℕ → Type 0
Changed f x y = pixel (row f f.a y) x ≢ pixel (row f f.b y) x

-- What `n` rows from `yy` on make of the bounds.
pub record Widened (f : Frames) (dirty : List Bool) (n yy : ℕ) (old new : ℕ × ℕ) : Type 0 where
  pub covers :
      (x y : ℕ)
      → x < f.w
      → yy ≤ y
      → y < yy + n
      → Dirty dirty y
      → Changed f x y
      → (new.0 ≤ x) × (x ≤ new.1)
  pub keeps : (new.0 ≤ old.0) × (old.1 ≤ new.1)
  pub in_row : InRow f.w new

abbrev WidenedBy : Frames → List Bool → ℕ → ℕ → ℕ × ℕ → Option (ℕ × ℕ) → Type 0
WidenedBy f dirty n yy old result =
    (new : ℕ × ℕ) × (result ≡ some new) × Widened f dirty n yy old new

-- A row that is not marked in front of the others.
Widened-unmarked :
    {f : Frames} {dirty : List Bool} {n yy : ℕ} {old new : ℕ × ℕ}
    → get_or dirty yy false ≡ false
    → Widened f dirty n (yy + 1) old new
    → Widened f dirty (suc n) yy old new
Widened-unmarked {f} {dirty} {n} {yy} same u = record {
  covers = λ x y k p q d c. elim (dec_le (yy + 1) y) [
    | yes later ↦ u.covers x y k later (omega arith) d c
    | no first ↦
        let e : yy ≡ y = omega arith in absurd (not_both (get_or dirty y false) d (rw (← e) same))
  ];
  keeps = u.keeps;
  in_row = u.in_row;
}

-- A row that is looked at in front of the others.
Widened-marked :
    {f : Frames} {dirty : List Bool} {n yy : ℕ} {old next new : ℕ × ℕ}
    → Covers f.w (row f f.a yy) (row f f.b yy) old next
    → Widened f dirty n (yy + 1) next new
    → Widened f dirty (suc n) yy old new
Widened-marked {f} {dirty} {n} {yy} u t = record {
  covers = λ x y k p q d c. elim (dec_le (yy + 1) y) [
    | yes later ↦ t.covers x y k later (omega arith) d c
    | no first ↦
        let e : y ≡ yy = omega arith in
        let (low, high) = u.covers x k (rw e at c) in
        (omega (arith, t.keeps), omega (arith, t.keeps))
  ];
  keeps = (omega (arith, u.keeps, t.keeps), omega (arith, u.keeps, t.keeps));
  in_row = t.in_row;
}

row-IsByte : (f : Frames) (p : List ℕ) (y : ℕ) → All IsByte p → All IsByte (row f p y)
row-IsByte f p y v = All-take IsByte (f.w * 4) (drop (y * f.s) p) (All-drop IsByte (y * f.s) p v)

pub widen_rows-Widened :
    (f : Frames) (dirty : List Bool) (n yy : ℕ) (bounds : ℕ × ℕ)
    → IsFrames f
    → yy + n ≤ f.h
    → InRow f.w bounds
    → WidenedBy f dirty n yy bounds (widen_rows f dirty n yy bounds)
unfolding widen_rows
widen_rows-Widened f dirty zero yy bounds v h r = (
  bounds,
  refl,
  record {
    covers = λ x y k p q d c. absurd (omega arith);
    keeps = (omega arith, omega arith);
    in_row = r;
  },
)
widen_rows-Widened f dirty (suc n) yy bounds v h r = elim (Bool-cases (get_or dirty yy false)) [
  | inr same ↦
      let (new, e, u) = widen_rows-Widened f dirty n (yy + 1) bounds v (omega arith) r in
      (new, rw (widen_rows, same) e, Widened-unmarked same u)
  | inl changed ↦
      let sa = slice-row f f.a yy v v.full_a (omega arith) in
      let sb = slice-row f f.b yy v v.full_b (omega arith) in
      let ra = row f f.a yy in
      let rb = row f f.b yy in
      let (next, en, u) =
        update_row_bounds-Covers (f.at_a + yy * f.s) (f.at_b + yy * f.s) ra rb f.w bounds
          (length-row f f.a yy v v.full_a (omega arith))
          (length-row f f.b yy v v.full_b (omega arith)) (row-IsByte f f.a yy v.bytes_a)
          (row-IsByte f f.b yy v.bytes_b) r in
      let opened : widen_rows f dirty (suc n) yy bounds
          ≡ (elim (next.0 == 0 && leb f.w (next.1 + 1)) [
            | true ↦ some next
            | false ↦ widen_rows f dirty n (yy + 1) next
          ]) =
        rw (widen_rows, changed, sa, sb, en) refl in
      elim (Bool-cases (next.0 == 0 && leb f.w (next.1 + 1))) [
        | inl whole ↦ (
          next,
          opened ∙ rw whole refl,
          record {
            covers = λ x y k p q d c. whole_width next.0 next.1 f.w x whole k;
            keeps = u.keeps;
            in_row = u.in_row;
          },
        )
        | inr part ↦
            let (new, e, t) = widen_rows-Widened f dirty n (yy + 1) next v (omega arith) u.in_row in
            (new, opened ∙ rw part e, Widened-marked u t)
      ]
]
