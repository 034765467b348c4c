-- ===== src/Pixel/Scale/Bytes.antt =====
-- gutted-proto/src/lib.rs: `downsample_2x2_bgra` gives bytes.
use exo_browser_core.Common.{
  ℕ, zero, suc, ◌+◌, ◌-◌, ◌*◌, ◌≡◌, Option, none, some, List, ◌++◌, All, All-append, min, subst,
  arith,
}
use exo_browser_core.Wire.Varint.{IsByte}
use exo_browser_core.Pixel.Bytes.{slice, half_up, ◌>>=◌}
use exo_browser_core.Pixel.Scale.{blend, down_row, down_rows, downsample_2x2_bgra}

-- What a computation gives, if it gives anything, are bytes.
abbrev Gives : Option (List ℕ) → Type 0
Gives o = elim o [ none ↦ Unit {0} | some out ↦ All IsByte out ]

Gives-bind :
    {A : Type 0} (o : Option A) (f : A → Option (List ℕ))
    → ((a : A) → Gives (f a))
    → Gives (o >>= f)
Gives-bind none f each = tt
Gives-bind (some a) f each = each a

Gives-append :
    (o p : Option (List ℕ)) → Gives o → Gives p → Gives (o >>= λ a. p >>= λ b. some (a ++ b))
Gives-append none p v w = tt
Gives-append (some a) none v w = tt
Gives-append (some a) (some b) v w = All-append IsByte a b v w

blend-Gives : (row0 row1 : List ℕ) (x0 x1 : ℕ) → Gives (blend row0 row1 x0 x1)
unfolding blend
blend-Gives row0 row1 x0 x1 = Gives-bind (slice row0 (x0 * 4) 4) _ λ p00.
    Gives-bind (slice row0 (x1 * 4) 4) _ λ p10. Gives-bind (slice row1 (x0 * 4) 4) _ λ p01.
      Gives-bind (slice row1 (x1 * 4) 4) _
        λ p11. (omega arith, (omega arith, (omega arith, (omega arith, tt))))

down_row-Gives : (n qx w : ℕ) (row0 row1 : List ℕ) → Gives (down_row n qx w row0 row1)
unfolding down_row
down_row-Gives zero qx w row0 row1 = tt
down_row-Gives (suc n) qx w row0 row1 =
    Gives-append (blend row0 row1 (qx * 2) (min (qx * 2 + 1) (w - 1)))
      (down_row n (qx + 1) w row0 row1) (blend-Gives row0 row1 _ _)
      (down_row-Gives n (qx + 1) w row0 row1)

down_rows-Gives : (n qy : ℕ) (src : List ℕ) (w h : ℕ) → Gives (down_rows n qy src w h)
unfolding down_rows
down_rows-Gives zero qy src w h = tt
down_rows-Gives (suc n) qy src w h = Gives-bind (slice src (qy * 2 * (w * 4)) (w * 4)) _ λ row0.
    Gives-bind (slice src (min (qy * 2 + 1) (h - 1) * (w * 4)) (w * 4)) _ λ row1.
      Gives-append (down_row (half_up w) 0 w row0 row1) (down_rows n (qy + 1) src w h)
        (down_row-Gives (half_up w) 0 w row0 row1) (down_rows-Gives n (qy + 1) src w h)

pub downsample-valid :
    (src : List ℕ) (w h : ℕ) (out : List ℕ)
    → downsample_2x2_bgra src w h ≡ some out
    → All IsByte out
unfolding downsample_2x2_bgra
downsample-valid src w h out e = subst Gives e (down_rows-Gives (half_up h) 0 src w h)
