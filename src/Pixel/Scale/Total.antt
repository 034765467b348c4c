-- ===== src/Pixel/Scale/Total.antt =====
-- gutted-proto/src/lib.rs: `downsample_2x2_bgra` and `upsample_2x2_bgra` index no slice out of range
-- and give pictures of the size that they are asked for.
use exo_browser_core.Common.{
  ℕ, zero, suc, ◌+◌, ◌-◌, ◌*◌, ◌/◌, ◌%◌, ◌<◌, ◌≤◌, ◌≡◌, refl, sym, ap, ◌∙◌, min, some, List, [],
  ◌++◌, length, take, drop, ltb, ◌==◌, ◌||◌, arith, Bool-cases, inl, inr, length-append,
  length-take, length-drop, length-replicate, replicate, le→leb,
}
use native.Mathlib.Nat.{mul_comm, mul_assoc, mul-le-mul_right, suc-mul, zero-mul}
use exo_browser_core.Pixel.Bytes.{slice, half_up}
use exo_browser_core.Pixel.Scale.{
  average, blend, down_row, down_rows, downsample_2x2_bgra, up_row, up_rows, upsample_2x2_bgra,
}

slice-some :
    (s : List ℕ) (from n : ℕ) → from + n ≤ length s → slice s from n ≡ some (take n (drop from s))
unfolding slice
slice-some s from n h = rw (le→leb (from + n) (length s) h)

pub rows_of_pixels : (w h : ℕ) → h * (w * 4) ≡ w * h * 4
rows_of_pixels w h = sym (mul_assoc h w 4) ∙ ap (λ n. n * 4) (mul_comm h w)

-- A row that is one of `m` rows lies in the picture.
row_fits : (q m k n : ℕ) → q < m → m * k ≤ n → q * k + k ≤ n
row_fits q m k n h e =
    let next : suc q ≤ m = omega arith in omega (arith, mul-le-mul_right k next, suc-mul q k)

-- A row of `n` pixels, cut out of a longer list.
length-row : (s : List ℕ) (from n : ℕ) → from + n ≤ length s → length (take n (drop from s)) ≡ n
length-row s from n h = omega (arith, length-take n (drop from s), length-drop from s)

-- Two columns of two rows of `w` pixels.
blend-some :
    (w : ℕ) (row0 row1 : List ℕ) (x0 x1 : ℕ)
    → length row0 ≡ w * 4
    → length row1 ≡ w * 4
    → x0 < w
    → x1 < w
    → (out : List ℕ) × (blend row0 row1 x0 x1 ≡ some out) × (length out ≡ 4)
unfolding blend
blend-some w row0 row1 x0 x1 l0 l1 h0 h1 =
    let p00 = slice-some row0 (x0 * 4) 4 (omega arith) in
    let p10 = slice-some row0 (x1 * 4) 4 (omega arith) in
    let p01 = slice-some row1 (x0 * 4) 4 (omega arith) in
    let p11 = slice-some row1 (x1 * 4) 4 (omega arith) in
    (
      average (take 4 (drop (x0 * 4) row0)) (take 4 (drop (x1 * 4) row0))
          (take 4 (drop (x0 * 4) row1)) (take 4 (drop (x1 * 4) row1)),
      rw (p00, p10, p01, p11) refl,
      refl,
    )

up_row-some :
    (n x qw : ℕ) (qrow0 qrow1 : List ℕ)
    → 1 ≤ qw
    → length qrow0 ≡ qw * 4
    → length qrow1 ≡ qw * 4
    → (out : List ℕ) × (up_row n x qw qrow0 qrow1 ≡ some out) × (length out ≡ n * 4)
unfolding up_row
up_row-some zero x qw qrow0 qrow1 h l0 l1 = ([], refl, refl)
up_row-some (suc n) x qw qrow0 qrow1 h l0 l1 =
    let qx0 = min (x / 2) (qw - 1) in
    let qx1 = min (qx0 + x % 2) (qw - 1) in
    let (first, e, l) = blend-some qw qrow0 qrow1 qx0 qx1 l0 l1 (omega arith) (omega arith) in
    let (others, e', l') = up_row-some n (x + 1) qw qrow0 qrow1 h l0 l1 in
    (first ++ others, rw (e, e') refl, omega (arith, length-append first others, l, l'))

-- The columns from `qx` on.
down_row-some :
    (n qx w : ℕ) (row0 row1 : List ℕ)
    → qx + n ≤ half_up w
    → length row0 ≡ w * 4
    → length row1 ≡ w * 4
    → (out : List ℕ) × (down_row n qx w row0 row1 ≡ some out) × (length out ≡ n * 4)
unfolding down_row
down_row-some zero qx w row0 row1 h l0 l1 = ([], refl, refl)
down_row-some (suc n) qx w row0 row1 h l0 l1 =
    let x0 = qx * 2 in
    let x1 = min (x0 + 1) (w - 1) in
    let (first, e, l) = blend-some w row0 row1 x0 x1 l0 l1 (omega arith) (omega arith) in
    let (others, e', l') = down_row-some n (qx + 1) w row0 row1 (omega arith) l0 l1 in
    (first ++ others, rw (e, e') refl, omega (arith, length-append first others, l, l'))

-- The rows from `qy` on.
down_rows-some :
    (n qy : ℕ) (src : List ℕ) (w h : ℕ)
    → qy + n ≤ half_up h
    → h * (w * 4) ≤ length src
    → (out : List ℕ) × (down_rows n qy src w h ≡ some out) × (length out ≡ n * (half_up w * 4))
unfolding down_rows
down_rows-some zero qy src w h k e = ([], refl, sym (zero-mul (half_up w * 4)))
down_rows-some (suc n) qy src w h k e =
    let y0 = qy * 2 in
    let y1 = min (y0 + 1) (h - 1) in
    let f0 = row_fits y0 h (w * 4) (length src) (omega arith) e in
    let f1 = row_fits y1 h (w * 4) (length src) (omega arith) e in
    let (here, q, m) =
      down_row-some (half_up w) 0 w (take (w * 4) (drop (y0 * (w * 4)) src))
        (take (w * 4) (drop (y1 * (w * 4)) src)) (omega arith)
        (length-row src (y0 * (w * 4)) (w * 4) f0) (length-row src (y1 * (w * 4)) (w * 4) f1) in
    let (below, p, l) = down_rows-some n (qy + 1) src w h (omega arith) e in
    (
      here ++ below,
      rw (slice-some src (y0 * (w * 4)) (w * 4) f0, slice-some src (y1 * (w * 4)) (w * 4) f1, q, p)
          refl,
      omega (arith, length-append here below, m, l, suc-mul n (half_up w * 4)),
    )

up_rows-some :
    (n y : ℕ) (qsrc : List ℕ) (w qw qh : ℕ)
    → 1 ≤ qw
    → 1 ≤ qh
    → qh * (qw * 4) ≤ length qsrc
    → (out : List ℕ) × (up_rows n y qsrc w qw qh ≡ some out) × (length out ≡ n * (w * 4))
unfolding up_rows
up_rows-some zero y qsrc w qw qh j k e = ([], refl, sym (zero-mul (w * 4)))
up_rows-some (suc n) y qsrc w qw qh j k e =
    let qy0 = min (y / 2) (qh - 1) in
    let qy1 = min (qy0 + y % 2) (qh - 1) in
    let f0 = row_fits qy0 qh (qw * 4) (length qsrc) (omega arith) e in
    let f1 = row_fits qy1 qh (qw * 4) (length qsrc) (omega arith) e in
    let (here, q, m) =
      up_row-some w 0 qw (take (qw * 4) (drop (qy0 * (qw * 4)) qsrc))
        (take (qw * 4) (drop (qy1 * (qw * 4)) qsrc)) j
        (length-row qsrc (qy0 * (qw * 4)) (qw * 4) f0)
        (length-row qsrc (qy1 * (qw * 4)) (qw * 4) f1) in
    let (below, p, l) = up_rows-some n (y + 1) qsrc w qw qh j k e in
    (
      here ++ below,
      rw
          (
            slice-some qsrc (qy0 * (qw * 4)) (qw * 4) f0,
            slice-some qsrc (qy1 * (qw * 4)) (qw * 4) f1,
            q,
            p,
          )
          refl,
      omega (arith, length-append here below, m, l, suc-mul n (w * 4)),
    )

-- Halving a picture of `h` rows of `w` pixels does not panic, and gives the rounded up half of the
-- rows with the rounded up half of the pixels each.
pub downsample-some :
    (src : List ℕ) (w h : ℕ)
    → h * (w * 4) ≤ length src
    → (out : List ℕ) × (downsample_2x2_bgra src w h ≡ some out)
      × (length out ≡ half_up h * (half_up w * 4))
unfolding downsample_2x2_bgra
downsample-some src w h e = down_rows-some (half_up h) 0 src w h (omega arith) e

-- Doubling panics on no source, a short one too, and gives `h` rows of `w` pixels.
pub upsample-some :
    (qsrc : List ℕ) (w h : ℕ)
    → (out : List ℕ) × (upsample_2x2_bgra qsrc w h ≡ some out) × (length out ≡ w * h * 4)
unfolding upsample_2x2_bgra
upsample-some qsrc w h =
    elim (Bool-cases
      (half_up w == 0 || half_up h == 0 || ltb (length qsrc) (half_up w * half_up h * 4))) [
        | inl short ↦ (replicate (w * h * 4) 0, rw (short) refl, length-replicate (w * h * 4) 0)
        | inr full ↦
            let columns : 1 ≤ half_up w = ground (arith, full) in
            let rows : 1 ≤ half_up h = ground (arith, full) in
            let room : half_up w * half_up h * 4 ≤ length qsrc = ground (arith, full) in
            let (out, p, l) =
              up_rows-some h 0 qsrc w (half_up w) (half_up h) columns rows
                (rw (rows_of_pixels (half_up w) (half_up h)) room) in
            (out, rw full p, l ∙ rows_of_pixels w h)
      ]
