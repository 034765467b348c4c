-- ===== src/Pixel/Scale.antt =====
-- gutted-proto/src/lib.rs: `downsample_2x2_bgra` and `upsample_2x2_bgra`.
pub mod Total
pub mod Bytes
use exo_browser_core.Common.{
  ℕ, zero, suc, ◌+◌, ◌-◌, ◌*◌, ◌/◌, ◌%◌, min, ◌||◌, Option, some, List, [], ◌∷◌, ◌++◌, length,
  get_or, replicate, ltb, ◌==◌, if◌then◌else◌,
}
use exo_browser_core.Pixel.Bytes.{slice, half_up, ◌>>=◌}

-- `((p + q + r + s + 2) >> 2) as u8`.
abbrev pub box_average : ℕ → ℕ → ℕ → ℕ → ℕ
box_average p q r s = (p + q + r + s + 2) / 4 % 256

-- One pixel from four; the alpha byte is opaque.
abbrev pub average : (p q r s : List ℕ) → List ℕ
average p q r s = channel 0 ∷ channel 1 ∷ channel 2 ∷ 0xFF ∷ []
  where
    channel : ℕ → ℕ
    channel c = box_average (get_or p c 0) (get_or q c 0) (get_or r c 0) (get_or s c 0)

-- From two columns `x0`, `x1` of two rows; each of the four slices may panic.
unfoldable pub blend : List ℕ → List ℕ → ℕ → ℕ → Option (List ℕ)
blend row0 row1 x0 x1 = do
  p00 ← slice row0 (x0 * 4) 4
  p10 ← slice row0 (x1 * 4) 4
  p01 ← slice row1 (x0 * 4) 4
  p11 ← slice row1 (x1 * 4) 4
  some (average p00 p10 p01 p11)

-- `for qx in 0..qw`: `n` columns are left from `qx` on.
unfoldable pub down_row : ℕ → ℕ → ℕ → List ℕ → List ℕ → Option (List ℕ)
down_row zero qx w row0 row1 = some []
down_row (suc n) qx w row0 row1 = do
  let x0 = qx * 2
  let x1 = min (x0 + 1) (w - 1)
  first ← blend row0 row1 x0 x1
  others ← down_row n (qx + 1) w row0 row1
  some (first ++ others)

-- `for qy in 0..qh`: the two row slices may panic.
pub down_rows : ℕ → ℕ → List ℕ → ℕ → ℕ → Option (List ℕ)
down_rows zero qy src w h = some []
down_rows (suc n) qy src w h = do
  let stride = w * 4
  let y0 = qy * 2
  let y1 = min (y0 + 1) (h - 1)
  row0 ← slice src (y0 * stride) stride
  row1 ← slice src (y1 * stride) stride
  here ← down_row (half_up w) 0 w row0 row1
  below ← down_rows n (qy + 1) src w h
  some (here ++ below)

unfoldable pub downsample_2x2_bgra : List ℕ → ℕ → ℕ → Option (List ℕ)
unfolding down_rows down_row blend slice
downsample_2x2_bgra src w h = down_rows (half_up h) 0 src w h

-- `for x in 0..w` writes each pixel of the row once, in order.
unfoldable pub up_row : ℕ → ℕ → ℕ → List ℕ → List ℕ → Option (List ℕ)
up_row zero x qw qrow0 qrow1 = some []
up_row (suc n) x qw qrow0 qrow1 = do
  let qx0 = min (x / 2) (qw - 1)
  let qx1 = min (qx0 + x % 2) (qw - 1)
  first ← blend qrow0 qrow1 qx0 qx1
  others ← up_row n (x + 1) qw qrow0 qrow1
  some (first ++ others)

pub up_rows : ℕ → ℕ → List ℕ → ℕ → ℕ → ℕ → Option (List ℕ)
up_rows zero y qsrc w qw qh = some []
up_rows (suc n) y qsrc w qw qh = do
  let qstride = qw * 4
  let qy0 = min (y / 2) (qh - 1)
  let qy1 = min (qy0 + y % 2) (qh - 1)
  qrow0 ← slice qsrc (qy0 * qstride) qstride
  qrow1 ← slice qsrc (qy1 * qstride) qstride
  here ← up_row w 0 qw qrow0 qrow1
  below ← up_rows n (y + 1) qsrc w qw qh
  some (here ++ below)

-- A short source gives a buffer of zeros.
unfoldable pub upsample_2x2_bgra : List ℕ → ℕ → ℕ → Option (List ℕ)
unfolding up_rows up_row blend slice
upsample_2x2_bgra qsrc w h =
    let qw = half_up w in
    let qh = half_up h in
    if qw == 0 || qh == 0 || ltb (length qsrc) (qw * qh * 4)
    then some (replicate (w * h * 4) 0)
    else up_rows h 0 qsrc w qw qh
