-- ===== src/Host/Diff.antt =====
-- gutted-host-rs/src/main.rs: `update_row_bounds`, `diff_regions` and `extract_subrect`.
pub mod Bounds
pub mod Widen
pub mod Cells
pub mod Runs
pub mod Rows
pub mod Marks
pub mod Covers
pub mod Patches
pub mod Cut
use exo_browser_core.Common.{
  ℕ, zero, suc, ◌+◌, ◌-◌, ◌*◌, ◌%◌, ◌^◌, Bool, true, false, ◌&&◌, ◌||◌, not, Option, none, some,
  List, [], ◌∷◌, ◌++◌, length, take, drop, get_or, ltb, leb, ◌==◌, if◌then◌else◌,
}
use exo_browser_core.Wire.Reader.{from_le_bytes}
use exo_browser_core.Pixel.Bytes.{slice, bytes_eq, ◌>>=◌}

-- `a.iter().zip(b.iter())` with `pa != pb`.
abbrev pub ne_cells {ℓ} : {A : Type ℓ} → (A → A → Bool) → List A → List A → List Bool
ne_cells eq [] b = []
ne_cells eq (x ∷ a) [] = []
ne_cells eq (x ∷ a) (y ∷ b) = not (eq x y) ∷ ne_cells eq a b

-- `a == b` of two slices.
abbrev pub slices_eq {ℓ} : {A : Type ℓ} → (A → A → Bool) → List A → List A → Bool
slices_eq eq [] [] = true
slices_eq eq [] (y ∷ b) = false
slices_eq eq (x ∷ a) [] = false
slices_eq eq (x ∷ a) (y ∷ b) = eq x y && slices_eq eq a b

-- `position` and `rposition` of a cell that differs.
abbrev pub position : List Bool → Option ℕ
position [] = none
position (true ∷ ds) = some 0
position (false ∷ ds) = elim (position ds) [ none ↦ none | some i ↦ some (suc i) ]

abbrev pub rposition : List Bool → Option ℕ
rposition [] = none
rposition (d ∷ ds) = elim (rposition ds) [
  | some i ↦ some (suc i)
  | none ↦ if d then some 0 else none
]

abbrev pub unwrap_or : Option ℕ → ℕ → ℕ
unwrap_or none d = d
unwrap_or (some i) d = i

-- `s[..n]` and `s[n..]`, or `none` where the source panics.
abbrev pub up_to {ℓ} : {A : Type ℓ} → List A → ℕ → Option (List A)
up_to s n = if leb n (length s) then some (take n s) else none

abbrev pub from_on {ℓ} : {A : Type ℓ} → List A → ℕ → Option (List A)
from_on s n = if leb n (length s) then some (drop n s) else none

-- `dirty[y]`, or `none` where the source panics.
abbrev pub at_row : List Bool → ℕ → Option Bool
at_row dirty y = if ltb y (length dirty) then some (get_or dirty y false) else none

-- The bound on the left, moved to the first cell that differs before it.
abbrev pub moved_left {ℓ} : {A : Type ℓ} → (A → A → Bool) → List A → List A → ℕ → Option ℕ
moved_left eq sa sb left = elim (ltb 0 left) [
  | false ↦ some left
  | true ↦ up_to sa left >>= λ ra. up_to sb left >>= λ rb.
      some
        (if not (slices_eq eq ra rb) then unwrap_or (position (ne_cells eq ra rb)) left else left)
]

-- The bound on the right, moved to the last cell that differs behind it.
abbrev pub moved_right {ℓ} : {A : Type ℓ} → (A → A → Bool) → List A → List A → ℕ → ℕ → Option ℕ
moved_right eq sa sb w right = elim (ltb (right + 1) w) [
  | false ↦ some right
  | true ↦ from_on sa (right + 1) >>= λ ra. from_on sb (right + 1) >>= λ rb. some (
      if not (slices_eq eq ra rb)
      then (elim (rposition (ne_cells eq ra rb)) [ none ↦ right | some rx ↦ right + 1 + rx ])
      else right)
]

-- The two branches of `update_row_bounds`, whose text is one for words and for arrays of bytes.
unfoldable pub update_cell_bounds {ℓ} :
    {A : Type ℓ} → (A → A → Bool) → List A → List A → ℕ → ℕ × ℕ → Option (ℕ × ℕ)
update_cell_bounds eq sa sb w (left, right) =
    if ltb right left
    then some (elim (position (ne_cells eq sa sb)) [
      | none ↦ (left, right)
      | some lx ↦ (lx, unwrap_or (rposition (ne_cells eq sa sb)) lx)
    ])
    else (moved_left eq sa sb left >>= λ l. moved_right eq sa sb w right >>= λ r. some (l, r))

-- `as_chunks::<4>().0`.
abbrev pub chunks : List ℕ → List (List ℕ)
chunks (a ∷ b ∷ c ∷ d ∷ xs) = (a ∷ b ∷ c ∷ d ∷ []) ∷ chunks xs
chunks _ = []

abbrev pub words : List (List ℕ) → List ℕ
words [] = []
words (c ∷ cs) = from_le_bytes c ∷ words cs

-- `align_slice_u32`: the words of a slice at an address, when address and length are multiples of 4.
unfoldable pub align_slice_u32 : ℕ → List ℕ → Option (List ℕ)
align_slice_u32 addr s =
    if addr % 4 == 0 && length s % 4 == 0 then some (words (chunks s)) else none

-- The rows `ra` and `rb` stand at the addresses `at_a` and `at_b`.
unfoldable pub update_row_bounds : ℕ → ℕ → List ℕ → List ℕ → ℕ → ℕ × ℕ → Option (ℕ × ℕ)
update_row_bounds at_a at_b ra rb w (left, right) =
    if left == 0 && leb w (right + 1) then some (left, right) else elim (align_slice_u32 at_a ra) [
      | none ↦ update_cell_bounds bytes_eq (chunks ra) (chunks rb) w (left, right)
      | some sa ↦ elim (align_slice_u32 at_b rb) [
        | none ↦ update_cell_bounds bytes_eq (chunks ra) (chunks rb) w (left, right)
        | some sb ↦ update_cell_bounds ◌==◌ sa sb w (left, right)
      ]
    ]

-- Two frames of one geometry, with the addresses of their buffers. Sizes are `i32` that are not
-- negative.
pub record Frames : Type 0 where
  pub at_a : ℕ
  pub at_b : ℕ
  pub a : List ℕ
  pub b : List ℕ
  pub w : ℕ
  pub h : ℕ
  pub s : ℕ

-- What step 1 collects: `dirty`, `dirty_count`, `first_dirty`, `last_dirty`.
pub record Scan : Type 0 where
  pub dirty : List Bool
  pub dirty_count : ℕ
  pub first_dirty : ℕ
  pub last_dirty : ℕ

unfoldable pub mark : ℕ → ℕ → Bool → Scan → Scan
mark h y is_d c = record {
  dirty = c.dirty ++ (is_d ∷ []);
  dirty_count = if is_d then c.dirty_count + 1 else c.dirty_count;
  first_dirty = if is_d && c.first_dirty == h then y else c.first_dirty;
  last_dirty = if is_d then y else c.last_dirty;
}

-- The rows from `y` on; `none` where a slice is out of range.
unfoldable pub scan_rows : Frames → ℕ → ℕ → Scan → Option Scan
unfolding mark
scan_rows f zero y c = some c
scan_rows f (suc n) y c = slice f.a (y * f.s) (f.w * 4) >>= λ ra.
    slice f.b (y * f.s) (f.w * 4) >>= λ rb.
    scan_rows f n (y + 1) (mark f.h y (not (bytes_eq ra rb)) c)

-- The bounds of `n` rows from `yy` on, of which the iterator over `dirty` gives those that there are;
-- the loop ends early at the whole width.
unfoldable pub widen_rows : Frames → List Bool → ℕ → ℕ → ℕ × ℕ → Option (ℕ × ℕ)
widen_rows f dirty zero yy bounds = some bounds
widen_rows f dirty (suc n) yy bounds = elim (get_or dirty yy false) [
  | false ↦ widen_rows f dirty n (yy + 1) bounds
  | true ↦ slice f.a (yy * f.s) (f.w * 4) >>= λ ra. slice f.b (yy * f.s) (f.w * 4) >>= λ rb.
      update_row_bounds (f.at_a + yy * f.s) (f.at_b + yy * f.s) ra rb f.w bounds
      >>= λ (left, right). elim (left == 0 && leb f.w (right + 1)) [
        | true ↦ some (left, right)
        | false ↦ widen_rows f dirty n (yy + 1) (left, right)
      ]
]

-- `(1..=gap).find(|&k| y + k <= last_dirty && dirty[y + k])`, with the candidates in a list.
unfoldable pub look_ahead : List Bool → ℕ → ℕ → List ℕ → Option (Option ℕ)
look_ahead dirty last y [] = some none
look_ahead dirty last y (k ∷ ks) = elim (leb (y + k) last) [
  | false ↦ look_ahead dirty last y ks
  | true ↦ at_row dirty (y + k) >>= λ is_d. elim is_d [
    | true ↦ some (some k)
    | false ↦ look_ahead dirty last y ks
  ]
]

abbrev pub gaps : List ℕ
gaps = 1 ∷ 2 ∷ 3 ∷ 4 ∷ []

-- The inner loop of step 2: the row behind the run, and the run's last row.
unfoldable pub extend_run : ℕ → List Bool → ℕ → ℕ → ℕ → Option (ℕ × ℕ)
extend_run zero dirty last y end = some (y, end)
extend_run (suc fuel) dirty last y end = elim (leb y last) [
  | false ↦ some (y, end)
  | true ↦ at_row dirty y >>= λ is_d. elim is_d [
    | true ↦ extend_run fuel dirty last (y + 1) y
    | false ↦ look_ahead dirty last y gaps >>= λ look. elim look [
      | none ↦ some (y, end)
      | some k ↦ extend_run fuel dirty last (y + k) end
    ]
  ]
]

-- The outer loop. Each round moves `y`, so `last + 1` rounds are enough for either loop.
unfoldable pub coalesce : ℕ → List Bool → ℕ → ℕ → Option (List (ℕ × ℕ))
coalesce zero dirty last y = some []
coalesce (suc fuel) dirty last y = elim (leb y last) [
  | false ↦ some []
  | true ↦ at_row dirty y >>= λ is_d. elim is_d [
    | false ↦ coalesce fuel dirty last (y + 1)
    | true ↦ extend_run (last + 1) dirty last (y + 1) y >>= λ (y', end).
        coalesce fuel dirty last y' >>= λ runs. some ((y, end) ∷ runs)
  ]
]

pub record Region : Type 0 where
  pub x : ℕ
  pub y : ℕ
  pub w : ℕ
  pub h : ℕ

-- `(left as u16, top as u16, (right - left + 1) as u16, (bot - top + 1) as u16)`.
abbrev pub region_of : ℕ → ℕ → ℕ → ℕ → Region
region_of left right top bot = record {
  x = left % 2 ^ 16;
  y = top % 2 ^ 16;
  w = (right - left + 1) % 2 ^ 16;
  h = (bot - top + 1) % 2 ^ 16;
}

-- Step 3: the columns of each run.
unfoldable pub run_regions : Frames → List Bool → List (ℕ × ℕ) → Option (List Region)
run_regions f dirty [] = some []
run_regions f dirty ((top, bot) ∷ runs) =
    widen_rows f dirty (bot + 1 - top) top (f.w, 0) >>= λ (left, right).
    run_regions f dirty runs >>= λ out.
    some (if leb left right then region_of left right top bot ∷ out else out)

-- `vec![(min_left, ..)]` of the fast path.
unfoldable pub fast_region : Frames → Scan → Option (List Region)
fast_region f c =
    widen_rows f c.dirty (c.last_dirty + 1 - c.first_dirty) c.first_dirty (f.w, 0)
    >>= λ (left, right). some (
        (if leb left right then region_of left right c.first_dirty c.last_dirty else record {
          x = 0;
          y = c.first_dirty % 2 ^ 16;
          w = f.w % 2 ^ 16;
          h = (c.last_dirty - c.first_dirty + 1) % 2 ^ 16;
        })
        ∷ [])

unfoldable pub diff_regions : Frames → Option (List Region)
diff_regions f =
    scan_rows f f.h 0 (record { dirty = []; dirty_count = 0; first_dirty = f.h; last_dirty = 0 })
    >>= λ c.
        if c.dirty_count == 0
        then some []
        else if leb f.h (c.dirty_count * 4)
        then fast_region f c
        else (coalesce (c.last_dirty + 1) c.dirty c.last_dirty c.first_dirty >>= λ runs.
            run_regions f c.dirty runs)

-- The rows of a rectangle, one behind the other; `none` where a slice is out of range.
unfoldable pub extract_rows : List ℕ → ℕ → ℕ → ℕ → ℕ → Option (List ℕ)
extract_rows pixels s at n zero = some []
extract_rows pixels s at n (suc rows) =
    slice pixels at n >>= λ row. extract_rows pixels s (at + s) n rows >>= λ out. some (row ++ out)

unfoldable pub extract_subrect : List ℕ → ℕ → Region → Option (List ℕ)
extract_subrect pixels s r = extract_rows pixels s (r.y * s + r.x * 4) (r.w * 4) r.h
