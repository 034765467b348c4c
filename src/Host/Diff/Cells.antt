-- ===== src/Host/Diff/Cells.antt =====
-- gutted-host-rs/src/main.rs, `update_row_bounds`: the bounds hold every pixel that differs.
use exo_browser_core.Common.{
  ℕ, zero, suc, ◌+◌, ◌*◌, ◌%◌, ◌≤◌, ◌<◌, ◌≡◌, ◌≢◌, refl, sym, ap, ◌∙◌, Bool, true, false, ◌&&◌, not,
  Option, some, List, [], ◌∷◌, length, take, drop, get_or, All, leb, ==_iff, ◌==◌, Bool-cases, inl,
  inr, arith,
}
use native.Mathlib.Decide.{dec_le}
use exo_browser_core.Wire.Varint.{IsByte}
use exo_browser_core.Wire.Reader.{from_le_bytes}
use exo_browser_core.Pixel.Bytes.{bytes_eq}
use exo_browser_core.Host.Diff.{
  ne_cells, update_cell_bounds, chunks, words, align_slice_u32, update_row_bounds,
}
use exo_browser_core.Pixel.Lz4.Prefix.{from_le_bytes_injective}
use exo_browser_core.Pixel.Lz4.Match.{bytes_eq-same}
use exo_browser_core.Host.Diff.Widen.{InRow, update_cell_bounds-Widens}

-- The pixel at column `x` of a row.
abbrev pub pixel : List ℕ → ℕ → List ℕ
pixel row x = take 4 (drop (x * 4) row)

-- The bounds hold every column whose pixels are not the same.
pub record Covers (w : ℕ) (ra rb : List ℕ) (old new : ℕ × ℕ) : Type 0 where
  pub covers : (x : ℕ) → x < w → pixel ra x ≢ pixel rb x → (new.0 ≤ x) × (x ≤ new.1)
  pub keeps : (new.0 ≤ old.0) × (old.1 ≤ new.1)
  pub in_row : InRow w new

-- A row of `w` cells.
data Cells : ℕ → List ℕ → Type 0 where
  end : Cells 0 []
  cell : (w a b c d : ℕ) (r : List ℕ) → Cells w r → Cells (suc w) (a ∷ b ∷ c ∷ d ∷ r)

row-Cells : (w : ℕ) (r : List ℕ) → length r ≡ w * 4 → Cells w r
row-Cells zero [] h = Cells.end
row-Cells zero (a ∷ r) h = absurd (omega arith)
row-Cells (suc w) (a ∷ b ∷ c ∷ d ∷ r) h = Cells.cell w a b c d r (row-Cells w r (omega arith))
row-Cells (suc w) [] h = absurd (omega arith)
row-Cells (suc w) (a ∷ []) h = absurd (omega arith)
row-Cells (suc w) (a ∷ b ∷ []) h = absurd (omega arith)
row-Cells (suc w) (a ∷ b ∷ c ∷ []) h = absurd (omega arith)

-- What a comparison of the cells of two rows says of their pixels.
record Compares (w : ℕ) (ra rb : List ℕ) (ds : List Bool) : Type 0 where
  size : length ds ≡ w
  same : (x : ℕ) → x < w → get_or ds x false ≡ false → pixel ra x ≡ pixel rb x

pixel_next : (a b c d : ℕ) (r : List ℕ) (x : ℕ) → pixel (a ∷ b ∷ c ∷ d ∷ r) (suc x) ≡ pixel r x
pixel_next a b c d r x =
    let e : suc x * 4 ≡ suc (suc (suc (suc (x * 4)))) = omega arith in rw e refl

Compares-next :
    (w a b c d a' b' c' d' : ℕ) (ra rb : List ℕ) (e : Bool) (ds : List Bool)
    → Compares w ra rb ds
    → (e ≡ true → (a ∷ b ∷ c ∷ d ∷ []) ≡ (a' ∷ b' ∷ c' ∷ d' ∷ []))
    → Compares (suc w) (a ∷ b ∷ c ∷ d ∷ ra) (a' ∷ b' ∷ c' ∷ d' ∷ rb) (not e ∷ ds)
Compares-next w a b c d a' b' c' d' ra rb e ds v first = record {
  size = ap suc v.size;
  same = λ x.
      elim x
        as (λ n.
          n < suc w
          → get_or (not e ∷ ds) n false ≡ false
          → pixel (a ∷ b ∷ c ∷ d ∷ ra) n ≡ pixel (a' ∷ b' ∷ c' ∷ d' ∷ rb) n) [
            | zero ↦ λ h k. first (ground (arith, k))
            | suc n ↦ λ h k.
                pixel_next a b c d ra n
                ∙ v.same n (omega arith) k
                ∙ sym (pixel_next a' b' c' d' rb n)
          ];
}

chunks-Compares :
    (w : ℕ) (ra rb : List ℕ)
    → Cells w ra
    → Cells w rb
    → Compares w ra rb (ne_cells bytes_eq (chunks ra) (chunks rb))
chunks-Compares _ _ _ Cells.end Cells.end = record {
  size = refl;
  same = λ x h k. absurd (omega arith);
}
chunks-Compares _ _ _ (Cells.cell w a b c d ra u) (Cells.cell _ a' b' c' d' rb v) =
    Compares-next w a b c d a' b' c' d' ra rb
      (bytes_eq (a ∷ b ∷ c ∷ d ∷ []) (a' ∷ b' ∷ c' ∷ d' ∷ [])) _ (chunks-Compares w ra rb u v)
      (bytes_eq-same _ _)

words-Compares :
    (w : ℕ) (ra rb : List ℕ)
    → Cells w ra
    → Cells w rb
    → All IsByte ra
    → All IsByte rb
    → Compares w ra rb (ne_cells ◌==◌ (words (chunks ra)) (words (chunks rb)))
words-Compares _ _ _ Cells.end Cells.end ha hb = record {
  size = refl;
  same = λ x h k. absurd (omega arith);
}
words-Compares _ _ _ (Cells.cell w a b c d ra u) (Cells.cell _ a' b' c' d' rb v) ha hb =
    Compares-next w a b c d a' b' c' d' ra rb
      (from_le_bytes (a ∷ b ∷ c ∷ d ∷ []) == from_le_bytes (a' ∷ b' ∷ c' ∷ d' ∷ [])) _
      (words-Compares w ra rb u v ha.1.1.1.1 hb.1.1.1.1)
      (λ h.
        from_le_bytes_injective (a ∷ b ∷ c ∷ d ∷ []) (a' ∷ b' ∷ c' ∷ d' ∷ [])
          (ha.0, (ha.1.0, (ha.1.1.0, (ha.1.1.1.0, tt))))
          (hb.0, (hb.1.0, (hb.1.1.0, (hb.1.1.1.0, tt)))) refl
          ((==_iff (from_le_bytes (a ∷ b ∷ c ∷ d ∷ [])) (from_le_bytes (a' ∷ b' ∷ c' ∷ d' ∷ []))).0
            h))

-- No slice of the rows is out of range, and the new bounds cover what differs.
abbrev pub CoversBy : ℕ → List ℕ → List ℕ → ℕ × ℕ → Option (ℕ × ℕ) → Type 0
CoversBy w ra rb old result = (new : ℕ × ℕ) × (result ≡ some new) × Covers w ra rb old new

cells-Covers :
    {A : Type 0} (eq : A → A → Bool) (sa sb : List A) (w : ℕ) (ra rb : List ℕ) (bounds : ℕ × ℕ)
    → Compares w ra rb (ne_cells eq sa sb)
    → InRow w bounds
    → CoversBy w ra rb bounds (update_cell_bounds eq sa sb w bounds)
cells-Covers eq sa sb w ra rb (left, right) c v =
    let (new, e, u) = update_cell_bounds-Widens eq sa sb left right w c.size v in
    (
      new,
      e,
      record {
        covers = λ x h ne. elim (Bool-cases (get_or (ne_cells eq sa sb) x false)) [
          | inl d ↦ u.covers x d
          | inr d ↦ absurd (ne (c.same x h d))
        ];
        keeps = u.keeps;
        in_row = u.in_row;
      },
    )

pub whole_width :
    (left right w x : ℕ)
    → (left == 0 && leb w (right + 1)) ≡ true
    → x < w
    → (left ≤ x) × (x ≤ right)
whole_width left right w x h k = elim (dec_le w (right + 1)) [
  | yes p ↦
      elim left as (λ l. (l == 0 && leb w (right + 1)) ≡ true → (l ≤ x) × (x ≤ right)) [
        | zero ↦ λ h'. (omega arith, omega arith)
        | suc l ↦ λ h'. ground arith
      ]
        h
  | no p ↦ absurd (ground (arith, h))
]

-- For two rows of `w` pixels, wherever they stand in memory.
pub update_row_bounds-Covers :
    (at_a at_b : ℕ) (ra rb : List ℕ) (w : ℕ) (bounds : ℕ × ℕ)
    → length ra ≡ w * 4
    → length rb ≡ w * 4
    → All IsByte ra
    → All IsByte rb
    → InRow w bounds
    → CoversBy w ra rb bounds (update_row_bounds at_a at_b ra rb w bounds)
unfolding update_row_bounds align_slice_u32
update_row_bounds-Covers at_a at_b ra rb w (left, right) la lb ha hb v =
    let u = row-Cells w ra la in
    let u' = row-Cells w rb lb in
    let by_bytes =
      cells-Covers bytes_eq (chunks ra) (chunks rb) w ra rb (left, right)
        (chunks-Compares w ra rb u u') v in
    elim (Bool-cases (left == 0 && leb w (right + 1))) [
      | inl whole ↦ (
        (left, right),
        rw whole refl,
        record {
          covers = λ x h ne. whole_width left right w x whole h;
          keeps = (omega arith, omega arith);
          in_row = v;
        },
      )
      | inr part ↦ elim (Bool-cases (at_a % 4 == 0 && length ra % 4 == 0)) [
        | inr odd ↦ rw (part, odd) by_bytes
        | inl even ↦ elim (Bool-cases (at_b % 4 == 0 && length rb % 4 == 0)) [
          | inr odd ↦ rw (part, even, odd) by_bytes
          | inl both ↦
              rw (part, even, both)
                (cells-Covers ◌==◌ (words (chunks ra)) (words (chunks rb)) w ra rb (left, right)
                  (words-Compares w ra rb u u' ha hb) v)
        ]
      ]
    ]
