-- ===== src/Host/Diff/Marks.antt =====
-- gutted-host-rs/src/main.rs, `diff_regions`: what step 1 knows of the rows.
use exo_browser_core.Common.{
  ℕ, zero, suc, ◌+◌, ◌≤◌, ◌<◌, ◌≡◌, refl, sym, subst, ◌∙◌, Bool, true, false, not, some, List, [],
  ◌∷◌, ◌++◌, length, get_or, length-append, ◌==◌, ◌⊎◌, inl, inr, arith, not_both,
}
use exo_browser_core.Pixel.Bytes.{bytes_eq}
use exo_browser_core.Pixel.Lz4.Match.{bytes_eq-same}
use exo_browser_core.Host.Diff.{Frames, Scan, mark, scan_rows}
use exo_browser_core.Host.Diff.Runs.{Dirty}
use exo_browser_core.Host.Diff.Rows.{IsFrames, row, slice-row}

-- The rows before `y` are looked at: a row that is not marked is the same in both frames, and the
-- marked rows are between the first and the last.
pub record Marked (f : Frames) (y : ℕ) (c : Scan) : Type 0 where
  pub size : length c.dirty ≡ y
  pub same : (r : ℕ) → r < y → get_or c.dirty r false ≡ false → row f f.a r ≡ row f f.b r
  pub first : (r : ℕ) → Dirty c.dirty r → c.first_dirty ≤ r
  pub last : (r : ℕ) → Dirty c.dirty r → r ≤ c.last_dirty
  pub some_row :
      ((c.dirty_count ≡ 0) × (c.first_dirty ≡ f.h) × ((r : ℕ) → Dirty c.dirty r → ⊥))
      ⊎ ((1 ≤ c.dirty_count) × (c.first_dirty ≤ c.last_dirty) × (c.last_dirty < y))

get_or-snoc :
    (ds : List Bool) (b : Bool) (r : ℕ)
    → ((r < length ds) × (get_or (ds ++ (b ∷ [])) r false ≡ get_or ds r false))
      ⊎ (((r ≡ length ds) × (get_or (ds ++ (b ∷ [])) r false ≡ b))
          ⊎ ((length ds < r) × (get_or (ds ++ (b ∷ [])) r false ≡ false)))
get_or-snoc [] b zero = inr (inl (refl, refl))
get_or-snoc [] b (suc r) = inr (inr (omega arith, refl))
get_or-snoc (d ∷ ds) b zero = inl (omega arith, refl)
get_or-snoc (d ∷ ds) b (suc r) = elim (get_or-snoc ds b r) [
  | inl p ↦ inl (omega (arith, p.0), p.1)
  | inr q ↦
      inr (elim q [ inl p ↦ inl (omega (arith, p.0), p.1) | inr p ↦ inr (omega (arith, p.0), p.1) ])
]

-- A row that is marked now was marked before, or is the row that is looked at.
marked_before :
    (ds : List Bool) (b : Bool) (r : ℕ)
    → Dirty (ds ++ (b ∷ [])) r
    → Dirty ds r ⊎ ((r ≡ length ds) × (b ≡ true))
marked_before ds b r d = elim (get_or-snoc ds b r) [
  | inl p ↦ inl (sym p.1 ∙ d)
  | inr q ↦ elim q [
    | inl p ↦ inr (p.0, sym p.1 ∙ d)
    | inr p ↦ absurd (not_both (get_or (ds ++ (b ∷ [])) r false) d p.1)
  ]
]

same_so_far :
    (f : Frames) (y : ℕ) (c : Scan) (b : Bool)
    → Marked f y c
    → (b ≡ false → row f f.a y ≡ row f f.b y)
    → (r : ℕ) → r < suc y
    → get_or (c.dirty ++ (b ∷ [])) r false ≡ false
    → row f f.a r ≡ row f f.b r
same_so_far f y c b v now r h d = elim (get_or-snoc c.dirty b r) [
  | inl p ↦ v.same r (omega (arith, p.0, v.size)) (sym p.1 ∙ d)
  | inr q ↦ elim q [
    | inl p ↦ let e : y ≡ r = omega (arith, p.0, v.size) in rw (← e) (now (sym p.1 ∙ d))
    | inr p ↦ absurd (omega (arith, p.0, v.size))
  ]
]

-- What holds of the rows that were marked, and of the next one if it is marked, holds of all.
every_marked :
    (P : ℕ → Type 0) (ds : List Bool) (b : Bool)
    → ((r : ℕ) → Dirty ds r → P r)
    → (b ≡ true → P (length ds))
    → (r : ℕ) → Dirty (ds ++ (b ∷ [])) r
    → P r
every_marked P ds b before now r d = elim (marked_before ds b r d) [
  | inl p ↦ before r p
  | inr p ↦ subst P (sym p.0) (now p.1)
]

mark-Marked :
    (f : Frames) (y : ℕ) (c : Scan) (b : Bool)
    → y < f.h
    → Marked f y c
    → (b ≡ false → row f f.a y ≡ row f f.b y)
    → Marked f (suc y) (mark f.h y b c)
unfolding mark
mark-Marked f y c false h v now = record {
  size = omega (arith, v.size, length-append c.dirty (false ∷ []));
  same = same_so_far f y c false v now;
  first = every_marked _ c.dirty false v.first (λ t. ground (arith, t));
  last = every_marked _ c.dirty false v.last (λ t. ground (arith, t));
  some_row = elim v.some_row [
    | inl p ↦ inl (p.0, p.1, every_marked _ c.dirty false p.2 (λ t. ground (arith, t)))
    | inr p ↦ inr (p.0, p.1, omega (arith, p.2))
  ];
}
mark-Marked f y c true h v now = elim v.some_row [
  | inl p ↦
      let at_end : (c.first_dirty == f.h) ≡ true = ground (arith, p.1) in
      rw at_end (record {
        size = omega (arith, v.size, length-append c.dirty (true ∷ []));
        same = same_so_far f y c true v now;
        first = every_marked _ c.dirty true (λ r q. absurd (p.2 r q)) (λ t. omega (arith, v.size));
        last = every_marked _ c.dirty true (λ r q. absurd (p.2 r q)) (λ t. omega (arith, v.size));
        some_row = inr (omega arith, omega arith, omega arith);
      })
  | inr p ↦
      let inside : (c.first_dirty == f.h) ≡ false = ground (arith, p.1, p.2) in
      rw inside (record {
        size = omega (arith, v.size, length-append c.dirty (true ∷ []));
        same = same_so_far f y c true v now;
        first = every_marked _ c.dirty true v.first (λ t. omega (arith, v.size, p.1, p.2));
        last =
            every_marked _ c.dirty true (λ r q. omega (arith, v.last r q, p.2))
              (λ t. omega (arith, v.size));
        some_row = inr (omega arith, omega (arith, p.1, p.2), omega arith);
      })
]

pub scan_rows-Marked :
    (f : Frames) (n y : ℕ) (c : Scan)
    → IsFrames f
    → y + n ≡ f.h
    → Marked f y c
    → (c' : Scan) × (scan_rows f n y c ≡ some c') × Marked f f.h c'
unfolding scan_rows
scan_rows-Marked f zero y c v h m = (c, refl, (let e : y ≡ f.h = omega arith in rw e at m))
scan_rows-Marked f (suc n) y c v h m =
    let sa = slice-row f f.a y v v.full_a (omega arith) in
    let sb = slice-row f f.b y v v.full_b (omega arith) in
    let is_d = not (bytes_eq (row f f.a y) (row f f.b y)) in
    let next : y + 1 ≡ suc y = omega arith in
    let (c', e, t) = scan_rows-Marked f n (suc y) (mark f.h y is_d c) v (omega arith) (
      mark-Marked f y c is_d (omega arith) m
        (λ d. bytes_eq-same (row f f.a y) (row f f.b y) (ground (arith, d)))) in
    (c', rw (scan_rows, sa, sb, next) e, t)
