-- ===== src/Host/Diff/Widen.antt =====
-- gutted-host-rs/src/main.rs, `update_row_bounds`: the bounds hold every cell that differs.
pub mod Sides
use exo_browser_core.Common.{
  ℕ, ◌+◌, ◌-◌, ◌≤◌, ◌<◌, ◌≡◌, refl, sym, ap, ◌∙◌, Bool, false, ◌&&◌, not, none, some, List, [], ◌∷◌,
  le→leb, length, take, drop, get_or, ltb, if◌then◌else◌, Bool-cases, inl, inr, arith,
}
use native.Mathlib.Decide.{dec_le}
use exo_browser_core.Host.Diff.{
  ne_cells, slices_eq, position, rposition, unwrap_or, moved_left, moved_right, update_cell_bounds,
}
use exo_browser_core.Host.Diff.Bounds.{
  Differs, Differs-inside, IsFirst, IsLast, position-IsFirst, rposition-IsLast, Differs-take,
  Differs-untake, Differs-drop, slices_eq-Nowhere,
}
use exo_browser_core.Host.Diff.Widen.Sides.{
  widen_left, widen_right, moved_left-some, moved_right-some,
}

-- No cell yet, or bounds within the row.
pub record InRow (w : ℕ) (bounds : ℕ × ℕ) : Type 0 where
  pub empty : bounds.1 < bounds.0 → (bounds.0 ≡ w) × (bounds.1 ≡ 0)
  pub inside : bounds.0 ≤ bounds.1 → bounds.1 < w

-- The new bounds keep the old ones and hold every cell that differs.
pub record Widens (ds : List Bool) (w : ℕ) (old new : ℕ × ℕ) : Type 0 where
  pub covers : (x : ℕ) → Differs ds x → (new.0 ≤ x) × (x ≤ new.1)
  pub keeps : (new.0 ≤ old.0) × (old.1 ≤ new.1)
  pub in_row : InRow w new

length-ne_cells :
    {A : Type 0} (eq : A → A → Bool) (a b : List A)
    → (length (ne_cells eq a b) ≤ length a) × (length (ne_cells eq a b) ≤ length b)
length-ne_cells eq [] b = (omega arith, omega arith)
length-ne_cells eq (x ∷ a) [] = (omega arith, omega arith)
length-ne_cells eq (x ∷ a) (y ∷ b) =
    let v = length-ne_cells eq a b in (omega (arith, v), omega (arith, v))

module _ {A : Type 0} (eq : A → A → Bool) (a b : List A) (left right : ℕ) where
  first_bounds :
      (w : ℕ)
      → length (ne_cells eq a b) ≡ w
      → InRow w (left, right)
      → right < left
      → Widens
          (ne_cells eq a b)
          w
          (left, right)
          (elim (position (ne_cells eq a b)) [
            | none ↦ (left, right)
            | some lx ↦ (lx, unwrap_or (rposition (ne_cells eq a b)) lx)
          ])
  first_bounds w size v h =
      let ds = ne_cells eq a b in
      elim (position ds)
          as (λ o.
            IsFirst ds o
            → Widens ds w (left, right)
                (elim o [ none ↦ (left, right) | some lx ↦ (lx, unwrap_or (rposition ds) lx) ])) [
                  | none ↦ λ p. record {
                    covers = λ x d. absurd (p x d);
                    keeps = (omega arith, omega arith);
                    in_row = v;
                  }
                  | some lx ↦ λ p.
                      elim (rposition ds)
                          as (λ o. IsLast ds o → Widens ds w (left, right) (lx, unwrap_or o lx)) [
                            | none ↦ λ q. absurd (q lx p.0)
                            | some rx ↦ λ q. record {
                              covers = λ x d. (p.1 x d, q.1 x d);
                              keeps = (
                                omega (arith, v.empty h, Differs-inside ds lx p.0),
                                omega (arith, v.empty h),
                              );
                              in_row = record {
                                empty = λ k. absurd (omega (arith, q.1 lx p.0));
                                inside = λ k. omega (arith, Differs-inside ds rx q.0);
                              };
                            }
                          ]
                        (rposition-IsLast ds)
                ]
        (position-IsFirst ds)

  -- No slice is out of range.
  pub update_cell_bounds-Widens :
      (w : ℕ)
      → length (ne_cells eq a b) ≡ w
      → InRow w (left, right)
      → (new : ℕ × ℕ) × (update_cell_bounds eq a b w (left, right) ≡ some new)
        × Widens (ne_cells eq a b) w (left, right) new
  unfolding update_cell_bounds
  update_cell_bounds-Widens w size v = elim (Bool-cases (ltb right left)) [
    | inl none_yet ↦ (_, rw none_yet refl, first_bounds w size v (ground (arith, none_yet)))
    | inr some_yet ↦
        let (l, el, keep_l, first) = widen_left eq a b left right in
        let (r, er, keep_r, inside, last) =
          widen_right eq a b left right w size (v.inside (ground (arith, some_yet))) in
        let ordered : left ≤ right = ground (arith, some_yet) in
        let (in_a, in_b) = length-ne_cells eq a b in
        let within = v.inside ordered in
        let on_left =
          moved_left-some eq a b left right (omega (arith, size)) (omega (arith, size)) in
        let on_right =
          moved_right-some eq a b left right w (omega (arith, size)) (omega (arith, size)) in
        (
          (l, r),
          rw (some_yet, on_left, on_right, el, er) refl,
          record {
            covers = λ x d. (
              elim (dec_le left x) [ yes p ↦ omega arith | no p ↦ first x (omega arith) d ],
              elim (dec_le x right) [ yes p ↦ omega arith | no p ↦ last x (omega arith) d ],
            );
            keeps = (keep_l, keep_r);
            in_row = record { empty = λ h. absurd (omega arith); inside = λ h. inside };
          },
        )
  ]
