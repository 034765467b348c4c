-- ===== src/Host/Diff/Widen/Sides.antt =====
-- gutted-host-rs/src/main.rs, `update_row_bounds`: each bound on its own.
use exo_browser_core.Common.{
  ℕ, ◌+◌, ◌-◌, ◌≤◌, ◌<◌, ◌≡◌, refl, sym, ap, ◌∙◌, Bool, false, ◌&&◌, not, none, some, List, le→leb,
  length, take, drop, get_or, ltb, if◌then◌else◌, Bool-cases, inl, inr, arith,
}
use exo_browser_core.Host.Diff.{
  ne_cells, slices_eq, position, rposition, unwrap_or, moved_left, moved_right,
}
use exo_browser_core.Host.Diff.Bounds.{
  Differs, Differs-inside, IsFirst, IsLast, position-IsFirst, rposition-IsLast, Differs-take,
  Differs-untake, Differs-drop, slices_eq-Nowhere,
}

module _ {A : Type 0} (eq : A → A → Bool) (a b : List A) (left right : ℕ) where
  -- The first cell that differs before `left`.
  pub widen_left :
      (l : ℕ) × ((if ltb 0 left && not (slices_eq eq (take left a) (take left b))
          then unwrap_or (position (ne_cells eq (take left a) (take left b))) left
          else left)
        ≡ l)
      × (l ≤ left)
      × ((x : ℕ) → x < left → Differs (ne_cells eq a b) x → l ≤ x)
  widen_left = elim (Bool-cases (ltb 0 left && not (slices_eq eq (take left a) (take left b)))) [
    | inr same ↦ (
      left,
      rw same refl,
      omega arith,
      λ x h d. absurd (
          slices_eq-Nowhere eq (take left a) (take left b) (ground (arith, same)) x
            (Differs-take eq left a b x h d)),
    )
    | inl differ ↦
        elim (position (ne_cells eq (take left a) (take left b)))
            as (λ o.
              IsFirst (ne_cells eq (take left a) (take left b)) o
              → (l : ℕ) × ((if ltb 0 left && not (slices_eq eq (take left a) (take left b))
                    then unwrap_or o left
                    else left)
                  ≡ l)
                × (l ≤ left)
                × ((x : ℕ) → x < left → Differs (ne_cells eq a b) x → l ≤ x)) [
                  | none ↦ λ p. (
                    left,
                    rw differ refl,
                    omega arith,
                    λ x h d. absurd (p x (Differs-take eq left a b x h d)),
                  )
                  | some i ↦ λ p.
                      let (h, _) = Differs-untake eq left a b i p.0 in
                      (
                        i,
                        rw differ refl,
                        omega arith,
                        λ x k d. p.1 x (Differs-take eq left a b x k d),
                      )
                ]
          (position-IsFirst (ne_cells eq (take left a) (take left b)))
  ]

  -- The last cell that differs behind `right`.
  pub widen_right :
      (w : ℕ)
      → length (ne_cells eq a b) ≡ w
      → right < w
      → (r : ℕ) × ((if ltb (right + 1) w
              && not (slices_eq eq (drop (right + 1) a) (drop (right + 1) b))
            then (elim (rposition (ne_cells eq (drop (right + 1) a) (drop (right + 1) b))) [
              | none ↦ right
              | some rx ↦ right + 1 + rx
            ])
            else right)
          ≡ r)
        × (right ≤ r)
        × (r < w)
        × ((x : ℕ) → right < x → Differs (ne_cells eq a b) x → x ≤ r)
  widen_right w size h =
      elim (Bool-cases
        (ltb (right + 1) w && not (slices_eq eq (drop (right + 1) a) (drop (right + 1) b)))) [
          | inr same ↦ (
            right,
            rw same refl,
            omega arith,
            h,
            λ x k d.
                let inside : x < w = omega (arith, Differs-inside (ne_cells eq a b) x d) in
                absurd (
                  slices_eq-Nowhere eq (drop (right + 1) a) (drop (right + 1) b)
                    (ground (arith, same)) (x - (right + 1)) (behind x k d)),
          )
          | inl differ ↦
              elim (rposition (ne_cells eq (drop (right + 1) a) (drop (right + 1) b)))
                  as (λ o.
                    IsLast (ne_cells eq (drop (right + 1) a) (drop (right + 1) b)) o
                    → (r : ℕ) × ((if ltb (right + 1) w
                            && not (slices_eq eq (drop (right + 1) a) (drop (right + 1) b))
                          then (elim o [ none ↦ right | some rx ↦ right + 1 + rx ])
                          else right)
                        ≡ r)
                      × (right ≤ r)
                      × (r < w)
                      × ((x : ℕ) → right < x → Differs (ne_cells eq a b) x → x ≤ r)) [
                        | none ↦ λ p. (
                          right,
                          rw differ refl,
                          omega arith,
                          h,
                          λ x k d. absurd (p (x - (right + 1)) (behind x k d)),
                        )
                        | some i ↦ λ p.
                            let d = sym (Differs-drop eq (right + 1) a b i) ∙ p.0 in
                            (
                              right + 1 + i,
                              rw differ refl,
                              omega arith,
                              omega (arith, Differs-inside (ne_cells eq a b) (right + 1 + i) d),
                              λ x k d. omega (arith, p.1 (x - (right + 1)) (behind x k d)),
                            )
                      ]
                (rposition-IsLast (ne_cells eq (drop (right + 1) a) (drop (right + 1) b)))
        ]
    where
      behind :
          (x : ℕ)
          → right < x
          → Differs (ne_cells eq a b) x
          → Differs (ne_cells eq (drop (right + 1) a) (drop (right + 1) b)) (x - (right + 1))
      behind x k d =
          let e : right + 1 + (x - (right + 1)) ≡ x = omega arith in
          Differs-drop eq (right + 1) a b (x - (right + 1))
          ∙ ap (λ (n : ℕ). get_or (ne_cells eq a b) n false) e
          ∙ d

  pub moved_left-some :
      left ≤ length a
      → left ≤ length b
      → moved_left eq a b left
        ≡ some (
            if ltb 0 left && not (slices_eq eq (take left a) (take left b))
            then unwrap_or (position (ne_cells eq (take left a) (take left b))) left
            else left)
  moved_left-some ha hb = elim (Bool-cases (ltb 0 left)) [
    | inl p ↦ rw (moved_left, p, le→leb left (length a) ha, le→leb left (length b) hb) refl
    | inr p ↦ rw (moved_left, p) refl
  ]

  pub moved_right-some :
      (w : ℕ)
      → w ≤ length a
      → w ≤ length b
      → moved_right eq a b w right
        ≡ some (
            if ltb (right + 1) w && not (slices_eq eq (drop (right + 1) a) (drop (right + 1) b))
            then (elim (rposition (ne_cells eq (drop (right + 1) a) (drop (right + 1) b))) [
              | none ↦ right
              | some rx ↦ right + 1 + rx
            ])
            else right)
  moved_right-some w ha hb = elim (Bool-cases (ltb (right + 1) w)) [
    | inl p ↦
        let in_a = le→leb (right + 1) (length a) (ground (arith, p, ha)) in
        let in_b = le→leb (right + 1) (length b) (ground (arith, p, hb)) in
        rw (moved_right, p, in_a, in_b) refl
    | inr p ↦ rw (moved_right, p) refl
  ]
