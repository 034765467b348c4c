-- ===== src/Host/Diff/Patches.antt =====
-- gutted-host-rs/src/main.rs: `diff_regions` and `extract_subrect` together.
use exo_browser_core.Common.{
  ℕ, zero, suc, ◌+◌, ◌-◌, ◌*◌, ◌^◌, ◌≤◌, ◌<◌, ◌≡◌, refl, sym, ap, ◌∙◌, Bool, true, false, Option,
  none, some, List, [], ◌∷◌, ◌++◌, length, take, drop, All, Any, leb, ◌==◌, Bool-cases, ◌⊎◌, inl,
  inr, if◌then◌else◌, arith, length-take, length-drop, take-take, take-append_le, drop-append_le,
  drop-append_left, drop-add, not_both,
}
use exo_browser_core.Pixel.Lz4.Match.{bytes_eq-same}
use native.Mathlib.Nat.{mul-le-mul_right, add-mul}
use exo_browser_core.Pixel.Bytes.{slice, bytes_eq}
use exo_browser_core.Host.Diff.{
  Frames, Scan, mark, Region, scan_rows, diff_regions, extract_rows, extract_subrect,
}
use exo_browser_core.Host.Rect.{in_rect, in_rect-Inside, Inside-in_rect}
use exo_browser_core.Host.Diff.Cells.{pixel}
use exo_browser_core.Host.Diff.Rows.{IsFrames, row, slice-row, Changed}
use exo_browser_core.Host.Diff.Covers.{InRegion, IsRegion, diff_regions-Regions}

bytes_eq_refl : (r : List ℕ) → bytes_eq r r ≡ true
unfolding bytes_eq
bytes_eq_refl [] = refl
bytes_eq_refl (x ∷ r) = let e : (x == x) ≡ true = ground arith in rw e (bytes_eq_refl r)

scan_rows_same :
    (f : Frames) (n y : ℕ) (c : Scan)
    → IsFrames f
    → y + n ≡ f.h
    → ((r : ℕ) → r < f.h → row f f.a r ≡ row f f.b r)
    → c.dirty_count ≡ 0
    → (c' : Scan) × (scan_rows f n y c ≡ some c') × (c'.dirty_count ≡ 0)
unfolding scan_rows mark
scan_rows_same f zero y c v h same z = (c, refl, z)
scan_rows_same f (suc n) y c v h same z =
    let sa = slice-row f f.a y v v.full_a (omega arith) in
    let sb = slice-row f f.b y v v.full_b (omega arith) in
    let equal : bytes_eq (row f f.a y) (row f f.b y) ≡ true =
      rw (same y (omega arith)) (bytes_eq_refl (row f f.b y)) in
    let (c', e, t) = scan_rows_same f n (y + 1) (mark f.h y false c) v (omega arith) same z in
    (c', rw (scan_rows, sa, sb, equal) e, t)

-- Two frames of one geometry with at least one column, in which each row is the same: no slice is
-- out of range, and there is no region.
pub diff_regions_same :
    (f : Frames)
    → IsFrames f
    → ((r : ℕ) → r < f.h → row f f.a r ≡ row f f.b r)
    → diff_regions f ≡ some []
unfolding diff_regions
diff_regions_same f v same =
    let start : Scan = record { dirty = []; dirty_count = 0; first_dirty = f.h; last_dirty = 0 } in
    let (c, e, z) = scan_rows_same f f.h 0 start v (omega arith) same refl in
    let zeroth : (c.dirty_count == 0) ≡ true = ground (arith, z) in rw (e, zeroth) refl

-- A pixel of a slice.
pixel_at : List ℕ → ℕ → List ℕ
pixel_at p i = take 4 (drop i p)

take-drop-take :
    (m k n : ℕ) (xs : List ℕ) → m + k ≤ n → take k (drop m (take n xs)) ≡ take k (drop m xs)
take-drop-take zero k n xs h = take-take k n xs (omega arith)
take-drop-take (suc m) k zero xs h = absurd (omega arith)
take-drop-take (suc m) k (suc n) [] h = refl
take-drop-take (suc m) k (suc n) (x ∷ xs) h = take-drop-take m k n xs (omega arith)

pub pixel-row :
    (f : Frames) (p : List ℕ) (x y : ℕ)
    → x < f.w
    → pixel (row f p y) x ≡ take 4 (drop (y * f.s + x * 4) p)
pixel-row f p x y h =
    take-drop-take (x * 4) 4 (f.w * 4) (drop (y * f.s) p) (omega arith)
    ∙ ap (take 4) (sym (drop-add (y * f.s) (x * 4) p))

-- The rows that are cut out: in range, and pixel by pixel those of the frame.
record Cuts (pixels : List ℕ) (s at n rows : ℕ) (result : Option (List ℕ)) : Type 0 where
  out : List ℕ
  returns : result ≡ some out
  cuts :
      (i j : ℕ)
      → i * 4 + 4 ≤ n
      → j < rows
      → take 4 (drop (j * n + i * 4) out) ≡ take 4 (drop (at + j * s + i * 4) pixels)

extract_rows-Cuts :
    (pixels : List ℕ) (s at n rows : ℕ)
    → n ≤ s
    → at + rows * s + n ≤ length pixels + s
    → Cuts pixels s at n rows (extract_rows pixels s at n rows)
unfolding extract_rows slice
extract_rows-Cuts pixels s at n zero h k = record {
  out = [];
  returns = refl;
  cuts = λ i j p q. absurd (omega arith);
}
extract_rows-Cuts pixels s at n (suc rows) h k =
    let e : suc rows * s ≡ rows * s + s = omega arith in
    let inside : leb (at + n) (length pixels) ≡ true = ground arith in
    let cut = take n (drop at pixels) in
    let size : length cut ≡ n =
      omega (arith, length-take n (drop at pixels), length-drop at pixels) in
    let rest = extract_rows-Cuts pixels s (at + s) n rows h (omega arith) in
    record {
      out = cut ++ rest.out;
      returns = rw (extract_rows, inside, rest.returns) refl;
      cuts = λ i j.
          elim j
            as (λ m.
              i * 4 + 4 ≤ n
              → m < suc rows
              → take 4 (drop (m * n + i * 4) (cut ++ rest.out))
                ≡ take 4 (drop (at + m * s + i * 4) pixels)) [
                  | zero ↦ λ p q.
                      let z : 0 * n + i * 4 ≡ i * 4 = omega arith in
                      let z' : at + 0 * s + i * 4 ≡ at + i * 4 = omega arith in
                      rw (z, z')
                        (ap (take 4) (drop-append_le (i * 4) cut rest.out (omega (arith, size)))
                          ∙ take-append_le 4 (drop (i * 4) cut) rest.out
                              (omega (arith, length-drop (i * 4) cut, size))
                          ∙ take-drop-take (i * 4) 4 n (drop at pixels) (omega arith)
                          ∙ ap (take 4) (sym (drop-add at (i * 4) pixels)))
                  | suc m ↦ λ p q.
                      let z : suc m * n + i * 4 ≡ n + (m * n + i * 4) = omega arith in
                      let z' : at + suc m * s + i * 4 ≡ at + s + m * s + i * 4 = omega arith in
                      rw (z, z')
                        (ap (take 4) (
                            drop-add n (m * n + i * 4) (cut ++ rest.out)
                            ∙ ap (drop (m * n + i * 4)) (drop-append_left n cut rest.out size))
                          ∙ rest.cuts i m p (omega arith))
                ];
    }

abbrev contains : Region → ℕ → ℕ → Bool
contains r x y = in_rect r.x r.y r.w r.h x y

-- The pixel that a viewer of the frame `a` has, once it has put the cut out regions over it.
unfoldable pub patched : List Region → Frames → ℕ → ℕ → Option (List ℕ)
patched [] f x y = some (pixel (row f f.a y) x)
patched (r ∷ regions) f x y =
    let rest = patched regions f x y in
    if contains r x y
    then (elim (extract_subrect f.b f.s r) [
      | none ↦ none
      | some cut ↦ some (take 4 (drop ((y - r.y) * (r.w * 4) + (x - r.x) * 4) cut))
    ])
    else rest

pub cut_pixels :
    (f : Frames) (r : Region)
    → IsFrames f
    → IsRegion f r
    → (cut : List ℕ) × (extract_subrect f.b f.s r ≡ some cut)
      × ((x y : ℕ)
          → InRegion x y r
          → take 4 (drop ((y - r.y) * (r.w * 4) + (x - r.x) * 4) cut) ≡ pixel (row f f.b y) x)
unfolding extract_subrect
cut_pixels f r v i =
    let rows : (r.y + r.h) * f.s ≤ f.h * f.s =
      mul-le-mul_right {m = r.y + r.h} {n = f.h} f.s i.down in
    let split : (r.y + r.h) * f.s ≡ r.y * f.s + r.h * f.s = add-mul r.y r.h f.s in
    let c =
      extract_rows-Cuts f.b f.s (r.y * f.s + r.x * 4) (r.w * 4) r.h
        (omega (arith, v.wide, i.across)) (omega (arith, v.wide, v.full_b, i.across)) in
    (
      c.out,
      c.returns,
      λ x y p.
          let up : r.y + (y - r.y) ≡ y = omega (arith, p.top) in
          let from_row : y * f.s ≡ r.y * f.s + (y - r.y) * f.s =
            ap (λ (n : ℕ). n * f.s) (sym up) ∙ add-mul r.y (y - r.y) f.s in
          let place : r.y * f.s + r.x * 4 + (y - r.y) * f.s + (x - r.x) * 4 ≡ y * f.s + x * 4 =
            omega (arith, from_row, p.left) in
          c.cuts (x - r.x) (y - r.y) (omega (arith, p.left, p.right))
            (omega (arith, p.top, p.bottom))
          ∙ ap (λ (n : ℕ). take 4 (drop n f.b)) place
          ∙ sym (pixel-row f f.b x y (omega (arith, p.right, i.across))),
    )

-- A pixel that is in no region is the same in both frames.
pub same_or :
    (f : Frames) (x y : ℕ) (regions : List Region)
    → (Changed f x y → Any (InRegion x y) regions)
    → (pixel (row f f.a y) x ≡ pixel (row f f.b y) x) ⊎ Any (InRegion x y) regions
same_or f x y regions c =
    let pa = pixel (row f f.a y) x in
    let pb = pixel (row f f.b y) x in
    elim (Bool-cases (bytes_eq pa pb)) [
      | inl same ↦ inl (bytes_eq-same pa pb same)
      | inr differ ↦ inr (c (λ e. not_both (bytes_eq pa pb) (rw e (bytes_eq_refl pb)) differ))
    ]

patched-new :
    (f : Frames) (regions : List Region) (x y : ℕ)
    → IsFrames f
    → All (IsRegion f) regions
    → (Changed f x y → Any (InRegion x y) regions)
    → patched regions f x y ≡ some (pixel (row f f.b y) x)
unfolding patched
patched-new f [] x y v h c = elim (same_or f x y [] c) [
  | inl same ↦ ap some same
  | inr p ↦ absurd p
]
patched-new f (r ∷ regions) x y v h c = elim (Bool-cases (contains r x y)) [
  | inl here ↦
      let (cut, e, p) = cut_pixels f r v h.0 in
      rw (patched, here, e, p x y (in_rect-Inside r.x r.y r.w r.h x y here)) refl
  | inr elsewhere ↦
      rw (patched, elsewhere)
        (patched-new f regions x y v h.1 (λ d. elim (c d) [
          | inl p ↦
              absurd (not_both (contains r x y) (Inside-in_rect r.x r.y r.w r.h x y p) elsewhere)
          | inr p ↦ p
        ]))
]

-- For two frames of one geometry, with at least one column and sides below 2^16: no slice is out
-- of range, and a viewer that has the old frame and puts the cut out regions over it has the new
-- frame at every pixel.
pub diff_regions-patched :
    (f : Frames)
    → IsFrames f
    → f.w < 2 ^ 16
    → f.h < 2 ^ 16
    → (regions : List Region) × (diff_regions f ≡ some regions)
      × ((x y : ℕ) → x < f.w → y < f.h → patched regions f x y ≡ some (pixel (row f f.b y) x))
diff_regions-patched f v narrow low =
    let r = diff_regions-Regions f v narrow low in
    (r.out, r.returns, λ x y h k. patched-new f r.out x y v r.inside (r.covers x y h k))
