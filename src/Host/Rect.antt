-- ===== src/Host/Rect.antt =====
-- A rectangle of pixels, as the frames of gutted-host-rs/src/main.rs have them.
use exo_browser_core.Common.{ℕ, ◌+◌, ◌≤◌, ◌<◌, ◌≡◌, refl, Bool, true, ◌&&◌, ltb, leb, arith}

abbrev pub in_rect : ℕ → ℕ → ℕ → ℕ → ℕ → ℕ → Bool
in_rect x y w h col row = leb x col && ltb col (x + w) && leb y row && ltb row (y + h)

pub record Inside (x y w h col row : ℕ) : Type 0 where
  pub left : x ≤ col
  pub right : col < x + w
  pub top : y ≤ row
  pub bottom : row < y + h

pub in_rect-Inside : (x y w h col row : ℕ) → in_rect x y w h col row ≡ true → Inside x y w h col row
in_rect-Inside x y w h col row e = record {
  left = ground (arith, e);
  right = ground (arith, e);
  top = ground (arith, e);
  bottom = ground (arith, e);
}

pub Inside-in_rect : (x y w h col row : ℕ) → Inside x y w h col row → in_rect x y w h col row ≡ true
Inside-in_rect x y w h col row v =
    let a : leb x col ≡ true = ground (arith, v.left) in
    let b : ltb col (x + w) ≡ true = ground (arith, v.right) in
    let c : leb y row ≡ true = ground (arith, v.top) in
    let d : ltb row (y + h) ≡ true = ground (arith, v.bottom) in rw (a, b, c, d) refl
