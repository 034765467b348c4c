-- ===== src/Pixel/Bytes.antt =====
-- Byte arithmetic and the slices that the pixel code takes.
use exo_browser_core.Common.{
  ℕ, ◌+◌, ◌-◌, ◌/◌, ◌%◌, Bool, true, false, ◌&&◌, Option, none, some, List, [], ◌∷◌, ◌++◌, length,
  take, drop, replicate, leb, ◌==◌, if◌then◌else◌,
}

-- `wrapping_sub` and `wrapping_add` of a `u8`.
abbrev pub wrapping_sub : ℕ → ℕ → ℕ
wrapping_sub a b = (a + 256 - b) % 256

abbrev pub wrapping_add : ℕ → ℕ → ℕ
wrapping_add a b = (a + b) % 256

-- `v.resize(n, 0)`.
unfoldable pub resize : List ℕ → ℕ → List ℕ
resize v n = take n v ++ replicate (n - length v) 0

-- `&s[from..from + n]`, or `none` where the source panics.
unfoldable pub slice : List ℕ → ℕ → ℕ → Option (List ℕ)
slice s from n = if leb (from + n) (length s) then some (take n (drop from s)) else none

-- `a == b` of two slices.
unfoldable pub bytes_eq : List ℕ → List ℕ → Bool
bytes_eq [] [] = true
bytes_eq [] (b ∷ bs) = false
bytes_eq (a ∷ as') [] = false
bytes_eq (a ∷ as') (b ∷ bs) = a == b && bytes_eq as' bs

-- `n.div_ceil(2)`.
abbrev pub half_up : ℕ → ℕ
half_up n = (n + 1) / 2

-- The `?` of a panic.
infixl 5 ◌>>=◌
abbrev pub ◌>>=◌ {ℓ κ} : {A : Type ℓ} {B : Type κ} → Option A → (A → Option B) → Option B
none >>= f = none
some a >>= f = f a
