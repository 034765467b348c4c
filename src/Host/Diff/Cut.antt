-- ===== src/Host/Diff/Cut.antt =====
-- gutted-host-rs/src/main.rs, `extract_subrect`: the size of what is cut out.
use exo_browser_core.Common.{
  ℕ, zero, suc, ◌+◌, ◌*◌, ◌≡◌, sym, subst, Option, none, some, List, ◌++◌, length, length-append,
  length-take, length-drop, take, drop, All, All-append, All-take, All-drop, leb, Bool-cases, inl,
  inr, arith,
}
use native.Mathlib.Nat.{zero-mul, suc-mul}
use exo_browser_core.Wire.Varint.{IsByte}
use exo_browser_core.Pixel.Bytes.{slice, ◌>>=◌}
use exo_browser_core.Host.Diff.{Region, extract_rows, extract_subrect}

-- Bytes of that many rows, if anything is cut out.
abbrev Sized : ℕ → ℕ → Option (List ℕ) → Type 0
Sized n rows o = elim o [ none ↦ Unit {0} | some out ↦ (length out ≡ rows * n) × All IsByte out ]

Sized-next :
    (n rows : ℕ) (row : List ℕ) (o : Option (List ℕ))
    → length row ≡ n
    → All IsByte row
    → Sized n rows o
    → Sized n (suc rows) (o >>= λ out. some (row ++ out))
Sized-next n rows row none l v w = tt
Sized-next n rows row (some out) l v w =
    (omega (arith, length-append row out, l, w.0, suc-mul rows n), All-append IsByte row out v w.1)

extract_rows-Sized :
    (pixels : List ℕ) (s at n rows : ℕ)
    → All IsByte pixels
    → Sized n rows (extract_rows pixels s at n rows)
unfolding extract_rows slice
extract_rows-Sized pixels s at n zero v = (sym (zero-mul n), tt)
extract_rows-Sized pixels s at n (suc rows) v = elim (Bool-cases (leb (at + n) (length pixels))) [
  | inr out ↦ rw (extract_rows, out) tt
  | inl inside ↦
      rw (extract_rows, inside)
        (Sized-next n rows (take n (drop at pixels)) (extract_rows pixels s (at + s) n rows)
          (ground (arith, inside, length-take n (drop at pixels), length-drop at pixels))
          (All-take IsByte n (drop at pixels) (All-drop IsByte at pixels v))
          (extract_rows-Sized pixels s (at + s) n rows v))
]

-- What is cut out of bytes are as many bytes as the region has.
pub extract_subrect-size :
    (pixels : List ℕ) (s : ℕ) (r : Region) (out : List ℕ)
    → All IsByte pixels
    → extract_subrect pixels s r ≡ some out
    → (length out ≡ r.h * (r.w * 4)) × All IsByte out
unfolding extract_subrect
extract_subrect-size pixels s r out v e =
    subst (Sized (r.w * 4) r.h) e (extract_rows-Sized pixels s (r.y * s + r.x * 4) (r.w * 4) r.h v)
