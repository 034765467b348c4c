-- ===== src/Pixel/Filter/RoundTrip.antt =====
-- gutted-proto/src/lib.rs: `spatial_unfilter_sub_in_place` undoes `spatial_filter_sub_into`.
use exo_browser_core.Common.{
  length-replicate, ◌∙◌, ℕ, zero, suc, ◌-◌, ◌*◌, ◌<◌, ◌≡◌, refl, ap, List, [], ◌∷◌, length,
  replicate, All, arith,
}
use exo_browser_core.Wire.Varint.{IsByte}
use exo_browser_core.Pixel.Bytes.{wrapping_sub, wrapping_add, resize}
use exo_browser_core.Pixel.Filter.{
  filter_first, filter_chunks, spatial_filter_sub_into, unfilter_chunks,
  spatial_unfilter_sub_in_place,
}

-- The bytes, with those behind the last whole pixel set to zero.
abbrev pub zero_tail : List ℕ → List ℕ
zero_tail (a ∷ b ∷ c ∷ d ∷ xs) = a ∷ b ∷ c ∷ d ∷ zero_tail xs
zero_tail xs = replicate (length xs) 0

pub add_sub : (a p : ℕ) → a < 256 → p < 256 → wrapping_add (wrapping_sub a p) p ≡ a
add_sub a p h k = omega arith

resize-nil : (n : ℕ) → resize [] n ≡ replicate n 0
unfolding resize
resize-nil zero = refl
resize-nil (suc n) = let e : suc n - 0 ≡ suc n = omega arith in rw e

filter_into_empty :
    (pixels : List ℕ)
    → spatial_filter_sub_into pixels [] ≡ filter_first pixels (replicate (length pixels) 0)
unfolding spatial_filter_sub_into
filter_into_empty pixels = ap (filter_first pixels) (resize-nil (length pixels))

unfilter_chunks-filter_chunks :
    (p0 p1 p2 p3 : ℕ) (src : List ℕ)
    → p0 < 256
    → p1 < 256
    → p2 < 256
    → p3 < 256
    → All IsByte src
    → unfilter_chunks p0 p1 p2 p3 (filter_chunks p0 p1 p2 p3 src (replicate (length src) 0))
      ≡ zero_tail src
unfolding unfilter_chunks filter_chunks
unfilter_chunks-filter_chunks p0 p1 p2 p3 (a ∷ b ∷ c ∷ d ∷ src) h0 h1 h2 h3 h =
    rw
      (
        add_sub a p0 h.0 h0,
        add_sub b p1 h.1.0 h1,
        add_sub c p2 h.1.1.0 h2,
        add_sub d p3 h.1.1.1.0 h3,
      )
      (ap (λ t. a ∷ b ∷ c ∷ d ∷ t)
        (unfilter_chunks-filter_chunks a b c d src h.0 h.1.0 h.1.1.0 h.1.1.1.0 h.1.1.1.1))
unfilter_chunks-filter_chunks p0 p1 p2 p3 [] h0 h1 h2 h3 h = refl
unfilter_chunks-filter_chunks p0 p1 p2 p3 (a ∷ []) h0 h1 h2 h3 h = refl
unfilter_chunks-filter_chunks p0 p1 p2 p3 (a ∷ b ∷ []) h0 h1 h2 h3 h = refl
unfilter_chunks-filter_chunks p0 p1 p2 p3 (a ∷ b ∷ c ∷ []) h0 h1 h2 h3 h = refl

unfilter-filter_first :
    (pixels : List ℕ)
    → All IsByte pixels
    → spatial_unfilter_sub_in_place (filter_first pixels (replicate (length pixels) 0))
      ≡ zero_tail pixels
unfolding spatial_unfilter_sub_in_place filter_first
unfilter-filter_first (a ∷ b ∷ c ∷ d ∷ src) h =
    ap (λ t. a ∷ b ∷ c ∷ d ∷ t)
      (unfilter_chunks-filter_chunks a b c d src h.0 h.1.0 h.1.1.0 h.1.1.1.0 h.1.1.1.1)
unfilter-filter_first [] h = refl
unfilter-filter_first (a ∷ []) h = refl
unfilter-filter_first (a ∷ b ∷ []) h = refl
unfilter-filter_first (a ∷ b ∷ c ∷ []) h = refl

-- Filtering into an empty buffer and unfiltering gives the bytes back, except that the one to three
-- bytes behind the last whole pixel come back as zeros.
pub unfilter-filter :
    (pixels : List ℕ)
    → All IsByte pixels
    → spatial_unfilter_sub_in_place (spatial_filter_sub_into pixels []) ≡ zero_tail pixels
unfilter-filter pixels h = rw (filter_into_empty pixels) (unfilter-filter_first pixels h)

-- Whole pixels come back as they were.
pub zero_tail-whole : (n : ℕ) (xs : List ℕ) → length xs ≡ 4 * n → zero_tail xs ≡ xs
zero_tail-whole n [] h = refl
zero_tail-whole n (a ∷ []) h = absurd (omega arith)
zero_tail-whole n (a ∷ b ∷ []) h = absurd (omega arith)
zero_tail-whole n (a ∷ b ∷ c ∷ []) h = absurd (omega arith)
zero_tail-whole n (a ∷ b ∷ c ∷ d ∷ xs) h =
    ap (λ t. a ∷ b ∷ c ∷ d ∷ t) (zero_tail-whole (n - 1) xs (omega arith))

length-filter_chunks :
    (p0 p1 p2 p3 : ℕ) (src dst : List ℕ) → length (filter_chunks p0 p1 p2 p3 src dst) ≡ length dst
unfolding filter_chunks
length-filter_chunks p0 p1 p2 p3 [] dst = refl
length-filter_chunks p0 p1 p2 p3 (a ∷ b ∷ c ∷ d ∷ src) (_ ∷ _ ∷ _ ∷ _ ∷ dst) =
    ap (λ (n : ℕ). suc (suc (suc (suc n)))) (length-filter_chunks a b c d src dst)
length-filter_chunks p0 p1 p2 p3 _ _ = refl

filter_chunks-valid :
    (p0 p1 p2 p3 : ℕ) (src dst : List ℕ)
    → All IsByte dst
    → All IsByte (filter_chunks p0 p1 p2 p3 src dst)
unfolding filter_chunks
filter_chunks-valid p0 p1 p2 p3 (a ∷ b ∷ c ∷ d ∷ src) (_ ∷ _ ∷ _ ∷ _ ∷ dst) h = (
  omega arith,
  (omega arith, (omega arith, (omega arith, filter_chunks-valid a b c d src dst h.1.1.1.1))),
)
filter_chunks-valid p0 p1 p2 p3 _ _ h = h

filter_first-valid :
    (src dst : List ℕ) → All IsByte src → All IsByte dst → All IsByte (filter_first src dst)
unfolding filter_first
filter_first-valid (a ∷ b ∷ c ∷ d ∷ src) (_ ∷ _ ∷ _ ∷ _ ∷ dst) k h =
    (k.0, (k.1.0, (k.1.1.0, (k.1.1.1.0, filter_chunks-valid a b c d src dst h.1.1.1.1))))
filter_first-valid _ _ k h = h

zeros-valid : (n : ℕ) → All IsByte (replicate n 0)
zeros-valid zero = tt
zeros-valid (suc n) = (omega arith, zeros-valid n)

pub spatial_filter-valid :
    (pixels : List ℕ) → All IsByte pixels → All IsByte (spatial_filter_sub_into pixels [])
spatial_filter-valid pixels h =
    rw (filter_into_empty pixels)
      (filter_first-valid pixels (replicate (length pixels) 0) h (zeros-valid (length pixels)))

length-filter_first : (src dst : List ℕ) → length (filter_first src dst) ≡ length dst
unfolding filter_first
length-filter_first (a ∷ b ∷ c ∷ d ∷ src) (_ ∷ _ ∷ _ ∷ _ ∷ dst) =
    ap (λ (n : ℕ). suc (suc (suc (suc n)))) (length-filter_chunks a b c d src dst)
length-filter_first _ _ = refl

pub length-spatial_filter :
    (pixels : List ℕ) → length (spatial_filter_sub_into pixels []) ≡ length pixels
length-spatial_filter pixels =
    rw (filter_into_empty pixels) (
      length-filter_first pixels (replicate (length pixels) 0) ∙ length-replicate (length pixels) 0)
