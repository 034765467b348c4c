-- ===== src/Pixel/Lz4/Prefix.antt =====
-- gutted-proto/src/lib.rs: `common_prefix_len` gives the length of a common front.
use Prim.Native.Nat.{bit_xor}
use exo_browser_core.Common.{
  ℕ, zero, suc, ◌+◌, ◌*◌, ◌/◌, ◌%◌, ◌≤◌, ◌≡◌, refl, sym, ◌∙◌, subst, ap₂, min, List, [], ◌∷◌, ◌++◌,
  length, take, drop, All, leb, ◌==◌, ==_iff, Bool-cases, inl, inr, arith, length-drop, length-take,
  take-add, take-take, All-drop, All-take,
}
use exo_browser_core.Common.Bits.{xor_halves, xor_even}
use exo_browser_core.Wire.Reader.{from_le_bytes}
use exo_browser_core.Wire.Varint.{IsByte}
use exo_browser_core.Pixel.Lz4.Encode.{
  trailing_zeros, common_prefix_tail, common_prefix_words, common_prefix_len,
}

-- The lowest `j` digits are the same.
abbrev Agree : ℕ → ℕ → ℕ → Type 0
Agree zero a b = Unit {0}
Agree (suc j) a b = (a % 2 ≡ b % 2) × Agree j (a / 2) (b / 2)

-- Below the zeros at the end of the exclusive or the digits are the same.
trailing_zeros-Agree : (bits j a b : ℕ) → j ≤ trailing_zeros bits (bit_xor a b) → Agree j a b
unfolding trailing_zeros
trailing_zeros-Agree zero zero a b h = tt
trailing_zeros-Agree zero (suc j) a b h = absurd (omega arith)
trailing_zeros-Agree (suc bits) zero a b h = tt
trailing_zeros-Agree (suc bits) (suc j) a b h = elim (Bool-cases (bit_xor a b % 2 == 1)) [
  | inl odd ↦ absurd (ground (arith, rw odd at h))
  | inr even ↦ (
    xor_even a b (ground (arith, even)),
    trailing_zeros-Agree bits j (a / 2) (b / 2) (ground (arith, rw (even, xor_halves a b) at h)),
  )
]

trailing_zeros-le : (bits x : ℕ) → trailing_zeros bits x ≤ bits
unfolding trailing_zeros
trailing_zeros-le zero x = omega arith
trailing_zeros-le (suc bits) x = ground (arith, trailing_zeros-le bits (x / 2))

-- The digits of `k` bytes.
abbrev byte_digits : ℕ → ℕ
byte_digits zero = 0
byte_digits (suc k) = suc (suc (suc (suc (suc (suc (suc (suc (byte_digits k))))))))

byte_digits_lem : (k : ℕ) → byte_digits k ≡ 8 * k
byte_digits_lem zero = refl
byte_digits_lem (suc k) = omega (arith, byte_digits_lem k)

-- Words whose lowest digits agree are read from the same bytes.
take-Agree :
    (k : ℕ) (xs ys : List ℕ)
    → All IsByte xs
    → All IsByte ys
    → k ≤ length xs
    → k ≤ length ys
    → Agree (byte_digits k) (from_le_bytes xs) (from_le_bytes ys)
    → take k xs ≡ take k ys
unfolding from_le_bytes
take-Agree zero xs ys hx hy p q e = refl
take-Agree (suc k) [] ys hx hy p q e = absurd (omega arith)
take-Agree (suc k) (x ∷ xs) [] hx hy p q e = absurd (omega arith)
take-Agree (suc k) (x ∷ xs) (y ∷ ys) hx hy p q (e0, (e1, (e2, (e3, (e4, (e5, (e6, (e7, e)))))))) =
    let first : x ≡ y = omega arith in
    let up : x + 256 * from_le_bytes xs ≡ 256 * from_le_bytes xs + x = omega arith in
    let xs_rest : (x + 256 * from_le_bytes xs) / 2 / 2 / 2 / 2 / 2 / 2 / 2 / 2 ≡ from_le_bytes xs =
      omega (arith, hx.0) in
    let ys_rest : (y + 256 * from_le_bytes ys) / 2 / 2 / 2 / 2 / 2 / 2 / 2 / 2 ≡ from_le_bytes ys =
      omega (arith, hy.0) in
    ap₂ (λ b bs. b ∷ bs) first
      (take-Agree k xs ys hx.1 hy.1 (omega arith) (omega arith) (
        subst (λ v. Agree (byte_digits k) v (from_le_bytes ys)) xs_rest
          (subst
            (λ v.
              Agree (byte_digits k) ((x + 256 * from_le_bytes xs) / 2 / 2 / 2 / 2 / 2 / 2 / 2 / 2)
                v)
            ys_rest e)))

-- Bytes of one length are known by the number they stand for.
pub from_le_bytes_injective :
    (xs ys : List ℕ)
    → All IsByte xs
    → All IsByte ys
    → length xs ≡ length ys
    → from_le_bytes xs ≡ from_le_bytes ys
    → xs ≡ ys
unfolding from_le_bytes
from_le_bytes_injective [] [] hx hy l e = refl
from_le_bytes_injective [] (y ∷ ys) hx hy l e = absurd (omega arith)
from_le_bytes_injective (x ∷ xs) [] hx hy l e = absurd (omega arith)
from_le_bytes_injective (x ∷ xs) (y ∷ ys) hx hy l e =
    ap₂ (λ b bs. b ∷ bs) (omega (arith, hx.0, hy.0))
      (from_le_bytes_injective xs ys hx.1 hy.1 (omega arith) (omega (arith, hx.0, hy.0)))

-- `n` is the length of a common front.
pub record IsCommon (a b : List ℕ) (n : ℕ) : Type 0 where
  pub fits_a : n ≤ length a
  pub fits_b : n ≤ length b
  pub same : take n a ≡ take n b

IsCommon-add :
    (n m : ℕ) (a b : List ℕ)
    → IsCommon a b n
    → IsCommon (drop n a) (drop n b) m
    → IsCommon a b (n + m)
IsCommon-add n m a b h k = record {
  fits_a = omega (arith, h.fits_a, k.fits_a, length-drop n a);
  fits_b = omega (arith, h.fits_b, k.fits_b, length-drop n b);
  same = take-add n m a ∙ ap₂ (λ s t. s ++ t) h.same k.same ∙ sym (take-add n m b);
}

-- What a count that starts at `i` ends with.
abbrev Counts : List ℕ → List ℕ → ℕ → ℕ → Type 0
Counts a b i r = (n : ℕ) × (r ≡ i + n) × IsCommon a b n

common_prefix_tail-Counts : (a b : List ℕ) (i : ℕ) → Counts a b i (common_prefix_tail a b i)
unfolding common_prefix_tail
common_prefix_tail-Counts [] b i = (0, omega arith, ground arith)
common_prefix_tail-Counts (x ∷ a) [] i = (0, omega arith, ground arith)
common_prefix_tail-Counts (x ∷ a) (y ∷ b) i = elim (Bool-cases (x == y)) [
  | inl e ↦
      let (n, c, h) = common_prefix_tail-Counts a b (i + 1) in
      (
        suc n,
        rw e (omega (arith, c)),
        record {
          fits_a = omega (arith, h.fits_a);
          fits_b = omega (arith, h.fits_b);
          same = ap₂ (λ z zs. z ∷ zs) ((==_iff x y).0 e) h.same;
        },
      )
  | inr e ↦ (0, rw e (omega arith), ground arith)
]

-- Two words of eight bytes have as many bytes in common as the zeros of their exclusive or say.
IsCommon-zeros :
    (a b : List ℕ)
    → All IsByte a
    → All IsByte b
    → 8 ≤ length a
    → 8 ≤ length b
    → IsCommon a b
        (trailing_zeros 64 (bit_xor (from_le_bytes (take 8 a)) (from_le_bytes (take 8 b))) / 8)
IsCommon-zeros a b ha hb p q =
    let zeros = trailing_zeros 64 (bit_xor (from_le_bytes (take 8 a)) (from_le_bytes (take 8 b))) in
    let few : zeros ≤ 64 = trailing_zeros-le 64 _ in
    let k = zeros / 8 in
    let agree : Agree (byte_digits k) (from_le_bytes (take 8 a)) (from_le_bytes (take 8 b)) =
      trailing_zeros-Agree 64 (byte_digits k) _ _ (omega (arith, byte_digits_lem k)) in
    record {
      fits_a = omega arith;
      fits_b = omega arith;
      same =
          sym (take-take k 8 a (omega arith))
          ∙ take-Agree k (take 8 a) (take 8 b) (All-take IsByte 8 a ha) (All-take IsByte 8 b hb)
              (omega (arith, length-take 8 a)) (omega (arith, length-take 8 b)) agree
          ∙ take-take k 8 b (omega arith);
    }

common_prefix_words-Counts :
    (rounds : ℕ) (a b : List ℕ) (i : ℕ)
    → All IsByte a
    → All IsByte b
    → Counts a b i (common_prefix_words rounds a b i)
unfolding common_prefix_words
common_prefix_words-Counts zero a b i ha hb = common_prefix_tail-Counts a b i
common_prefix_words-Counts (suc rounds) a b i ha hb =
    elim (Bool-cases (leb 8 (min (length a) (length b)))) [
      | inl long ↦
          let la : length (take 8 a) ≡ 8 = ground (arith, long, length-take 8 a) in
          let lb : length (take 8 b) ≡ 8 = ground (arith, long, length-take 8 b) in
          let ba = All-take IsByte 8 a ha in
          let bb = All-take IsByte 8 b hb in
          elim (Bool-cases (from_le_bytes (take 8 a) == from_le_bytes (take 8 b))) [
            | inl e ↦
                let first : IsCommon a b 8 = record {
                  fits_a = ground (arith, long);
                  fits_b = ground (arith, long);
                  same =
                      from_le_bytes_injective (take 8 a) (take 8 b) ba bb (la ∙ sym lb)
                        ((==_iff (from_le_bytes (take 8 a)) (from_le_bytes (take 8 b))).0 e);
                } in
                let (m, c, k) =
                  common_prefix_words-Counts rounds (drop 8 a) (drop 8 b) (i + 8)
                    (All-drop IsByte 8 a ha) (All-drop IsByte 8 b hb) in
                (8 + m, rw (long, e) (omega (arith, c)), IsCommon-add 8 m a b first k)
            | inr e ↦ (
              _,
              rw (long, e) refl,
              IsCommon-zeros a b ha hb (ground (arith, long)) (ground (arith, long)),
            )
          ]
      | inr short ↦ rw short (common_prefix_tail-Counts a b i)
    ]

-- `common_prefix_len` of two lists of bytes is the length of a common front.
pub common_prefix_len-IsCommon :
    (a b : List ℕ) → All IsByte a → All IsByte b → IsCommon a b (common_prefix_len a b)
unfolding common_prefix_len
common_prefix_len-IsCommon a b ha hb =
    let (n, c, h) = common_prefix_words-Counts (length a) a b 0 ha hb in
    let e : n ≡ common_prefix_words (length a) a b 0 = omega (arith, c) in subst (IsCommon a b) e h
