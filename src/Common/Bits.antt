-- ===== src/Common/Bits.antt =====
-- The bit operations of the source as arithmetic: masks and disjoint unions.
use Prim.Native.Nat.{
  ℕ, zero, suc, ◌+◌, ◌*◌, ◌/◌, ◌%◌, ◌^◌, ◌≤◌, ◌<◌, min, max, bit_and, bit_or, bit_xor,
}
use Prim.Native.Nat.{digits, differ, bit_and-bitwise, bit_or-bitwise, bit_xor-bitwise}
use mathlib.Core.Path.{◌≡◌, refl, ap}
use native.Mathlib.Omega.{arith}
use exo_browser_core.Common.Tests.{◌==◌, ==_iff}
use native.Mathlib.Nat.{pow-suc}
use mathlib.Core.Bool.{Bool, true, ◌&&◌}

-- The digit recursion gives one result for every count of digits that is large enough.
module _ (z : ℕ → ℕ) (f : ℕ → ℕ → ℕ) where
  digits_enough : (n m a b : ℕ) → a ≤ n → a ≤ m → digits z f n a b ≡ digits z f m a b
  digits_enough zero zero a b p q = refl
  digits_enough zero (suc m) zero b p q = refl
  digits_enough zero (suc m) (suc a) b p q = absurd (omega arith)
  digits_enough (suc n) zero zero b p q = refl
  digits_enough (suc n) zero (suc a) b p q = absurd (omega arith)
  digits_enough (suc n) (suc m) zero b p q = refl
  digits_enough (suc n) (suc m) (suc a) b p q =
      omega (arith, digits_enough n m (suc a / 2) (b / 2) (omega arith) (omega arith))

abbrev and_end : ℕ → ℕ
and_end b = zero

abbrev or_end : ℕ → ℕ
or_end b = b

and_zero : (b : ℕ) → bit_and 0 b ≡ 0
and_zero b = bit_and-bitwise 0 b

or_zero : (b : ℕ) → bit_or 0 b ≡ b
or_zero b = bit_or-bitwise 0 b

-- Both operations act on the last digit and on the rest apart.
pub and_split : (a b : ℕ) → bit_and a b ≡ bit_and (a / 2) (b / 2) * 2 + min (a % 2) (b % 2)
and_split zero b = omega (arith, and_zero b, and_zero (b / 2))
and_split (suc a) b = omega (
  arith,
  bit_and-bitwise (suc a) b,
  bit_and-bitwise (suc a / 2) (b / 2),
  digits_enough and_end min a (suc a / 2) (suc a / 2) (b / 2) (omega arith) (omega arith),
)

pub or_split : (a b : ℕ) → bit_or a b ≡ bit_or (a / 2) (b / 2) * 2 + max (a % 2) (b % 2)
or_split zero b = omega (arith, or_zero b, or_zero (b / 2))
or_split (suc a) b = omega (
  arith,
  bit_or-bitwise (suc a) b,
  bit_or-bitwise (suc a / 2) (b / 2),
  digits_enough or_end max a (suc a / 2) (suc a / 2) (b / 2) (omega arith) (omega arith),
)

xor_zero : (b : ℕ) → bit_xor 0 b ≡ b
xor_zero b = bit_xor-bitwise 0 b

pub xor_split : (a b : ℕ) → bit_xor a b ≡ bit_xor (a / 2) (b / 2) * 2 + differ (a % 2) (b % 2)
xor_split zero b = omega (arith, xor_zero b, xor_zero (b / 2))
xor_split (suc a) b = omega (
  arith,
  bit_xor-bitwise (suc a) b,
  bit_xor-bitwise (suc a / 2) (b / 2),
  digits_enough or_end differ a (suc a / 2) (suc a / 2) (b / 2) (omega arith) (omega arith),
)

two_pow_suc : (s : ℕ) → 2 ^ suc s ≡ 2 ^ s * 2
two_pow_suc s = pow-suc 2 s

shifted : (s b : ℕ) → b * 2 ^ suc s ≡ b * 2 ^ s * 2
shifted s b = omega (arith, ap (λ (t : ℕ). b * t) (two_pow_suc s))

-- Halving undoes doubling, under the operation too.
halve : (a x : ℕ) → bit_or (a / 2) (x * 2 / 2) ≡ bit_or (a / 2) x
halve a x = ap (bit_or (a / 2)) (omega arith)

-- `a | (b << s)` is a sum when `a` has only the lowest `s` bits.
pub or_disjoint : (s a b : ℕ) → a < 2 ^ s → bit_or a (b * 2 ^ s) ≡ a + b * 2 ^ s
or_disjoint zero zero b h = omega (arith, or_zero b, or_zero (b * 1))
or_disjoint zero (suc a) b h = absurd (omega arith)
or_disjoint (suc s) a b h = rw (shifted s b) (
    omega (
      arith,
      two_pow_suc s,
      or_split a (b * 2 ^ s * 2),
      halve a (b * 2 ^ s),
      or_disjoint s (a / 2) b (omega (arith, two_pow_suc s)),
    ))

-- `a | b` has no more bits than its parts.
pub or_lt : (n a b : ℕ) → a < 2 ^ n → b < 2 ^ n → bit_or a b < 2 ^ n
or_lt zero zero b h k = omega (arith, or_zero b)
or_lt zero (suc a) b h k = absurd (omega arith)
or_lt (suc n) a b h k = omega (
  arith,
  two_pow_suc n,
  or_split a b,
  or_lt n (a / 2) (b / 2) (omega (arith, two_pow_suc n)) (omega (arith, two_pow_suc n)),
)

and_nothing : (n a : ℕ) → a ≤ n → bit_and a 0 ≡ 0
and_nothing zero zero h = refl
and_nothing zero (suc a) h = absurd (omega arith)
and_nothing (suc n) zero h = refl
and_nothing (suc n) (suc a) h =
    omega (arith, and_split (suc a) 0, and_nothing n (suc a / 2) (omega arith))

mask_1 : (a : ℕ) → bit_and a 1 ≡ a % 2
mask_1 a = omega (arith, and_split a 1, and_nothing (a / 2) (a / 2) (omega arith))

mask_7 : (a : ℕ) → bit_and a 7 ≡ a % 8
mask_7 a = omega (arith, and_split a 7, and_split (a / 2) 3, mask_1 (a / 2 / 2))

mask_15 : (a : ℕ) → bit_and a 15 ≡ a % 16
mask_15 a = omega (arith, and_split a 15, mask_7 (a / 2))

-- `a & 0x7f`.
pub mask_127 : (a : ℕ) → bit_and a 127 ≡ a % 128
mask_127 a = omega (
  arith,
  and_split a 127,
  and_split (a / 2) 63,
  and_split (a / 2 / 2) 31,
  mask_15 (a / 2 / 2 / 2),
)

-- A law of bytes, checked at every value.
holds_below : ℕ → (ℕ → Bool) → Bool
holds_below zero p = true
holds_below (suc n) p = p n && holds_below n p

holds_below-at : (n : ℕ) (p : ℕ → Bool) (x : ℕ) → holds_below n p ≡ true → x < n → p x ≡ true
unfolding holds_below
holds_below-at zero p x h lt = absurd (omega arith)
holds_below-at (suc n) p x h lt = ground (arith, holds_below-at n p x)

top_bit_table : holds_below 256 (λ b. bit_and b 0x80 == b / 128 * 128) ≡ true
unfolding holds_below
top_bit_table = refl

-- `b & 0x80` of a byte.
pub top_bit : (b : ℕ) → b < 256 → bit_and b 0x80 ≡ b / 128 * 128
top_bit b h = (==_iff _ _).0 (holds_below-at 256 _ b top_bit_table h)

high_half_table : holds_below 256 (λ b. bit_and b 0xF0 == b / 16 * 16) ≡ true
unfolding holds_below
high_half_table = refl

-- `b & 0xF0` of a byte.
pub high_half : (b : ℕ) → b < 256 → bit_and b 0xF0 ≡ b / 16 * 16
high_half b h = (==_iff _ _).0 (holds_below-at 256 _ b high_half_table h)

set_top_table : holds_below 128 (λ b. bit_or b 0x80 == b + 128) ≡ true
unfolding holds_below
set_top_table = refl

-- `b | 0x80` of seven bits.
pub set_top : (b : ℕ) → b < 128 → bit_or b 0x80 ≡ b + 128
set_top b h = (==_iff _ _).0 (holds_below-at 128 _ b set_top_table h)

differ_bits : (x y : ℕ) → x < 2 → y < 2 → differ x y < 2
differ_bits zero y h k = k
differ_bits (suc zero) zero h k = omega arith
differ_bits (suc zero) (suc zero) h k = omega arith
differ_bits (suc zero) (suc (suc y)) h k = absurd (omega arith)
differ_bits (suc (suc x)) y h k = absurd (omega arith)

differ_same : (x y : ℕ) → differ x y ≡ 0 → x ≡ y
differ_same zero y h = omega (arith, h)
differ_same (suc x) zero h = h
differ_same (suc x) (suc y) h = ap suc (differ_same x y h)

pub xor_halves : (a b : ℕ) → bit_xor a b / 2 ≡ bit_xor (a / 2) (b / 2)
xor_halves a b = ground (arith, xor_split a b, differ_bits (a % 2) (b % 2))

-- Numbers whose exclusive or is even end in the same digit.
pub xor_even : (a b : ℕ) → bit_xor a b % 2 ≡ 0 → a % 2 ≡ b % 2
xor_even a b h = ground (arith, xor_split a b, differ_same (a % 2) (b % 2))
