-- ===== src/Wire/Varint.antt =====
-- gutted-proto/src/lib.rs: `write_varint` and `read_varint` against the LEB128 form.
pub mod Stream
use exo_browser_core.Common.{
  ℕ, zero, suc, ◌+◌, ◌*◌, ◌/◌, ◌%◌, ◌^◌, ◌≤◌, ◌<◌, ◌≡◌, refl, ap, append-nil, ◌∙◌, bit_and, bit_or,
  Bool, true, false, some, List, [], ◌∷◌, ◌++◌, append_assoc, length, length-append, All,
  Bool-cases, inl, inr, ltb→lt, ltb, if◌then◌else◌, Acc, lt_wf, arith,
}
use exo_browser_core.Common.Bits.{or_lt, mask_127, top_bit, high_half, set_top, or_disjoint}
use exo_browser_core.Wire.Result.{Result, ok, err, unexpected_eof, varint_overflow}
use exo_browser_core.Wire.Writer.{write_varint_loop, write_varint}
use exo_browser_core.Wire.Reader.{read_varint_loop, read_varint}
use native.Mathlib.Numerals.{towards_suc}
use native.Mathlib.Nat.{div-add-mod, mod-eq_of_lt}

abbrev pub IsByte : ℕ → Type 0
IsByte b = b < 256

-- The groups of seven bits of `v`, lowest first, for `v` below 128 ^ (k + 1).
unfoldable pub leb128 : ℕ → ℕ → List ℕ
leb128 zero v = v ∷ []
leb128 (suc k) v =
    let rest = leb128 k (v / 128) in if ltb v 128 then v ∷ [] else (v % 128 + 128) ∷ rest

low_group : (v : ℕ) → bit_and v 0x7f % 256 ≡ v % 128
low_group v = omega (arith, mask_127 v)

more_group : (v : ℕ) → bit_or (bit_and v 0x7f % 256) 0x80 ≡ v % 128 + 128
more_group v = rw (low_group v) (set_top _ (omega arith))

write_varint_loop-leb128 :
    (k : ℕ) (out : List ℕ) (v : ℕ) (w : Acc ◌<◌ v)
    → v < 128 ^ suc k
    → write_varint_loop out v w ≡ out ++ leb128 k v
unfolding write_varint_loop leb128
write_varint_loop-leb128 zero out v (Acc.intro _ smaller) h = ground (arith, low_group v)
write_varint_loop-leb128 (suc k) out v (Acc.intro _ smaller) h =
    let byte : List ℕ = (v % 128 + 128) ∷ [] in
    grind (
      arith,
      low_group v,
      more_group v,
      λ (w : Acc ◌<◌ (v / 128)). write_varint_loop-leb128 k (out ++ byte) (v / 128) w (omega arith),
      append_assoc out byte (leb128 k (v / 128)),
    )

-- `write_varint` appends the LEB128 form of every u32.
pub write_varint-leb128 :
    (v : ℕ) (out : List ℕ) → v < 2 ^ 32 → write_varint v out ≡ some (out ++ leb128 4 v)
unfolding write_varint
write_varint-leb128 v out h =
    ap some (write_varint_loop-leb128 4 out v (lt_wf.apply v) (omega arith))

pub leb128-IsByte : (k v : ℕ) → v < 128 ^ suc k → All IsByte (leb128 k v)
unfolding leb128
leb128-IsByte zero v h = omega arith
leb128-IsByte (suc k) v h = ground (arith, leb128-IsByte k (v / 128) (omega arith))

pub length-leb128 : (k v : ℕ) → (1 ≤ length (leb128 k v)) × (length (leb128 k v) ≤ k + 1)
unfolding leb128
length-leb128 zero v = omega arith
length-leb128 (suc k) v = ground (arith, length-leb128 k (v / 128))

pow_seven : (s : ℕ) → 2 ^ (s + 7) ≡ 128 * 2 ^ s
pow_seven s = simp towards_suc (omega arith)

-- The group of a byte, shifted and joined to what has been read.
joined :
    (byte g shift result : ℕ)
    → byte % 128 ≡ g
    → result < 2 ^ shift
    → g * 2 ^ shift < 2 ^ 32
    → bit_or result (bit_and byte 0x7f * 2 ^ shift % 2 ^ 32) ≡ result + g * 2 ^ shift
joined byte g shift result e hr fits =
    rw (mask_127 byte, e, mod-eq_of_lt fits) (or_disjoint shift result g hr)

-- The two ways a round can end, on the last byte `v` and on a byte that announces more.
last_round :
    (rounds i shift result v : ℕ) (rest : List ℕ)
    → v < 128
    → (i ≡ 4 → v < 16)
    → result < 2 ^ shift
    → v * 2 ^ shift < 2 ^ 32
    → read_varint_loop (suc rounds) i shift result (v ∷ rest) ≡ ok (result + v * 2 ^ shift, rest)
unfolding read_varint_loop
last_round rounds i shift result v rest hv h4 hr fits =
    ground (arith, joined v v shift result (omega arith) hr fits, top_bit v, high_half v, h4)

inner_round :
    (rounds i shift result g : ℕ) (rest : List ℕ)
    → g < 128
    → i < 4
    → result < 2 ^ shift
    → g * 2 ^ shift < 2 ^ 32
    → read_varint_loop (suc rounds) i shift result ((g + 128) ∷ rest)
      ≡ read_varint_loop rounds (i + 1) (shift + 7) (result + g * 2 ^ shift) rest
unfolding read_varint_loop
inner_round rounds i shift result g rest hg hi hr fits =
    ground (arith, joined (g + 128) g shift result (omega arith) hr fits, top_bit (g + 128))

-- The lowest group of `v` and the rest, both shifted.
split_groups : (v s : ℕ) → v * 2 ^ s ≡ v % 128 * 2 ^ s + v / 128 * 2 ^ (s + 7)
split_groups v s = omega (
  arith,
  ap (λ (t : ℕ). t * 2 ^ s) (div-add-mod v 128),
  ap (λ (t : ℕ). v / 128 * t) (pow_seven s),
)

-- In the round after the first four only four bits are left.
fifth_fits : (v shift : ℕ) → shift ≡ 28 → v * 2 ^ shift < 2 ^ 32 → v < 16
fifth_fits v shift e h = let h' : v * 2 ^ 28 < 2 ^ 32 = rw e at h in omega arith

-- A group of seven bits, shifted, leaves room for what was read below it.
carry_fits : (g s result : ℕ) → g < 128 → result < 2 ^ s → result + g * 2 ^ s < 2 ^ (s + 7)
carry_fits g s result hg hr = rw (pow_seven s) (grind arith)

read_varint_loop-leb128 :
    (k v i shift result : ℕ) (rest : List ℕ)
    → i + k ≡ 4
    → shift ≡ 7 * i
    → result < 2 ^ shift
    → v * 2 ^ shift < 2 ^ 32
    → read_varint_loop (suc k) i shift result (leb128 k v ++ rest)
      ≡ ok (result + v * 2 ^ shift, rest)
unfolding leb128
read_varint_loop-leb128 zero v i shift result rest hk hs hr fits =
    let small : v < 16 = fifth_fits v shift (omega arith) fits in
    last_round zero i shift result v rest (omega arith) (λ _. small) hr fits
read_varint_loop-leb128 (suc k) v i shift result rest hk hs hr fits =
    elim (Bool-cases (ltb v 128)) [
      | inl small ↦ rw small (
          last_round (suc k) i shift result v rest (ltb→lt _ _ small) (λ e. absurd (omega arith)) hr
            fits)
      | inr big ↦ rw big (
          inner_round (suc k) i shift result (v % 128) _ (omega arith) (omega arith) hr
            (omega (arith, split_groups v shift))
          ∙ read_varint_loop-leb128 k (v / 128) (i + 1) (shift + 7) (result + v % 128 * 2 ^ shift)
              rest (omega arith) (omega arith) (carry_fits (v % 128) shift result (omega arith) hr)
              (omega (arith, split_groups v shift))
          ∙ ap (λ (t : ℕ). ok (t, rest)) (omega (arith, split_groups v shift)))
    ]

-- `read_varint` gives back the u32 that was written, and leaves what follows it.
pub read_varint-leb128 :
    (v : ℕ) (rest : List ℕ) → v < 2 ^ 32 → read_varint (leb128 4 v ++ rest) ≡ ok (v, rest)
unfolding read_varint
read_varint-leb128 v rest h =
    rw (read_varint_loop-leb128 4 v 0 0 0 rest refl refl (omega arith) (omega arith))
      (ap (λ (t : ℕ). ok (t, rest)) (omega arith))
