-- ===== src/Wire/Writer.antt =====
-- gutted-proto/src/lib.rs: `write_varint` and the `write_*` helpers.
use exo_browser_core.Common.{
  ℕ, zero, suc, ◌-◌, ◌/◌, ◌%◌, ◌^◌, ◌<◌, bit_and, bit_or, Bool, Option, none, some, List, [], ◌∷◌,
  ◌++◌, ℤ, pos, negsuc, Acc, lt_wf, dite, dec_lt, length, arith, if◌then◌else◌,
}

-- A write to `out: &mut Vec<u8>`: the new buffer, or `none` where the source panics.
abbrev pub Writer : Type 0
Writer = List ℕ → Option (List ℕ)

infixr 5 ◌>>◌
unfoldable pub ◌>>◌ : Writer → Writer → Writer
(w >> k) out = elim (w out) [ none ↦ none | some out' ↦ k out' ]

-- A handler with nothing to write.
unfoldable pub skip : Writer
skip out = some out

unfoldable pub panic : Writer
panic out = none

-- `out.extend_from_slice(bytes)`, and `out.push(b)` for one byte.
unfoldable pub write_bytes : List ℕ → Writer
write_bytes bytes out = some (out ++ bytes)

pub shift_shrinks : (v : ℕ) → 0 < v / 128 → v / 128 < v
shift_shrinks v h = omega arith

-- Each round pushes the lowest seven bits, with the top bit set while more are to come.
unfoldable pub write_varint_loop : List ℕ → (v : ℕ) → Acc ◌<◌ v → List ℕ
write_varint_loop out v (Acc.intro _ smaller) =
    let byte = bit_and v 0x7f % 256 in
    dite (dec_lt 0 (v / 128))
      (λ more.
        write_varint_loop (out ++ (bit_or byte 0x80 ∷ [])) (v / 128)
          (smaller _ (shift_shrinks v more)))
      (λ _. out ++ (byte ∷ []))

unfoldable pub write_varint : ℕ → Writer
unfolding write_varint_loop lt_wf dec_lt
write_varint v out = some (write_varint_loop out v (lt_wf.apply v))

-- `v.to_le_bytes()` of a word of `n` bytes.
unfoldable pub to_le_bytes : ℕ → ℕ → List ℕ
to_le_bytes zero v = []
to_le_bytes (suc n) v = v % 256 ∷ to_le_bytes n (v / 256)

unfoldable pub write_u16 : ℕ → Writer
write_u16 v = write_bytes (to_le_bytes 2 v)

unfoldable pub write_u32 : ℕ → Writer
write_u32 v = write_bytes (to_le_bytes 4 v)

unfoldable pub write_u64 : ℕ → Writer
write_u64 v = write_bytes (to_le_bytes 8 v)

-- An `i32` as its bit pattern.
abbrev pub i32_bits : ℤ → ℕ
i32_bits (pos n) = n
i32_bits (negsuc n) = 2 ^ 32 - 1 - n

unfoldable pub write_i32 : ℤ → Writer
write_i32 v = write_bytes (to_le_bytes 4 (i32_bits v))

unfoldable pub write_u8 : ℕ → Writer
write_u8 v = write_bytes (v ∷ [])

-- `if *b { 1 } else { 0 }`.
unfoldable pub write_bool : Bool → Writer
write_bool b = write_u8 (if b then 1 else 0)

-- A `String` is the list of its UTF-8 bytes; `s.len() as u32` wraps.
unfoldable pub write_str : List ℕ → Writer
write_str s = write_varint (length s % 2 ^ 32) >> write_bytes s

-- A `Vec<u8>` behind its length.
unfoldable pub write_blob : List ℕ → Writer
write_blob bytes = write_varint (length bytes % 2 ^ 32) >> write_bytes bytes

-- `for c in items { write(out, *c); }`.
unfoldable pub write_each {ℓ} : {A : Type ℓ} → (A → Writer) → List A → Writer
write_each write [] = skip
write_each write (x ∷ xs) = write x >> write_each write xs
