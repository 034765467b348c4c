-- ===== src/Wire/Reader.antt =====
-- gutted-proto/src/lib.rs: `read_varint` and the `read_*` helpers.
use exo_browser_core.Common.{
  ℕ, zero, suc, ◌+◌, ◌-◌, ◌*◌, ◌%◌, ◌^◌, bit_and, bit_or, Bool, ◌&&◌, not, List, [], ◌∷◌, ℤ, pos,
  negsuc, length, take, drop, ltb, leb, ◌==◌, if◌then◌else◌,
}
use exo_browser_core.Wire.Result.{
  Error, Result, ok, err, unexpected_eof, varint_overflow, length_overflow, invalid_utf8,
}
use exo_browser_core.Wire.Utf8.{valid_utf8}

-- A read from `buf: &mut &[u8]`: the value and what is left of the buffer, or an error.
abbrev pub Reader : Type 0 → Type 0
Reader A = List ℕ → Result (A × List ℕ)

infixl 5 ◌>>=◌
unfoldable pub ◌>>=◌ : {A B : Type 0} → Reader A → (A → Reader B) → Reader B
(r >>= f) buf = elim (r buf) [ ok (a, rest) ↦ f a rest | err e ↦ err e ]

unfoldable pub ret : {A : Type 0} → A → Reader A
ret a buf = ok (a, buf)

unfoldable pub fail : {A : Type 0} → Error → Reader A
fail e buf = err e

-- `buf.get(..n).ok_or(e)?`, and the buffer moved past it.
unfoldable pub read_bytes : ℕ → Error → Reader (List ℕ)
read_bytes n e buf = if leb n (length buf) then ok (take n buf, drop n buf) else err e

-- `for i in 0..5`: `rounds` is what is left of the range.
unfoldable pub read_varint_loop : ℕ → ℕ → ℕ → ℕ → Reader ℕ
read_varint_loop zero i shift result buf = err varint_overflow
read_varint_loop (suc rounds) i shift result [] = err unexpected_eof
read_varint_loop (suc rounds) i shift result (byte ∷ rest) =
    let result' = bit_or result (bit_and byte 0x7f * 2 ^ shift % 2 ^ 32) in
    let more = read_varint_loop rounds (i + 1) (shift + 7) result' rest in
    if i == 4 && not (bit_and byte 0xF0 == 0)
    then err varint_overflow
    else if bit_and byte 0x80 == 0
    then ok (result', rest)
    else more

unfoldable pub read_varint : Reader ℕ
unfolding read_varint_loop
read_varint buf = read_varint_loop 5 0 0 0 buf

unfoldable pub from_le_bytes : List ℕ → ℕ
from_le_bytes [] = 0
from_le_bytes (b ∷ bs) = b + 256 * from_le_bytes bs

unfoldable pub read_u16 : Reader ℕ
read_u16 = do arr ← read_bytes 2 unexpected_eof; ret (from_le_bytes arr)

unfoldable pub read_u32 : Reader ℕ
read_u32 = do arr ← read_bytes 4 unexpected_eof; ret (from_le_bytes arr)

unfoldable pub read_u64 : Reader ℕ
read_u64 = do arr ← read_bytes 8 unexpected_eof; ret (from_le_bytes arr)

-- The `i32` of a bit pattern.
abbrev pub i32_of_bits : ℕ → ℤ
i32_of_bits w = if ltb w (2 ^ 31) then pos w else negsuc (2 ^ 32 - 1 - w)

unfoldable pub read_i32 : Reader ℤ
read_i32 = do arr ← read_bytes 4 unexpected_eof; ret (i32_of_bits (from_le_bytes arr))

unfoldable pub read_u8 : Reader ℕ
read_u8 [] = err unexpected_eof
read_u8 (b ∷ rest) = ok (b, rest)

-- `read_u8_(p)? != 0`.
unfoldable pub read_bool : Reader Bool
read_bool = do b ← read_u8; ret (not (b == 0))

unfoldable pub read_str : Reader (List ℕ)
read_str = do
  len ← read_varint
  bytes ← read_bytes len length_overflow
  if valid_utf8 bytes then ret bytes else fail invalid_utf8

-- The reads of a `[u8; 32]`, and of a `Vec<u8>` behind its length.
unfoldable pub read_hash : Reader (List ℕ)
read_hash = read_bytes 32 unexpected_eof

unfoldable pub read_blob : Reader (List ℕ)
read_blob = do len ← read_varint; read_bytes len length_overflow

-- `for _ in 0..n { items.push(read(p)?); }`.
unfoldable pub read_times : {A : Type 0} → ℕ → Reader A → Reader (List A)
read_times zero read = ret []
read_times (suc n) read = do x ← read; xs ← read_times n read; ret (x ∷ xs)
