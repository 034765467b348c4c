-- ===== src/Wire/RoundTrip.antt =====
-- gutted-proto/src/lib.rs: each `write_*` helper against its `read_*` helper.
pub mod Sequence
use exo_browser_core.Common.{
  subst, ◌%◌, sym, ℕ, zero, suc, ◌/◌, ◌^◌, ◌<◌, ◌≡◌, refl, ◌∙◌, ap, Bool, true, false, some, List,
  [], ◌∷◌, ◌++◌, append_assoc, append-nil, length, length-append, take-append_left,
  drop-append_left, le→leb, All, ℤ, pos, negsuc, arith,
}
use exo_browser_core.Wire.Result.{Error, ok}
use exo_browser_core.Wire.Writer.{
  Writer, ◌>>◌, skip, write_bytes, write_varint, to_le_bytes, write_u16, write_u32, write_u64,
  i32_bits, write_i32, write_u8, write_bool, write_str, write_each,
}
use exo_browser_core.Wire.Reader.{
  Reader, ◌>>=◌, ret, read_bytes, read_varint, from_le_bytes, read_u16, read_u32, read_u64,
  i32_of_bits, read_i32, read_u8, read_bool, read_str, read_times,
}
use exo_browser_core.Wire.Utf8.{valid_utf8}
use native.Mathlib.Nat.{pow-suc, mod-eq_of_lt}
use exo_browser_core.Wire.Varint.{leb128, write_varint-leb128, read_varint-leb128}
pub use exo_browser_core.Wire.RoundTrip.Sequence.{
  Inverse, >>-some, >>=-ok, Inverse-seq, Inverse-skip, Inverse-last, Inverse-end, Whole,
  Whole-Inverse, Whole-seq, Whole-last, Inverse-known,
}

-- The range of an `i32`.
abbrev pub IsI32 : ℤ → Type 0
IsI32 (pos n) = n < 2 ^ 31
IsI32 (negsuc n) = n < 2 ^ 31

-- A `String` that fits a length prefix.
pub record IsStr (s : List ℕ) : Type 0 where
  pub utf8 : valid_utf8 s ≡ true
  pub short : length s < 2 ^ 32

pub Inverse-bytes :
    (n : ℕ) (e : Error) (bs : List ℕ) → length bs ≡ n → Inverse (write_bytes bs) (read_bytes n e) bs
unfolding write_bytes read_bytes
Inverse-bytes n e bs h = record {
  bytes = bs;
  writes = λ out. refl;
  reads = λ rest. rw (
    le→leb n (length (bs ++ rest)) (omega (arith, length-append bs rest)),
    take-append_left n bs rest h,
    drop-append_left n bs rest h,
  );
}

pub Inverse-varint : (v : ℕ) → v < 2 ^ 32 → Inverse (write_varint v) read_varint v
Inverse-varint v h = record {
  bytes = leb128 4 v;
  writes = λ out. write_varint-leb128 v out h;
  reads = λ rest. read_varint-leb128 v rest h;
}

length-to_le_bytes : (n v : ℕ) → length (to_le_bytes n v) ≡ n
unfolding to_le_bytes
length-to_le_bytes zero v = refl
length-to_le_bytes (suc n) v = ap suc (length-to_le_bytes n (v / 256))

pub from_le_bytes-to_le_bytes : (n v : ℕ) → v < 256 ^ n → from_le_bytes (to_le_bytes n v) ≡ v
unfolding from_le_bytes to_le_bytes
from_le_bytes-to_le_bytes zero v h = omega arith
from_le_bytes-to_le_bytes (suc n) v h =
    omega (arith, from_le_bytes-to_le_bytes n (v / 256) (omega (arith, pow-suc 256 n)))

pub Inverse-u16 : (v : ℕ) → v < 2 ^ 16 → Inverse (write_u16 v) read_u16 v
unfolding write_u16 read_u16
Inverse-u16 v h =
    Inverse-end _ (Inverse-bytes 2 _ _ (length-to_le_bytes 2 v))
      (ap ret (from_le_bytes-to_le_bytes 2 v h))

pub Inverse-u32 : (v : ℕ) → v < 2 ^ 32 → Inverse (write_u32 v) read_u32 v
unfolding write_u32 read_u32
Inverse-u32 v h =
    Inverse-end _ (Inverse-bytes 4 _ _ (length-to_le_bytes 4 v))
      (ap ret (from_le_bytes-to_le_bytes 4 v h))

pub Inverse-u64 : (v : ℕ) → v < 2 ^ 64 → Inverse (write_u64 v) read_u64 v
unfolding write_u64 read_u64
Inverse-u64 v h =
    Inverse-end _ (Inverse-bytes 8 _ _ (length-to_le_bytes 8 v))
      (ap ret (from_le_bytes-to_le_bytes 8 v h))

i32_bits-lt : (z : ℤ) → IsI32 z → i32_bits z < 2 ^ 32
i32_bits-lt (pos n) h = omega arith
i32_bits-lt (negsuc n) h = omega arith

i32_of_bits-i32_bits : (z : ℤ) → IsI32 z → i32_of_bits (i32_bits z) ≡ z
i32_of_bits-i32_bits (pos n) h = ground arith
i32_of_bits-i32_bits (negsuc n) h = ground arith

pub Inverse-i32 : (z : ℤ) → IsI32 z → Inverse (write_i32 z) read_i32 z
unfolding write_i32 read_i32
Inverse-i32 z h =
    Inverse-end _ (Inverse-bytes 4 _ _ (length-to_le_bytes 4 (i32_bits z)))
      (rw (from_le_bytes-to_le_bytes 4 (i32_bits z) (i32_bits-lt z h), i32_of_bits-i32_bits z h))

pub Inverse-u8 : (v : ℕ) → Inverse (write_u8 v) read_u8 v
unfolding write_u8 write_bytes read_u8
Inverse-u8 v = record { bytes = v ∷ []; writes = λ out. refl; reads = λ rest. refl }

-- The same at a `u8` in range.
pub Inverse-byte : (v : ℕ) → v < 2 ^ 8 → Inverse (write_u8 v) read_u8 v
Inverse-byte v h = Inverse-u8 v

pub Inverse-bool : (b : Bool) → Inverse (write_bool b) read_bool b
unfolding write_bool read_bool
Inverse-bool true = Inverse-end _ (Inverse-u8 1) refl
Inverse-bool false = Inverse-end _ (Inverse-u8 0) refl

-- A `String` that is not too long for the prefix.
pub Inverse-str : (s : List ℕ) → IsStr s → Inverse (write_str s) read_str s
unfolding write_str read_str
Inverse-str s h = rw (mod-eq_of_lt h.short) (
    Inverse-seq _ (Inverse-varint (length s) h.short)
      (Inverse-end _ (Inverse-bytes (length s) _ s refl) (rw h.utf8)))

pub Inverse-each :
    {A : Type 0} (w : A → Writer) (r : Reader A) (n : ℕ) (xs : List A)
    → length xs ≡ n
    → All (λ x. Inverse (w x) r x) xs
    → Inverse (write_each w xs) (read_times n r) xs
unfolding write_each read_times
Inverse-each w r zero [] e h = Inverse-skip []
Inverse-each w r zero (x ∷ xs) e h = absurd (omega arith)
Inverse-each w r (suc n) [] e h = absurd (omega arith)
Inverse-each w r (suc n) (x ∷ xs) e h =
    Inverse-seq _ h.0 (Inverse-end _ (Inverse-each w r n xs (omega arith) h.1) refl)

-- The length prefix of a `Vec`.
pub Inverse-len :
    {A : Type 0} (xs : List A)
    → length xs < 2 ^ 32
    → Inverse (write_varint (length xs % 2 ^ 32)) read_varint (length xs)
Inverse-len xs h = rw (mod-eq_of_lt h) (Inverse-varint (length xs) h)

pub ruleset wire_rules = (
  Inverse-seq, Inverse-last, Inverse-known, Inverse-skip, Inverse-byte, Inverse-u16, Inverse-u32,
  Inverse-u64, Inverse-i32, Inverse-str, Inverse-len,
)
