-- ===== src/Pixel/Lz4/RoundTrip.antt =====
-- gutted-proto/src/lib.rs: a block of `lz4_encode_into` through `lz4_decode`.
use exo_browser_core.Common.{
  All-append, ℕ, ◌+◌, ◌*◌, ◌/◌, ◌%◌, ◌^◌, ◌≤◌, ◌<◌, ◌≡◌, refl, ap, ◌∙◌, min, true, false, Option,
  List, [], ◌++◌, length, take, drop, All, ltb, leb, ◌==◌, Bool-cases, inl, inr, arith,
  append_assoc, length-append, take-append_left, drop-append_left,
}
use exo_browser_core.Wire.Result.{ok}
use exo_browser_core.Wire.Varint.{IsByte}
use exo_browser_core.Wire.Writer.{to_le_bytes}
use exo_browser_core.Wire.Reader.{from_le_bytes}
use exo_browser_core.Wire.RoundTrip.{from_le_bytes-to_le_bytes}
use exo_browser_core.Pixel.Lz4.Encode.{write_literals, lz4_encode_loop, lz4_encode_into}
use exo_browser_core.Pixel.Lz4.Decode.{lz4_decode, lz4_decode_loop, unexpected, max_message_bytes}
use exo_browser_core.Pixel.Lz4.Sequence.{Restores-literals}
use exo_browser_core.Pixel.Lz4.Blocks.{last_block, lz4_encode_loop-Restores}

-- What follows the four bytes of the length.
record IsBlock (input : List ℕ) : Type 0 where
  block : List ℕ
  valid : All IsByte block
  writes :
      (out : List ℕ) → lz4_encode_into input out ≡ (out ++ to_le_bytes 4 (length input)) ++ block
  few : 255 * length block ≤ 256 * length input + 495
  restores :
      (fuel : ℕ) → length block ≤ fuel → lz4_decode_loop fuel block (length input) [] ≡ ok input

-- A short input is one run of literals.
lz4_encode_into_short :
    (input out : List ℕ)
    → length input < 13
    → lz4_encode_into input out ≡ write_literals (out ++ to_le_bytes 4 (length input)) input 0
unfolding lz4_encode_into write_literals
lz4_encode_into_short input out h =
    let below : ltb (length input) 13 ≡ true = ground arith in
    let small : length input % 2 ^ 32 ≡ length input = omega arith in
    let no_more : leb 15 (length input) ≡ false = ground arith in
    let token : length input * 16 % 256 ≡ min (length input) 15 * 16 + 0 = omega arith in
    rw (below, small, no_more, token) refl

lz4_encode_into_long :
    (input out : List ℕ)
    → 13 ≤ length input
    → length input < 2 ^ 32
    → lz4_encode_into input out
      ≡ last_block input
          (lz4_encode_loop (length input) input 0 0 (λ _. 0) (out ++ to_le_bytes 4 (length input)))
unfolding lz4_encode_into last_block
lz4_encode_into_long input out h k =
    let below : ltb (length input) 13 ≡ false = ground arith in
    let small : length input % 2 ^ 32 ≡ length input = omega arith in rw (below, small) refl

lz4_encode_into-IsBlock :
    (input : List ℕ) → All IsByte input → length input < 2 ^ 32 → IsBlock input
lz4_encode_into-IsBlock input bytes fits = elim (Bool-cases (ltb (length input) 13)) [
  | inl short ↦
      let v = Restores-literals input [] input refl bytes (omega arith) in
      record {
        block = v.bytes;
        valid = v.valid;
        few = omega (arith, v.few);
        writes = λ out.
            lz4_encode_into_short input out (ground (arith, short))
            ∙ v.writes (out ++ to_le_bytes 4 (length input));
        restores = v.restores;
      }
  | inr long ↦
      let v =
        lz4_encode_loop-Restores (length input) input 0 0 (λ _. 0) bytes fits (ground (arith, long))
          (omega arith) in
      record {
        block = v.bytes;
        valid = v.valid;
        few = omega (arith, v.few);
        writes = λ out.
            lz4_encode_into_long input out (ground (arith, long)) fits
            ∙ v.writes (out ++ to_le_bytes 4 (length input));
        restores = v.restores;
      }
]

-- A list of bytes no longer than the limit of a message comes back from its block, when the reader
-- expects no length or the length of the list.
pub lz4_decode-lz4_encode_into :
    (input : List ℕ) (expected_len : Option ℕ)
    → All IsByte input
    → length input ≤ max_message_bytes
    → unexpected expected_len (length input) ≡ false
    → lz4_decode (lz4_encode_into input []) expected_len ≡ ok input
unfolding lz4_decode to_le_bytes
lz4_decode-lz4_encode_into input expected_len bytes fits expects =
    let v = lz4_encode_into-IsBlock input bytes (omega arith) in
    let header = to_le_bytes 4 (length input) in
    let head : from_le_bytes (take 4 (header ++ v.block)) ≡ length input =
      ap from_le_bytes (take-append_left 4 header v.block refl)
      ∙ from_le_bytes-to_le_bytes 4 (length input) (omega arith) in
    let tail : drop 4 (header ++ v.block) ≡ v.block = drop-append_left 4 header v.block refl in
    let size : length (header ++ v.block) ≡ 4 + length v.block =
      omega (arith, length-append header v.block) in
    let enough : ltb (4 + length v.block) 4 ≡ false = ground arith in
    let small : ltb max_message_bytes (length input) ≡ false = ground arith in
    let same : (length input == length input) ≡ true = ground arith in
    rw
      (
        v.writes [],
        head,
        tail,
        size,
        enough,
        small,
        expects,
        v.restores (4 + length v.block) (omega arith),
        same,
      )
      refl

pub lz4_encode_into-valid :
    (input : List ℕ)
    → All IsByte input
    → length input < 2 ^ 32
    → All IsByte (lz4_encode_into input [])
unfolding to_le_bytes
lz4_encode_into-valid input bytes fits =
    let v = lz4_encode_into-IsBlock input bytes fits in
    rw (v.writes []) (
      All-append IsByte (to_le_bytes 4 (length input)) v.block
        (omega arith, (omega arith, (omega arith, (omega arith, tt)))) v.valid)

-- For a list of bytes shorter than 2^32, a block is at most six bytes longer than the input, and one
-- more for each 255 bytes of it.
pub length-lz4_encode_into :
    (input : List ℕ)
    → All IsByte input
    → length input < 2 ^ 32
    → length (lz4_encode_into input []) ≤ length input + length input / 255 + 6
unfolding to_le_bytes
length-lz4_encode_into input bytes fits =
    let v = lz4_encode_into-IsBlock input bytes fits in
    rw (v.writes []) (omega (arith, v.few, length-append (to_le_bytes 4 (length input)) v.block))

-- What is written does not depend on what stands before it.
pub lz4_encode_into-append :
    (input out : List ℕ)
    → All IsByte input
    → length input < 2 ^ 32
    → lz4_encode_into input out ≡ out ++ lz4_encode_into input []
lz4_encode_into-append input out bytes fits =
    let v = lz4_encode_into-IsBlock input bytes fits in
    rw (v.writes out, v.writes []) (append_assoc out (to_le_bytes 4 (length input)) v.block)
