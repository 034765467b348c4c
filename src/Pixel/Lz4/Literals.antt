-- ===== src/Pixel/Lz4/Literals.antt =====
-- gutted-proto/src/lib.rs: inputs below 13 bytes through `lz4_encode_into` and `lz4_decode`.
use exo_browser_core.Common.{
  ℕ, suc, ◌+◌, ◌*◌, ◌/◌, ◌%◌, ◌^◌, ◌<◌, ◌≡◌, refl, sym, ap, ◌∙◌, some, List, [], ◌∷◌, ◌++◌, length,
  take, drop, true, false, ltb, ◌==◌, arith, length-append, append-nil, take-append_left,
  drop-append_left,
}
use exo_browser_core.Wire.Result.{ok}
use exo_browser_core.Wire.Writer.{to_le_bytes}
use exo_browser_core.Wire.Reader.{from_le_bytes}
use exo_browser_core.Pixel.Lz4.Decode.{
  lz4_decode, lz4_decode_loop, extend_len, unexpected, max_message_bytes,
}
use exo_browser_core.Wire.RoundTrip.{from_le_bytes-to_le_bytes}
use exo_browser_core.Pixel.Lz4.Encode.{lz4_encode_into}

-- One run of literals at the end of a block.
last_literals :
    (fuel : ℕ) (input : List ℕ)
    → length input < 13
    → lz4_decode_loop (suc fuel) (length input * 16 % 256 ∷ input) (length input) [] ≡ ok input
unfolding lz4_decode_loop extend_len
last_literals fuel input h =
    let nibble : length input * 16 % 256 / 16 ≡ length input = omega arith in
    let short : (length input == 15) ≡ false = ground arith in
    let there : ltb (length input) (length input) ≡ false = ground arith in
    let zeroth : 0 + length input ≡ length input = omega arith in
    let all_taken : take (length input) input ≡ input =
      ap (take (length input)) (sym (append-nil input))
      ∙ take-append_left (length input) input [] refl in
    let none_left : drop (length input) input ≡ [] =
      ap (drop (length input)) (sym (append-nil input))
      ∙ drop-append_left (length input) input [] refl in
    rw (nibble, short, zeroth, there, none_left, all_taken) refl

-- An input below 13 bytes comes back, behind its length and one token.
pub lz4_decode-lz4_encode_short :
    (input : List ℕ)
    → length input < 13
    → lz4_decode (lz4_encode_into input []) (some (length input)) ≡ ok input
unfolding lz4_decode lz4_encode_into unexpected to_le_bytes
lz4_decode-lz4_encode_short input h =
    let below : ltb (length input) 13 ≡ true = ground arith in
    let small : length input % 2 ^ 32 ≡ length input = omega arith in
    let header = to_le_bytes 4 (length input) in
    let token = length input * 16 % 256 in
    let block : lz4_encode_into input [] ≡ header ++ (token ∷ input) = rw (below, small) refl in
    let head : from_le_bytes (take 4 (header ++ (token ∷ input))) ≡ length input =
      ap from_le_bytes (take-append_left 4 header (token ∷ input) refl)
      ∙ from_le_bytes-to_le_bytes 4 (length input) (omega arith) in
    let tail : drop 4 (header ++ (token ∷ input)) ≡ token ∷ input =
      drop-append_left 4 header (token ∷ input) refl in
    let size : length (header ++ (token ∷ input)) ≡ suc (4 + length input) =
      omega (arith, length-append header (token ∷ input)) in
    let enough : ltb (suc (4 + length input)) 4 ≡ false = ground arith in
    let fits : ltb max_message_bytes (length input) ≡ false = ground arith in
    let same : (length input == length input) ≡ true = ground arith in
    rw (block, head, tail, size, enough, fits, same, last_literals (4 + length input) input h, same)
      refl
