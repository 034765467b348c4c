-- ===== src/Pixel/Lz4/Blocks.antt =====
-- gutted-proto/src/lib.rs: the loop of `lz4_encode_into` writes what `lz4_decode` restores.
pub mod Parts
use exo_browser_core.Common.{
  All-append, ℕ, zero, suc, ◌+◌, ◌-◌, ◌*◌, ◌/◌, ◌%◌, ◌^◌, ◌≤◌, ◌<◌, ◌≡◌, sym, ap, ◌∙◌, min, List,
  [], ◌∷◌, ◌++◌, length, take, drop, All, leb, Bool-cases, Option-cases, inl, inr, arith,
  append_assoc, length-append, length-take, take-add, take-append-drop, All-take, All-drop,
}
use native.Mathlib.Decide.{dec_le}
use exo_browser_core.Wire.Result.{ok}
use exo_browser_core.Wire.Varint.{IsByte}
use exo_browser_core.Wire.Writer.{to_le_bytes}
use exo_browser_core.Pixel.Lz4.Encode.{
  HashTable, hash_at, between, find_match, write_literals, write_match, lz4_encode_loop,
}
use exo_browser_core.Pixel.Lz4.Decode.{copy_match, lz4_decode_loop}
use exo_browser_core.Pixel.Lz4.Copy.{copy_match-copy_bytes}
use exo_browser_core.Pixel.Lz4.Sequence.{
  Extension, len-Extension, Restores, Restores-literals, write_literals-bytes, write_match-bytes,
  IsFew, decode-sequence,
}
use exo_browser_core.Pixel.Lz4.Match.{
  IsMatch, find_match-IsMatch, match_len_at, Repeats, match-Repeats, copy_bytes-take,
}
use exo_browser_core.Pixel.Lz4.Blocks.Parts.{
  sequence_few, length-take-between, sequence, length-sequence, sequence-IsByte, sequence-written,
  sequence-decoded,
}

-- What is left to encode, once the loop has its last anchor.
unfoldable pub last_block : List ℕ → ℕ × List ℕ → List ℕ
last_block input (anchor, out) = write_literals out (drop anchor input) 0

-- One sequence in front of a block that restores the rest.
Restores-sequence :
    (input : List ℕ) (anchor ip mpos m : ℕ) (write : List ℕ → List ℕ)
    → All IsByte input
    → length input < 2 ^ 32
    → 4 ≤ m
    → anchor ≤ ip
    → IsMatch input ip mpos
    → Repeats input ip mpos m
    → Restores input (take (ip + m) input) write
    → Restores input (take anchor input) (λ out.
      write
        (write_match (write_literals out (between input anchor ip) (min (m - 4) 15)) (ip - mpos) m))
Restores-sequence input anchor ip mpos m write bytes fits long h v r rest =
    let literals = between input anchor ip in
    let known = take anchor input in
    let l = len-Extension (length literals) in
    let x = len-Extension (m - 4) in
    let count = length-sequence literals (ip - mpos) m l x rest.bytes in
    let size = length-take-between input anchor ip m h r in
    record {
      bytes = sequence literals (ip - mpos) m l x rest.bytes;
      valid =
          sequence-IsByte literals (ip - mpos) m l x rest.bytes
            (All-take IsByte (ip - anchor) (drop anchor input) (All-drop IsByte anchor input bytes))
            rest.valid;
      few =
          sequence_few (length literals) m (length l.bytes) (length x.bytes) (length rest.bytes) _
            (length input - length known) (length input - length (take (ip + m) input)) l.few x.few
            long
            (omega
              (arith, size, length-append known literals, length-take (ip + m) input, r.inside))
            rest.few count;
      writes = λ out. rest.writes _ ∙ sequence-written literals (ip - mpos) m l x rest.bytes out;
      restores = λ fuel k.
          sequence-decoded input anchor ip mpos m l x rest.bytes fits long h v r rest.restores fuel
            k;
    }

-- The whole loop: the decoder that has the input up to the anchor gets the rest from the block.
pub lz4_encode_loop-Restores :
    (fuel : ℕ) (input : List ℕ) (ip anchor : ℕ) (table : HashTable)
    → All IsByte input
    → length input < 2 ^ 32
    → 13 ≤ length input
    → anchor ≤ ip
    → Restores input
        (take anchor input)
        (λ out. last_block input (lz4_encode_loop fuel input ip anchor table out))
unfolding lz4_encode_loop last_block
lz4_encode_loop-Restores zero input ip anchor table bytes fits long h =
    Restores-literals input (take anchor input) (drop anchor input) (take-append-drop anchor input)
      (All-drop IsByte anchor input bytes) (omega arith)
lz4_encode_loop-Restores (suc fuel) input ip anchor table bytes fits long h =
    elim (Bool-cases (leb ip (length input - 12))) [
      | inr stop ↦
          rw (lz4_encode_loop, stop)
            (Restores-literals input (take anchor input) (drop anchor input)
              (take-append-drop anchor input) (All-drop IsByte anchor input bytes) (omega arith))
      | inl go ↦ elim (Option-cases (find_match input ip (table (hash_at input ip)))) [
        | inl nothing ↦
            rw (lz4_encode_loop, go, nothing)
              (lz4_encode_loop-Restores fuel input (ip + 1 + (ip - anchor) / 2 ^ 5) anchor _ bytes
                fits long (omega arith))
        | inr (mpos, found) ↦
            rw (lz4_encode_loop, go, found)
              (let v = find_match-IsMatch input ip (table (hash_at input ip)) mpos found in
                let m = match_len_at input ip mpos in
                Restores-sequence input anchor ip mpos m _ bytes fits (omega arith) h v
                  (match-Repeats input ip mpos bytes (ground (arith, go)) v)
                  (lz4_encode_loop-Restores fuel input (ip + m) (ip + m) _ bytes fits long
                    (omega arith)))
      ]
    ]
