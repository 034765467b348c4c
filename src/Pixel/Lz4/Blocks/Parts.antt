-- ===== src/Pixel/Lz4/Blocks/Parts.antt =====
-- gutted-proto/src/lib.rs: one sequence of a block, as bytes, and what `lz4_decode` makes of it.
use exo_browser_core.Common.{
  All-append, ℕ, zero, suc, ◌+◌, ◌-◌, ◌*◌, ◌%◌, ◌^◌, ◌≤◌, ◌<◌, ◌≡◌, sym, ap, ◌∙◌, min, List, [],
  ◌∷◌, ◌++◌, length, take, All, arith, append_assoc, length-append, length-take, take-add,
}
use native.Mathlib.Decide.{dec_le}
use exo_browser_core.Wire.Result.{ok}
use exo_browser_core.Wire.Varint.{IsByte}
use exo_browser_core.Wire.Writer.{to_le_bytes}
use exo_browser_core.Pixel.Lz4.Encode.{between, write_literals, write_match}
use exo_browser_core.Pixel.Lz4.Decode.{copy_match, lz4_decode_loop}
use exo_browser_core.Pixel.Lz4.Copy.{copy_match-copy_bytes}
use exo_browser_core.Pixel.Lz4.Sequence.{
  Extension, write_literals-bytes, write_match-bytes, IsFew, decode-sequence,
}
use exo_browser_core.Pixel.Lz4.Match.{IsMatch, Repeats, copy_bytes-take}

regroup :
    (a b c d e f g : List ℕ)
    → ((a ++ (b ++ (c ++ d))) ++ (e ++ f)) ++ g ≡ a ++ (b ++ (c ++ (d ++ (e ++ (f ++ g)))))
regroup a b c d e f g = simp append_assoc

-- A sequence spends at most a byte for each byte it stands for, and one more for each 255.
pub sequence_few :
    (len m l x rest n before after : ℕ)
    → IsFew len l
    → IsFew (m - 4) x
    → 4 ≤ m
    → before ≡ len + m + after
    → 255 * rest ≤ 256 * after + 495
    → n ≡ 1 + l + len + 2 + x + rest
    → 255 * n ≤ 256 * before + 495
sequence_few len m l x rest n before after (no_l, few_l) (no_x, few_x) h1 h2 h3 h4 =
    elim (dec_le 15 len) [
      | yes p ↦ elim (dec_le 15 (m - 4)) [
        | yes q ↦ omega arith
        | no q ↦ omega (arith, no_x (omega arith))
      ]
      | no p ↦ elim (dec_le 15 (m - 4)) [
        | yes q ↦ omega (arith, no_l (omega arith))
        | no q ↦ omega (arith, no_l (omega arith), no_x (omega arith))
      ]
    ]

take-between :
    (input : List ℕ) (anchor ip : ℕ)
    → anchor ≤ ip
    → take anchor input ++ between input anchor ip ≡ take ip input
take-between input anchor ip h =
    sym (take-add anchor (ip - anchor) input) ∙ ap (λ (n : ℕ). take n input) (omega arith)

pub length-take-between :
    (input : List ℕ) (anchor ip m : ℕ) {mpos : ℕ}
    → anchor ≤ ip
    → Repeats input ip mpos m
    → length (take anchor input ++ between input anchor ip) ≡ ip
length-take-between input anchor ip m h r =
    ap length (take-between input anchor ip h) ∙ omega (arith, length-take ip input, r.inside)

-- The copy of the decoder gives what the encoder found.
copy_match-take :
    (input : List ℕ) (anchor ip mpos m : ℕ)
    → anchor ≤ ip
    → IsMatch input ip mpos
    → Repeats input ip mpos m
    → copy_match (ip - mpos) m (take anchor input ++ between input anchor ip) ≡ take (ip + m) input
copy_match-take input anchor ip mpos m h v r =
    let together = take-between input anchor ip h in
    let size = length-take-between input anchor ip m h r in
    let back : ip - (ip - mpos) ≡ mpos = omega (arith, v.before) in
    copy_match-copy_bytes (ip - mpos) m (take anchor input ++ between input anchor ip)
      (omega (arith, v.before)) (omega (arith, size))
    ∙ rw (size, back, together)
        (copy_bytes-take m mpos ip input v.before (omega (arith, r.inside)) r.same)

-- A token, its literals and its match, in front of the bytes that follow.
module _ (literals : List ℕ) (offset m : ℕ) (l : Extension (length literals))
    (x : Extension (m - 4)) (rest : List ℕ) where
  abbrev pub sequence : List ℕ
  sequence =
      (min (length literals) 15 * 16 + min (m - 4) 15)
      ∷ (l.bytes ++ (literals ++ (to_le_bytes 2 (offset % 2 ^ 16) ++ (x.bytes ++ rest))))

  pub length-sequence :
      length sequence ≡ 1 + length l.bytes + length literals + 2 + length x.bytes + length rest
  unfolding to_le_bytes
  length-sequence =
      let place = to_le_bytes 2 (offset % 2 ^ 16) in
      omega (
        arith,
        length-append l.bytes (literals ++ (place ++ (x.bytes ++ rest))),
        length-append literals (place ++ (x.bytes ++ rest)),
        length-append x.bytes rest,
      )

  pub sequence-IsByte : All IsByte literals → All IsByte rest → All IsByte sequence
  unfolding to_le_bytes
  sequence-IsByte v w = (
    omega arith,
    All-append IsByte l.bytes _ l.valid (
        All-append IsByte literals _ v
          (omega arith, (omega arith, All-append IsByte x.bytes rest x.valid w))),
  )

  pub sequence-written :
      (out : List ℕ)
      → write_match (write_literals out literals (min (m - 4) 15)) offset m ++ rest
        ≡ out ++ sequence
  sequence-written out =
      ap (λ t. t ++ rest)
        (write_match-bytes (write_literals out literals (min (m - 4) 15)) offset m x
          ∙ ap (λ t. t ++ (to_le_bytes 2 (offset % 2 ^ 16) ++ x.bytes))
              (write_literals-bytes out literals (min (m - 4) 15) l))
      ∙ regroup out ((min (length literals) 15 * 16 + min (m - 4) 15) ∷ []) l.bytes literals
          (to_le_bytes 2 (offset % 2 ^ 16)) x.bytes rest

-- The decoder takes the sequence and goes on with the rest.
pub sequence-decoded :
    (input : List ℕ) (anchor ip mpos m : ℕ) (l : Extension (length (between input anchor ip)))
    (x : Extension (m - 4)) (rest : List ℕ)
    → length input < 2 ^ 32
    → 4 ≤ m
    → anchor ≤ ip
    → IsMatch input ip mpos
    → Repeats input ip mpos m
    → ((fuel : ℕ)
        → length rest ≤ fuel
        → lz4_decode_loop fuel rest (length input) (take (ip + m) input) ≡ ok input)
    → (fuel : ℕ) → length (sequence (between input anchor ip) (ip - mpos) m l x rest) ≤ fuel
    → lz4_decode_loop fuel
        (sequence (between input anchor ip) (ip - mpos) m l x rest)
        (length input)
        (take anchor input)
      ≡ ok input
sequence-decoded input anchor ip mpos m l x rest fits long h v r restores zero k =
    absurd (omega arith)
sequence-decoded input anchor ip mpos m l x rest fits long h v r restores (suc fuel) k =
    let literals = between input anchor ip in
    let count = length-sequence literals (ip - mpos) m l x rest in
    let size = length-take-between input anchor ip m h r in
    decode-sequence fuel (length input) (ip - mpos) m (take anchor input) literals rest l x long
      (omega (arith, v.before)) (omega (arith, size)) v.near (omega (arith, size, r.inside))
      (omega arith)
    ∙ rw (copy_match-take input anchor ip mpos m h v r) (restores fuel (omega (arith, count)))
