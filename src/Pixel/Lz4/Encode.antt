-- ===== src/Pixel/Lz4/Encode.antt =====
-- gutted-proto/src/lib.rs: `write_lz4_len`, `common_prefix_len` and `lz4_encode_into`.
use Prim.Native.Nat.{bit_xor}
use exo_browser_core.Common.{
  ℕ, zero, suc, ◌+◌, ◌-◌, ◌*◌, ◌/◌, ◌%◌, ◌^◌, ◌≤◌, ◌<◌, min, true, false, ◌&&◌, Option, none, some,
  List, [], ◌∷◌, ◌++◌, length, take, drop, ltb, leb, ◌==◌, if◌then◌else◌, Acc, lt_wf, dite, arith,
}
use exo_browser_core.Wire.Reader.{from_le_bytes}
use exo_browser_core.Wire.Writer.{to_le_bytes}
use exo_browser_core.Pixel.Bytes.{bytes_eq}
use native.Mathlib.Decide.{dec_le}

pub len_shrinks : (rem : ℕ) → 255 ≤ rem → rem - 255 < rem
len_shrinks rem h = omega arith

-- `while rem >= 255 { out.push(255); rem -= 255; }`, then the rest.
unfoldable pub write_lz4_len_loop : List ℕ → (rem : ℕ) → Acc ◌<◌ rem → List ℕ
write_lz4_len_loop out rem (Acc.intro _ smaller) =
    dite (dec_le 255 rem)
      (λ more.
        write_lz4_len_loop (out ++ (255 ∷ [])) (rem - 255) (smaller _ (len_shrinks rem more)))
      (λ _. out ++ (rem % 256 ∷ []))

unfoldable pub write_lz4_len : List ℕ → ℕ → List ℕ
unfolding write_lz4_len_loop lt_wf dec_le
write_lz4_len out rem = write_lz4_len_loop out rem (lt_wf.apply rem)

-- `x.trailing_zeros()` of a word of `bits` bits.
unfoldable pub trailing_zeros : ℕ → ℕ → ℕ
trailing_zeros zero x = 0
trailing_zeros (suc bits) x =
    let rest = trailing_zeros bits (x / 2) in if x % 2 == 1 then 0 else suc rest

-- `while i < n && a[i] == b[i]`: `a` and `b` are what is left of the slices.
unfoldable pub common_prefix_tail : List ℕ → List ℕ → ℕ → ℕ
common_prefix_tail [] b i = i
common_prefix_tail (x ∷ a) [] i = i
common_prefix_tail (x ∷ a) (y ∷ b) i =
    let rest = common_prefix_tail a b (i + 1) in if x == y then rest else i

-- `while i + 8 <= n`: the words of 8 bytes; `rounds` bounds their number.
unfoldable pub common_prefix_words : ℕ → List ℕ → List ℕ → ℕ → ℕ
common_prefix_words zero a b i = common_prefix_tail a b i
common_prefix_words (suc rounds) a b i =
    let va = from_le_bytes (take 8 a) in
    let vb = from_le_bytes (take 8 b) in
    let rest = common_prefix_words rounds (drop 8 a) (drop 8 b) (i + 8) in
    if leb 8 (min (length a) (length b))
    then if va == vb then rest else i + trailing_zeros 64 (bit_xor va vb) / 8
    else common_prefix_tail a b i

unfoldable pub common_prefix_len : List ℕ → List ℕ → ℕ
common_prefix_len a b = common_prefix_words (length a) a b 0

-- `input[ip..ip + 4]`.
abbrev pub four_at : List ℕ → ℕ → List ℕ
four_at input i = take 4 (drop i input)

-- `input[from..to]`.
abbrev pub between : List ℕ → ℕ → ℕ → List ℕ
between input from to = take (to - from) (drop from input)

-- `hash_table: [u32; 4096]`, and the slot of the four bytes at a position.
abbrev pub HashTable : Type 0
HashTable = ℕ → ℕ

abbrev pub put : HashTable → ℕ → ℕ → HashTable
put table h v = λ slot. if slot == h then v else table slot

abbrev pub hash_at : List ℕ → ℕ → ℕ
hash_at input i = from_le_bytes (four_at input i) * 2654435761 % 2 ^ 32 / 2 ^ 20

-- The position to copy from: a repeat at distance 1 or 4, or what the table remembers.
unfoldable pub find_match : List ℕ → ℕ → ℕ → Option ℕ
find_match input ip ref_pos =
    if leb 1 ip && bytes_eq (four_at input ip) (four_at input (ip - 1))
    then some (ip - 1)
    else if leb 4 ip && bytes_eq (four_at input ip) (four_at input (ip - 4))
    then some (ip - 4)
    else if ltb ref_pos ip
        && leb (ip - ref_pos) 0xFFFF
        && bytes_eq (four_at input ref_pos) (four_at input ip)
    then some ref_pos
    else none

-- The token with its literals: `(ll_code << 4) | ml_code`, the rest of the length, the bytes.
unfoldable pub write_literals : List ℕ → List ℕ → ℕ → List ℕ
write_literals out literals ml_code =
    let lit_len = length literals in
    let token = out ++ ((min lit_len 15 * 16 + ml_code) ∷ []) in
    (if leb 15 lit_len then write_lz4_len token (lit_len - 15) else token) ++ literals

unfoldable pub write_match : List ℕ → ℕ → ℕ → List ℕ
write_match out offset match_len =
    let out' = out ++ to_le_bytes 2 (offset % 2 ^ 16) in
    if leb 15 (match_len - 4) then write_lz4_len out' (match_len - 4 - 15) else out'

-- `while ip <= limit`; the result is the last anchor with what was written. Each round moves
-- `ip`, so `length input` rounds are enough.
unfoldable pub lz4_encode_loop : ℕ → List ℕ → ℕ → ℕ → HashTable → List ℕ → ℕ × List ℕ
lz4_encode_loop zero input ip anchor table out = (anchor, out)
lz4_encode_loop (suc fuel) input ip anchor table out = elim (leb ip (length input - 12)) [
  | false ↦ (anchor, out)
  | true ↦
      let h = hash_at input ip in
      let table' = put table h (ip % 2 ^ 32) in
      elim (find_match input ip (table h)) [
        | none ↦ lz4_encode_loop fuel input (ip + 1 + (ip - anchor) / 2 ^ 5) anchor table' out
        | some mpos ↦
            let match_limit = length input - 5 in
            let match_len =
              4
              + common_prefix_len (between input (mpos + 4) match_limit)
                  (between input (ip + 4) match_limit) in
            let ml_code = min (match_len - 4) 15 in
            let out' =
              write_match (write_literals out (between input anchor ip) ml_code) (ip - mpos)
                match_len in
            let ip' = ip + match_len in
            let table'' =
              if leb ip' (length input - 12)
              then put table' (hash_at input (ip' - 2)) ((ip' - 2) % 2 ^ 32)
              else table' in
            lz4_encode_loop fuel input ip' ip' table'' out'
      ]
]

-- `lz4_encode_into`; an input below 13 bytes is one run of literals.
unfoldable pub lz4_encode_into : List ℕ → List ℕ → List ℕ
lz4_encode_into input out =
    let header = out ++ to_le_bytes 4 (length input % 2 ^ 32) in
    if ltb (length input) 13
    then (header ++ (length input * 16 % 256 ∷ [])) ++ input
    else let (anchor, out') = lz4_encode_loop (length input) input 0 0 (λ _. 0) header in
      write_literals out' (drop anchor input) 0
