-- ===== src/Pixel/Lz4/Decode.antt =====
-- gutted-proto/src/lib.rs: `read_lz4_len` and `lz4_decode`.
use exo_browser_core.Common.{
  ℕ, zero, suc, ◌+◌, ◌-◌, ◌*◌, ◌/◌, ◌%◌, ◌^◌, Bool, false, ◌||◌, not, Option, none, some, List, [],
  ◌∷◌, ◌++◌, length, take, drop, get_or, replicate, ltb, leb, ◌==◌, if◌then◌else◌,
}
use exo_browser_core.Wire.Result.{Result, ok, err, try, invalid_value, message_too_large}
use exo_browser_core.Wire.Reader.{from_le_bytes}

-- `MAX_MESSAGE_BYTES`.
abbrev pub max_message_bytes : ℕ
max_message_bytes = 16 * 1024 * 1024

-- Here and below `src` is what is left from `sp` on. `checked_add` is on a 64-bit `usize`.
unfoldable pub read_lz4_len : List ℕ → ℕ → Result (ℕ × List ℕ)
read_lz4_len [] total = err invalid_value
read_lz4_len (b ∷ src) total =
    let more = read_lz4_len src (total + b) in
    if leb (2 ^ 64) (total + b)
    then err invalid_value
    else if not (b == 255)
    then ok (total + b, src)
    else more

-- A length nibble, with the bytes that extend it.
unfoldable pub extend_len : ℕ → ℕ → List ℕ → Result (ℕ × List ℕ)
unfolding read_lz4_len
extend_len nibble base src =
    if nibble == 15
    then try (read_lz4_len src 0) (λ (more, src').
      if leb (2 ^ 64) (base + more) then err invalid_value else ok (base + more, src'))
    else ok (base, src)

-- `for i in 0..match_len { out.push(out[start + i]); }`.
unfoldable pub copy_bytes : ℕ → ℕ → List ℕ → List ℕ
copy_bytes zero from out = out
copy_bytes (suc n) from out = copy_bytes n (from + 1) (out ++ (get_or out from 0 ∷ []))

unfoldable pub repeat_pattern : ℕ → List ℕ → List ℕ → List ℕ
repeat_pattern zero pat out = out
repeat_pattern (suc n) pat out = repeat_pattern n pat (out ++ pat)

-- The copy of `match_len` bytes from `offset` back, by the four ways of the source.
unfoldable pub copy_match : ℕ → ℕ → List ℕ → List ℕ
copy_match offset match_len out =
    let start = length out - offset in
    if leb match_len offset
    then out ++ take match_len (drop start out)
    else if offset == 1
    then out ++ replicate match_len (get_or out start 0)
    else if offset == 4
    then (let pat = take 4 (drop start out) in
        repeat_pattern (match_len / 4) pat out ++ take (match_len % 4) pat)
    else copy_bytes match_len start out

-- `u16::from_le_bytes([src[sp], src[sp + 1]])`, and the checks on it.
unfoldable pub read_offset : List ℕ → List ℕ → Result (ℕ × List ℕ)
read_offset (lo ∷ hi ∷ src) out =
    let offset = lo + 256 * hi in
    if offset == 0 || ltb (length out) offset then err invalid_value else ok (offset, src)
read_offset src out = err invalid_value

-- `while sp < src.len()`. Each round takes a byte, so `length src` rounds are enough.
unfoldable pub lz4_decode_loop : ℕ → List ℕ → ℕ → List ℕ → Result (List ℕ)
lz4_decode_loop fuel [] uncomp_len out = ok out
lz4_decode_loop zero (token ∷ src) uncomp_len out = err invalid_value
lz4_decode_loop (suc fuel) (token ∷ src) uncomp_len out =
    try (extend_len (token / 16) (token / 16) src) λ (lit_len, src1).
      if ltb (length src1) lit_len || ltb uncomp_len (length out + lit_len)
      then err invalid_value
      else let out1 = out ++ take lit_len src1 in
        let src2 = drop lit_len src1 in
        if leb (length src2) 0
        then ok out1
        else try (read_offset src2 out1) λ (offset, src3).
          try (extend_len (token % 16) (token % 16 + 4) src3) λ (match_len, src4).
            let rest = lz4_decode_loop fuel src4 uncomp_len (copy_match offset match_len out1) in
            if ltb uncomp_len (length out1 + match_len) then err invalid_value else rest

-- `expected_len` as the source's `Option<usize>`.
unfoldable pub unexpected : Option ℕ → ℕ → Bool
unexpected none uncomp_len = false
unexpected (some e) uncomp_len = not (uncomp_len == e)

unfoldable pub lz4_decode : List ℕ → Option ℕ → Result (List ℕ)
lz4_decode src expected_len =
    let uncomp_len = from_le_bytes (take 4 src) in
    if ltb (length src) 4
    then err invalid_value
    else if ltb max_message_bytes uncomp_len
    then err message_too_large
    else if unexpected expected_len uncomp_len
    then err invalid_value
    else try (lz4_decode_loop (length src) (drop 4 src) uncomp_len [])
        λ out. if length out == uncomp_len then ok out else err invalid_value
