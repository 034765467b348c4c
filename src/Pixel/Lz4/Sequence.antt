-- ===== src/Pixel/Lz4/Sequence.antt =====
-- gutted-proto/src/lib.rs: a token with its literals and its match, from `lz4_encode_into` to `lz4_decode`.
use exo_browser_core.Common.{
  ℕ, zero, suc, ◌+◌, ◌-◌, ◌*◌, ◌/◌, ◌%◌, ◌^◌, ◌≤◌, ◌<◌, ◌≡◌, refl, sym, ap, ◌∙◌, min, false, List,
  [], ◌∷◌, ◌++◌, length, take, drop, ltb, leb, ◌==◌, if◌then◌else◌, Bool-cases, inl, inr, arith,
  All, All-append, append_assoc, append-nil, length-append, take-append_left, drop-append_left,
  take-length,
}
use exo_browser_core.Wire.Result.{ok}
use exo_browser_core.Wire.Varint.{IsByte}
use exo_browser_core.Wire.Writer.{to_le_bytes}
use exo_browser_core.Pixel.Lz4.Encode.{write_lz4_len, write_literals, write_match}
use exo_browser_core.Pixel.Lz4.Decode.{copy_match, read_offset, extend_len, lz4_decode_loop}
use exo_browser_core.Pixel.Lz4.Length.{
  write_lz4_len-LenBytes, extend_len-LenBytes, extend_len_short,
}

-- A length below 15 needs no byte, a longer one at most one for each 255.
abbrev pub IsFew : ℕ → ℕ → Type 0
IsFew len n = (len < 15 → n ≡ 0) × (255 * n ≤ len + 240)

-- A length as a nibble of a token and the bytes that may extend it.
pub record Extension (len : ℕ) : Type 0 where
  pub bytes : List ℕ
  pub valid : All IsByte bytes
  pub few : IsFew len (length bytes)
  pub writes :
      (out : List ℕ) → (if leb 15 len then write_lz4_len out (len - 15) else out) ≡ out ++ bytes
  pub reads :
      (base : ℕ) (rest : List ℕ)
      → base + len < 2 ^ 64
      → extend_len (min len 15) (min len 15 + base) (bytes ++ rest) ≡ ok (len + base, rest)

pub len-Extension : (len : ℕ) → Extension len
len-Extension len = elim (Bool-cases (leb 15 len)) [
  | inl long ↦
      let v = write_lz4_len-LenBytes (len - 15) in
      let full : min len 15 ≡ 15 = ground (arith, long) in
      record {
        bytes = v.bytes;
        valid = v.valid;
        few = ((λ h. absurd (ground (arith, long))), ground (arith, long, v.few));
        writes = λ out. rw long (v.writes out);
        reads =
            λ base rest h. rw full (extend_len-LenBytes len base _ v rest (ground (arith, long)) h);
      }
  | inr short ↦
      let itself : min len 15 ≡ len = ground (arith, short) in
      record {
        bytes = [];
        valid = tt;
        few = ((λ h. refl), omega arith);
        writes = λ out. rw short (sym (append-nil out));
        reads = λ base rest h.
            rw itself (extend_len_short len (len + base) rest (ground (arith, short)));
      }
]

-- The block from a token on: it is appended, and the decoder that knows `known` gets `input`.
pub record Restores (input known : List ℕ) (write : List ℕ → List ℕ) : Type 0 where
  pub bytes : List ℕ
  pub valid : All IsByte bytes
  pub few : 255 * length bytes ≤ 256 * (length input - length known) + 495
  pub writes : (out : List ℕ) → write out ≡ out ++ bytes
  pub restores :
      (fuel : ℕ) → length bytes ≤ fuel → lz4_decode_loop fuel bytes (length input) known ≡ ok input

pub write_literals-bytes :
    (out literals : List ℕ) (ml_code : ℕ) (l : Extension (length literals))
    → write_literals out literals ml_code
      ≡ out ++ ((min (length literals) 15 * 16 + ml_code) ∷ (l.bytes ++ literals))
unfolding write_literals
write_literals-bytes out literals ml_code l =
    let token = min (length literals) 15 * 16 + ml_code in
    ap (λ t. t ++ literals) (l.writes (out ++ (token ∷ [])))
    ∙ append_assoc (out ++ (token ∷ [])) l.bytes literals
    ∙ append_assoc out (token ∷ []) (l.bytes ++ literals)

pub write_match-bytes :
    (out : List ℕ) (offset match_len : ℕ) (m : Extension (match_len - 4))
    → write_match out offset match_len ≡ out ++ (to_le_bytes 2 (offset % 2 ^ 16) ++ m.bytes)
unfolding write_match
write_match-bytes out offset match_len m =
    m.writes (out ++ to_le_bytes 2 (offset % 2 ^ 16))
    ∙ append_assoc out (to_le_bytes 2 (offset % 2 ^ 16)) m.bytes

-- The literals, read from behind the length.
read_literals :
    (len : ℕ) (literals rest : List ℕ) (l : Extension len)
    → len < 2 ^ 64
    → extend_len (min len 15) (min len 15) (l.bytes ++ (literals ++ rest))
      ≡ ok (len, literals ++ rest)
read_literals len literals rest l h =
    let e : min len 15 + 0 ≡ min len 15 = omega arith in
    let e' : len + 0 ≡ len = omega arith in
    let read = l.reads 0 (literals ++ rest) (omega arith) in rw (e, e') at read

-- The literals that end a block.
pub Restores-literals :
    (input known literals : List ℕ)
    → known ++ literals ≡ input
    → All IsByte literals
    → length input < 2 ^ 64
    → Restores input known (λ out. write_literals out literals 0)
unfolding lz4_decode_loop
Restores-literals input known literals e b h =
    let l = len-Extension (length literals) in
    let size : length input ≡ length known + length literals =
      omega (arith, ap length e, length-append known literals) in
    let token = min (length literals) 15 * 16 + 0 in
    let nibble : token / 16 ≡ min (length literals) 15 = omega arith in
    let behind : literals ++ [] ≡ literals = append-nil literals in
    let here : ltb (length literals) (length literals) ≡ false = ground arith in
    let fits : ltb (length input) (length known + length literals) ≡ false = ground (arith, size) in
    let all_taken : take (length literals) literals ≡ literals = take-length literals in
    let none_left : drop (length literals) literals ≡ [] =
      (let cut : drop (length literals) (literals ++ []) ≡ [] =
          drop-append_left (length literals) literals [] refl in
        rw behind at cut) in
    record {
      bytes = token ∷ (l.bytes ++ literals);
      valid = (omega arith, All-append IsByte l.bytes literals l.valid b);
      few = omega (arith, l.few.1, size, length-append l.bytes literals);
      writes = λ out. write_literals-bytes out literals 0 l;
      restores = λ fuel k.
          elim fuel
              as (λ n.
                length (token ∷ (l.bytes ++ literals)) ≤ n
                → lz4_decode_loop n (token ∷ (l.bytes ++ literals)) (length input) known
                  ≡ ok input) [
                    | zero ↦ λ k'. absurd (omega arith)
                    | suc rest ↦ λ k'.
                        let read =
                          read_literals (length literals) literals [] l (omega (arith, size)) in
                        rw (nibble, rw behind at read, here, fits, none_left, all_taken, e) refl
                  ]
            k;
    }

-- A token, its literals and its match: the decoder goes on with the bytes of the match copied.
pub decode-sequence :
    (fuel uncomp_len offset match_len : ℕ) (known literals src : List ℕ)
    (l : Extension (length literals)) (m : Extension (match_len - 4))
    → 4 ≤ match_len
    → 1 ≤ offset
    → offset ≤ length (known ++ literals)
    → offset < 2 ^ 16
    → length (known ++ literals) + match_len ≤ uncomp_len
    → uncomp_len < 2 ^ 64
    → lz4_decode_loop
        (suc fuel)
        ((min (length literals) 15 * 16 + min (match_len - 4) 15)
          ∷ (l.bytes ++ (literals ++ (to_le_bytes 2 (offset % 2 ^ 16) ++ (m.bytes ++ src)))))
        uncomp_len
        known
      ≡ lz4_decode_loop fuel src uncomp_len (copy_match offset match_len (known ++ literals))
unfolding lz4_decode_loop read_offset to_le_bytes
decode-sequence fuel uncomp_len offset match_len known literals src l m h1 h2 h3 h4 h5 h6 =
    let both = length-append known literals in
    let high : (min (length literals) 15 * 16 + min (match_len - 4) 15) / 16
        ≡ min (length literals) 15 =
      omega arith in
    let low : (min (length literals) 15 * 16 + min (match_len - 4) 15) % 16
        ≡ min (match_len - 4) 15 =
      omega arith in
    let read =
      read_literals (length literals) literals (to_le_bytes 2 (offset % 2 ^ 16) ++ (m.bytes ++ src))
        l (omega (arith, both)) in
    let there : ltb (length (literals ++ (to_le_bytes 2 (offset % 2 ^ 16) ++ (m.bytes ++ src))))
          (length literals)
        ≡ false =
      ground
        (arith, length-append literals (to_le_bytes 2 (offset % 2 ^ 16) ++ (m.bytes ++ src))) in
    let fits : ltb uncomp_len (length known + length literals) ≡ false = ground (arith, both) in
    let taken =
      take-append_left (length literals) literals
        (to_le_bytes 2 (offset % 2 ^ 16) ++ (m.bytes ++ src)) refl in
    let left =
      drop-append_left (length literals) literals
        (to_le_bytes 2 (offset % 2 ^ 16) ++ (m.bytes ++ src)) refl in
    let more : leb (suc (suc (length (m.bytes ++ src)))) 0 ≡ false = ground arith in
    let whole : offset % 2 ^ 16 % 256 + 256 * (offset % 2 ^ 16 / 256 % 256) ≡ offset =
      omega arith in
    let nonzero : (offset == 0) ≡ false = ground arith in
    let inside : ltb (length (known ++ literals)) offset ≡ false = ground arith in
    let match_read = m.reads 4 src (omega (arith, both)) in
    let restored : match_len - 4 + 4 ≡ match_len = omega arith in
    let room : ltb uncomp_len (length (known ++ literals) + match_len) ≡ false = ground arith in
    rw
      (
        high, low, read, there, fits, taken, left, more, whole, nonzero, inside, match_read,
        restored, room,
      )
      refl
