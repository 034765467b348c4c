-- ===== src/Pixel/Lz4/Length.antt =====
-- gutted-proto/src/lib.rs: `read_lz4_len` reads back what `write_lz4_len` writes.
use exo_browser_core.Common.{
  length, ◌*◌, ℕ, ◌+◌, ◌-◌, ◌%◌, ◌^◌, ◌≤◌, ◌<◌, ◌≡◌, refl, ◌∙◌, false, List, Acc, lt_wf, dite, [],
  ◌∷◌, ◌++◌, leb, ◌==◌, arith, append_assoc, All,
}
use native.Mathlib.Decide.{dec_le}
use exo_browser_core.Wire.Result.{ok}
use exo_browser_core.Wire.Varint.{IsByte}
use exo_browser_core.Pixel.Lz4.Encode.{len_shrinks, write_lz4_len_loop, write_lz4_len}
use exo_browser_core.Pixel.Lz4.Decode.{read_lz4_len, extend_len}

-- The bytes that stand for a length: they are bytes, are appended and read back.
pub record LenBytes (rem : ℕ) (write : List ℕ → List ℕ) : Type 0 where
  pub bytes : List ℕ
  pub writes : (out : List ℕ) → write out ≡ out ++ bytes
  pub valid : All IsByte bytes
  pub few : 255 * length bytes ≤ rem + 255
  pub reads :
      (total : ℕ) (rest : List ℕ)
      → total + rem < 2 ^ 64
      → read_lz4_len (bytes ++ rest) total ≡ ok (total + rem, rest)

write_lz4_len_loop-LenBytes :
    (rem : ℕ) (w : Acc ◌<◌ rem) → LenBytes rem (λ out. write_lz4_len_loop out rem w)
unfolding write_lz4_len_loop read_lz4_len
write_lz4_len_loop-LenBytes rem (Acc.intro _ smaller) =
    elim (dec_le 255 rem)
      as (λ d. LenBytes rem (λ out.
        dite d
          (λ more.
            write_lz4_len_loop (out ++ (255 ∷ [])) (rem - 255) (smaller _ (len_shrinks rem more)))
          (λ _. out ++ (rem % 256 ∷ [])))) [
            | yes more ↦
                let v =
                  write_lz4_len_loop-LenBytes (rem - 255) (smaller _ (len_shrinks rem more)) in
                record {
                  bytes = 255 ∷ v.bytes;
                  writes =
                      λ out. v.writes (out ++ (255 ∷ [])) ∙ append_assoc out (255 ∷ []) v.bytes;
                  valid = (omega arith, v.valid);
                  few = omega (arith, v.few);
                  reads = λ total rest h.
                      let e : total + 255 + (rem - 255) ≡ total + rem = omega arith in
                      let fits : leb (2 ^ 64) (total + 255) ≡ false = ground arith in
                      rw (fits, ← e) (v.reads (total + 255) rest (omega arith));
                }
            | no less ↦ record {
              bytes = rem % 256 ∷ [];
              writes = λ out. refl;
              valid = (omega arith, tt);
              few = omega arith;
              reads = λ total rest h.
                  let e : rem % 256 ≡ rem = omega arith in
                  let fits : leb (2 ^ 64) (total + rem) ≡ false = ground arith in
                  let last : (rem == 255) ≡ false = ground arith in rw (e, fits, last) refl;
            }
          ]

pub write_lz4_len-LenBytes : (rem : ℕ) → LenBytes rem (λ out. write_lz4_len out rem)
unfolding write_lz4_len
write_lz4_len-LenBytes rem = write_lz4_len_loop-LenBytes rem (lt_wf.apply rem)

-- A nibble with the bytes that extend it: `base` is what a nibble of 15 stands for, less 15.
pub extend_len-LenBytes :
    (len base : ℕ) (write : List ℕ → List ℕ) (v : LenBytes (len - 15) write) (rest : List ℕ)
    → 15 ≤ len
    → base + len < 2 ^ 64
    → extend_len 15 (15 + base) (v.bytes ++ rest) ≡ ok (len + base, rest)
unfolding extend_len
extend_len-LenBytes len base write v rest h k =
    let e : 15 + base + (len - 15) ≡ len + base = omega arith in
    let z : 0 + (len - 15) ≡ len - 15 = omega arith in
    let fits : leb (2 ^ 64) (len + base) ≡ false = ground arith in
    rw (v.reads 0 rest (omega arith), z, e, fits) refl

pub extend_len_short :
    (len base : ℕ) (rest : List ℕ) → len < 15 → extend_len len base rest ≡ ok (base, rest)
unfolding extend_len
extend_len_short len base rest h = let e : (len == 15) ≡ false = ground arith in rw e
