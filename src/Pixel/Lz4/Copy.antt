-- ===== src/Pixel/Lz4/Copy.antt =====
-- gutted-proto/src/lib.rs, `lz4_decode`: the fast ways to copy a match against the copy byte by byte.
use exo_browser_core.Common.{
  drop-append_le, take-append_le, take-take, ℕ, zero, suc, ◌+◌, ◌-◌, ◌*◌, ◌/◌, ◌%◌, ◌<◌, ◌≤◌, ◌≡◌,
  refl, sym, ap, ◌∙◌, List, [], ◌∷◌, ◌++◌, append_assoc, append-nil, length, length-append,
  length-drop, length-take, drop-append_left, take, drop, replicate, get_or, Bool-cases, leb, ◌==◌,
  inl, inr, arith,
}
use exo_browser_core.Pixel.Lz4.Decode.{copy_bytes, repeat_pattern, copy_match}

pub get_or-append : (xs ys : List ℕ) (i : ℕ) → i < length xs → get_or (xs ++ ys) i 0 ≡ get_or xs i 0
get_or-append [] ys i h = absurd (omega arith)
get_or-append (x ∷ xs) ys zero h = refl
get_or-append (x ∷ xs) ys (suc i) h = get_or-append xs ys i (omega arith)

-- The next byte of a slice.
pub take_next :
    (n : ℕ) (xs : List ℕ) (i : ℕ)
    → i < length xs
    → take (suc n) (drop i xs) ≡ get_or xs i 0 ∷ take n (drop (suc i) xs)
take_next n [] i h = absurd (omega arith)
take_next n (x ∷ xs) zero h = refl
take_next n (x ∷ xs) (suc i) h = take_next n xs i (omega arith)

-- A copy that does not reach the bytes it writes is the copy of a slice.
copy_bytes-slice :
    (n from : ℕ) (out : List ℕ)
    → from + n ≤ length out
    → copy_bytes n from out ≡ out ++ take n (drop from out)
unfolding copy_bytes
copy_bytes-slice zero from out h = sym (append-nil out)
copy_bytes-slice (suc n) from out h =
    copy_bytes-slice n (from + 1) (out ++ (next ∷ []))
      (omega (arith, length-append out (next ∷ [])))
    ∙ append_assoc out (next ∷ []) _
    ∙ ap (λ t. out ++ (next ∷ t))
        (ap (take n) (drop-append_le (from + 1) out (next ∷ []) (omega arith))
          ∙ take-append_le n (drop (from + 1) out) (next ∷ [])
              (omega (arith, length-drop (from + 1) out))
          ∙ ap (λ (k : ℕ). take n (drop k out)) next_from)
    ∙ ap (λ t. out ++ t) (sym (take_next n out from (omega arith)))
  where
    next : ℕ
    next = get_or out from 0

    next_from : from + 1 ≡ suc from
    next_from = omega arith

get_or-last : (xs : List ℕ) (b i : ℕ) → i ≡ length xs → get_or (xs ++ (b ∷ [])) i 0 ≡ b
get_or-last [] b zero h = refl
get_or-last [] b (suc i) h = absurd (omega arith)
get_or-last (x ∷ xs) b zero h = absurd (omega arith)
get_or-last (x ∷ xs) b (suc i) h = get_or-last xs b i (omega arith)

-- A copy from one byte back repeats the last byte.
copy_bytes-run :
    (n from b : ℕ) (out : List ℕ)
    → from + 1 ≡ length out
    → get_or out from 0 ≡ b
    → copy_bytes n from out ≡ out ++ replicate n b
unfolding copy_bytes
copy_bytes-run zero from b out h e = sym (append-nil out)
copy_bytes-run (suc n) from b out h e = rw e (
    copy_bytes-run n (from + 1) b (out ++ (b ∷ [])) (omega (arith, length-append out (b ∷ [])))
      (get_or-last out b (from + 1) h)
    ∙ append_assoc out (b ∷ []) (replicate n b))

copy_bytes-add :
    (n m from : ℕ) (out : List ℕ)
    → copy_bytes (n + m) from out ≡ copy_bytes m (from + n) (copy_bytes n from out)
unfolding copy_bytes
copy_bytes-add zero m from out =
    let p : 0 + m ≡ m = omega arith in let q : from + 0 ≡ from = omega arith in rw (p, q)
copy_bytes-add (suc n) m from out =
    let p : suc n + m ≡ suc (n + m) = omega arith in
    let q : from + suc n ≡ from + 1 + n = omega arith in
    rw (p, q) (copy_bytes-add n m (from + 1) (out ++ (get_or out from 0 ∷ [])))

-- A copy from four bytes back repeats the last four.
copy_bytes-pattern :
    (k r from : ℕ) (out pat : List ℕ)
    → r < 4
    → from + 4 ≡ length out
    → take 4 (drop from out) ≡ pat
    → copy_bytes (4 * k + r) from out ≡ repeat_pattern k pat out ++ take r pat
unfolding repeat_pattern
copy_bytes-pattern zero r from out pat h e p =
    let q : 4 * 0 + r ≡ r = omega arith in
    rw (q, ← p, take-take r 4 (drop from out) (omega arith))
      (copy_bytes-slice r from out (omega arith))
copy_bytes-pattern (suc k) r from out pat h e p =
    let q : 4 * suc k + r ≡ 4 + (4 * k + r) = omega arith in
    rw q (
      copy_bytes-add 4 (4 * k + r) from out
      ∙ ap (copy_bytes (4 * k + r) (from + 4)) (copy_bytes-slice 4 from out (omega arith))
      ∙ ap (λ t. copy_bytes (4 * k + r) (from + 4) (out ++ t)) p
      ∙ copy_bytes-pattern k r (from + 4) (out ++ pat) pat h
          (omega (arith, length-append out pat, four))
          (ap (take 4) (drop-append_left (from + 4) out pat (omega arith))
            ∙ rw (← p) (take-take 4 4 (drop from out) (omega arith))))
  where
    four : length pat ≡ 4
    four = omega (arith, ap length p, length-take 4 (drop from out), length-drop from out)

-- Each of the four ways copies what the copy byte by byte does, at every offset into the output.
pub copy_match-copy_bytes :
    (offset match_len : ℕ) (out : List ℕ)
    → 1 ≤ offset
    → offset ≤ length out
    → copy_match offset match_len out ≡ copy_bytes match_len (length out - offset) out
unfolding copy_match
copy_match-copy_bytes offset match_len out h k = elim (Bool-cases (leb match_len offset)) [
  | inl near ↦ rw near (sym (copy_bytes-slice match_len (length out - offset) out (ground arith)))
  | inr far ↦ elim (Bool-cases (offset == 1)) [
    | inl one ↦
        rw (far, one)
          (sym (copy_bytes-run match_len (length out - offset) _ out (ground arith) refl))
    | inr more ↦ elim (Bool-cases (offset == 4)) [
      | inl four ↦
          rw (far, more, four)
            (sym (
                copy_bytes-pattern (match_len / 4) (match_len % 4) (length out - offset) out _
                  (omega arith) (ground arith) refl)
              ∙ ap (λ (n : ℕ). copy_bytes n (length out - offset) out) (omega arith))
      | inr other ↦ rw (far, more, other)
    ]
  ]
]
