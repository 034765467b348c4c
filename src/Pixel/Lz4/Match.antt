-- ===== src/Pixel/Lz4/Match.antt =====
-- gutted-proto/src/lib.rs, `lz4_encode_into`: the match that is taken repeats earlier input.
use exo_browser_core.Common.{
  ℕ, zero, suc, ◌+◌, ◌-◌, ◌^◌, ◌≤◌, ◌<◌, ◌≡◌, refl, sym, ap, ap₂, ◌∙◌, Bool, true, false, ◌&&◌,
  some, List, [], ◌∷◌, ◌++◌, length, take, drop, get_or, All, ltb, leb, ==_iff, ◌==◌, Bool-cases,
  inl, inr, arith, length-take, take-add, drop-add, take-take, All-take, All-drop,
}
use exo_browser_core.Wire.Varint.{IsByte}
use exo_browser_core.Pixel.Bytes.{bytes_eq}
use exo_browser_core.Pixel.Lz4.Encode.{four_at, between, find_match, common_prefix_len}
use exo_browser_core.Pixel.Lz4.Decode.{copy_bytes}
use exo_browser_core.Pixel.Lz4.Copy.{take_next}
use exo_browser_core.Pixel.Lz4.Prefix.{common_prefix_len-IsCommon}

pub bytes_eq-same : (a b : List ℕ) → bytes_eq a b ≡ true → a ≡ b
unfolding bytes_eq
bytes_eq-same [] [] h = refl
bytes_eq-same [] (y ∷ b) h = ground arith
bytes_eq-same (x ∷ a) [] h = ground arith
bytes_eq-same (x ∷ a) (y ∷ b) h = elim (Bool-cases (x == y)) [
  | inl e ↦ ap₂ (λ z zs. z ∷ zs) ((==_iff x y).0 e) (bytes_eq-same a b (rw e at h))
  | inr e ↦ (let h' = rw e at h in ground (arith, h'))
]

-- A position to copy from: before, within reach, and with the same four bytes.
pub record IsMatch (input : List ℕ) (ip mpos : ℕ) : Type 0 where
  pub before : mpos < ip
  pub near : ip - mpos < 2 ^ 16
  pub same : four_at input mpos ≡ four_at input ip

both : (p : Bool) (a b : List ℕ) → (p && bytes_eq a b) ≡ true → (p ≡ true) × (a ≡ b)
both true a b h = (refl, bytes_eq-same a b h)
both false a b h = ground arith

pub find_match-IsMatch :
    (input : List ℕ) (ip ref_pos mpos : ℕ)
    → find_match input ip ref_pos ≡ some mpos
    → IsMatch input ip mpos
unfolding find_match
find_match-IsMatch input ip ref_pos mpos h =
    elim (Bool-cases (leb 1 ip && bytes_eq (four_at input ip) (four_at input (ip - 1)))) [
      | inl one ↦
          let e : ip - 1 ≡ mpos = (let h' = (rw one at h) in ground (arith, h')) in
          let (far, eq) = both (leb 1 ip) (four_at input ip) (four_at input (ip - 1)) one in
          rw (← e)
            (record { before = ground (arith, far); near = ground (arith, far); same = sym eq })
      | inr not_one ↦
          elim (Bool-cases (leb 4 ip && bytes_eq (four_at input ip) (four_at input (ip - 4)))) [
            | inl four ↦
                let e : ip - 4 ≡ mpos =
                  (let h' = (rw (not_one, four) at h) in ground (arith, h')) in
                let (far, eq) = both (leb 4 ip) (four_at input ip) (four_at input (ip - 4)) four in
                rw (← e) (record {
                  before = ground (arith, far);
                  near = ground (arith, far);
                  same = sym eq;
                })
            | inr not_four ↦
                elim (Bool-cases (
                  ltb ref_pos ip
                  && leb (ip - ref_pos) 0xFFFF
                  && bytes_eq (four_at input ref_pos) (four_at input ip))) [
                    | inl seen ↦
                        let e : ref_pos ≡ mpos =
                          (let h' = rw (not_one, not_four, seen) at h in ground (arith, h')) in
                        let (far, eq) =
                          both (ltb ref_pos ip && leb (ip - ref_pos) 0xFFFF) (four_at input ref_pos)
                            (four_at input ip) seen in
                        rw (← e) (record {
                          before = ground (arith, far);
                          near = ground (arith, far);
                          same = eq;
                        })
                    | inr not_seen ↦
                        (let h' = rw (not_one, not_four, not_seen) at h in ground (arith, h'))
                  ]
          ]
    ]

get_or-take : (n : ℕ) (xs : List ℕ) (i : ℕ) → i < n → get_or (take n xs) i 0 ≡ get_or xs i 0
get_or-take zero xs i h = absurd (omega arith)
get_or-take (suc n) [] i h = refl
get_or-take (suc n) (x ∷ xs) zero h = refl
get_or-take (suc n) (x ∷ xs) (suc i) h = get_or-take n xs i (omega arith)

-- What is written byte by byte, when the rest of the input repeats what is `mpos` back.
pub copy_bytes-take :
    (k mpos ip : ℕ) (input : List ℕ)
    → mpos < ip
    → ip + k ≤ length input
    → take k (drop mpos input) ≡ take k (drop ip input)
    → copy_bytes k mpos (take ip input) ≡ take (ip + k) input
unfolding copy_bytes
copy_bytes-take zero mpos ip input h fits e = let z : ip + 0 ≡ ip = omega arith in rw z
copy_bytes-take (suc k) mpos ip input h fits e =
    let step : get_or input mpos 0 ∷ take k (drop (suc mpos) input)
        ≡ get_or input ip 0 ∷ take k (drop (suc ip) input) =
      sym (take_next k input mpos (omega arith)) ∙ e ∙ take_next k input ip (omega arith) in
    let known : get_or (take ip input) mpos 0 ≡ get_or input ip 0 =
      get_or-take ip input mpos h ∙ ap (λ (xs : List ℕ). get_or xs 0 0) step in
    let grown : take ip input ++ (get_or input ip 0 ∷ []) ≡ take (ip + 1) input =
      ap (λ t. take ip input ++ t) (sym (take_next 0 input ip (omega arith)))
      ∙ sym (take-add ip 1 input) in
    let p : mpos + 1 ≡ suc mpos = omega arith in
    let q : ip + 1 ≡ suc ip = omega arith in
    let r : ip + suc k ≡ ip + 1 + k = omega arith in
    rw (known, grown, r)
      (copy_bytes-take k (mpos + 1) (ip + 1) input (omega arith) (omega arith)
        (rw (p, q) (ap (drop 1) step)))

abbrev pub match_len_at : List ℕ → ℕ → ℕ → ℕ
match_len_at input ip mpos =
    4
    + common_prefix_len (between input (mpos + 4) (length input - 5))
        (between input (ip + 4) (length input - 5))

-- The match that the encoder takes is a repeat that ends five bytes before the end.
pub record Repeats (input : List ℕ) (ip mpos m : ℕ) : Type 0 where
  pub inside : ip + m ≤ length input - 5
  pub same : take m (drop mpos input) ≡ take m (drop ip input)

pub match-Repeats :
    (input : List ℕ) (ip mpos : ℕ)
    → All IsByte input
    → ip + 12 ≤ length input
    → IsMatch input ip mpos
    → Repeats input ip mpos (match_len_at input ip mpos)
match-Repeats input ip mpos bytes h v =
    let limit = length input - 5 in
    let a = between input (mpos + 4) limit in
    let b = between input (ip + 4) limit in
    let n = common_prefix_len a b in
    let c =
      common_prefix_len-IsCommon a b
        (All-take IsByte (limit - (mpos + 4)) (drop (mpos + 4) input)
          (All-drop IsByte (mpos + 4) input bytes))
        (All-take IsByte (limit - (ip + 4)) (drop (ip + 4) input)
          (All-drop IsByte (ip + 4) input bytes)) in
    let la = length-take (limit - (mpos + 4)) (drop (mpos + 4) input) in
    let lb = length-take (limit - (ip + 4)) (drop (ip + 4) input) in
    record {
      inside = omega (arith, c.fits_b, lb);
      same =
          take-add 4 n (drop mpos input)
          ∙ ap₂ (λ s t. s ++ t) v.same
              (ap (take n) (sym (drop-add mpos 4 input))
                ∙ sym (
                    take-take n (limit - (mpos + 4)) (drop (mpos + 4) input)
                      (omega (arith, c.fits_a, la)))
                ∙ c.same
                ∙ take-take n (limit - (ip + 4)) (drop (ip + 4) input) (omega (arith, c.fits_b, lb))
                ∙ ap (take n) (drop-add ip 4 input))
          ∙ sym (take-add 4 n (drop ip input));
    }
