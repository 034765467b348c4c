-- ===== src/Client/Url/Trim.antt =====
-- gutted-client/src/render.rs: `canonicalize_url` first calls `trim`, which leaves no white space at
-- either end.
use exo_browser_core.Common.{
  ℕ, zero, suc, ◌-◌, ◌<◌, ◌==◌, ==_iff, ◌≡◌, refl, sym, ap, ◌∙◌, List, [], ◌∷◌, ◌++◌, Bool-cases,
  inl, inr, arith, if◌then◌else◌,
}
use exo_browser_core.Client.Url.{white_front, white_back, trim_front, trim, plus_for_space}
use mathlib.Core.List.{reverse, reverse-append, reverse-reverse}

-- No white space at the front, and none at the back.
pub record IsTrimmed (s : List ℕ) : Type 0 where
  pub front : white_front s ≡ 0
  pub back : white_back (reverse s) ≡ 0

trim_front_none : (white : List ℕ → ℕ) (s : List ℕ) → white s ≡ 0 → trim_front white 0 s ≡ s
unfolding trim_front
trim_front_none white [] h = refl
trim_front_none white (b ∷ s) h = rw h refl

-- `trim` leaves a text that begins and ends without white space.
pub trim_lem : (s : List ℕ) → IsTrimmed s → trim s ≡ s
unfolding trim
trim_lem s t =
    ap (λ (u : List ℕ). reverse (trim_front white_back 0 (reverse u)))
      (trim_front_none white_front s t.front)
    ∙ ap (λ (u : List ℕ). reverse u) (trim_front_none white_back (reverse s) t.back)
    ∙ reverse-reverse s

trim_front-white :
    (white : List ℕ → ℕ) (k : ℕ) (s : List ℕ) → white [] ≡ 0 → white (trim_front white k s) ≡ 0
unfolding trim_front
trim_front-white white k [] h = h
trim_front-white white (suc k) (b ∷ s) h = trim_front-white white k s h
trim_front-white white zero (b ∷ s) h = elim (Bool-cases (white (b ∷ s) == 0)) [
  | inl e ↦ rw e ((==_iff _ _).0 e)
  | inr e ↦ rw e (trim_front-white white (white (b ∷ s) - 1) s h)
]

-- What is left is an end of the text.
trim_front-suffix :
    (white : List ℕ → ℕ) (k : ℕ) (s : List ℕ) → (p : List ℕ) × (s ≡ p ++ trim_front white k s)
unfolding trim_front
trim_front-suffix white k [] = ([], refl)
trim_front-suffix white (suc k) (b ∷ s) =
    let (p, e) = trim_front-suffix white k s in (b ∷ p, ap (λ t. b ∷ t) e)
trim_front-suffix white zero (b ∷ s) = elim (Bool-cases (white (b ∷ s) == 0)) [
  | inl e ↦ ([], rw e refl)
  | inr e ↦
      let (p, q) = trim_front-suffix white (white (b ∷ s) - 1) s in
      (b ∷ p, rw e (ap (λ t. b ∷ t) q))
]

-- A front of a text without white space at its front has none either.
white_front-append : (s t : List ℕ) → white_front (s ++ t) ≡ 0 → white_front s ≡ 0
unfolding white_front
white_front-append [] t h = refl
white_front-append (a ∷ []) [] h = h
white_front-append (a ∷ []) (b ∷ []) h = ground arith
white_front-append (a ∷ []) (b ∷ c ∷ t) h = ground arith
white_front-append (a ∷ b ∷ []) [] h = h
white_front-append (a ∷ b ∷ []) (c ∷ t) h = ground arith
white_front-append (a ∷ b ∷ c ∷ s) t h = h

pub trim-IsTrimmed : (raw : List ℕ) → IsTrimmed (trim raw)
unfolding trim
trim-IsTrimmed raw =
    let t = trim_front white_front 0 raw in
    let u = trim_front white_back 0 (reverse t) in
    let (p, e) = trim_front-suffix white_back 0 (reverse t) in
    let whole : t ≡ reverse u ++ reverse p =
      sym (reverse-reverse t) ∙ ap (λ (s : List ℕ). reverse s) e ∙ reverse-append p u in
    record {
      front =
          white_front-append (reverse u) (reverse p)
            (ap white_front (sym whole) ∙ trim_front-white white_front 0 raw refl);
      back = ap white_back (reverse-reverse u) ∙ trim_front-white white_back 0 (reverse t) refl;
    }

-- Two bytes of ASCII in front end every character.
pub white_back-append :
    (s : List ℕ) (c b : ℕ) (t : List ℕ)
    → white_back (c ∷ b ∷ t) ≡ 0
    → c < 128
    → b < 128
    → white_back s ≡ 0
    → white_back (s ++ (c ∷ b ∷ t)) ≡ 0
unfolding white_back
white_back-append [] c b t h lc lb e = h
white_back-append (x ∷ []) c b t h lc lb e = ground arith
white_back-append (x ∷ y ∷ []) c b t h lc lb e = ground arith
white_back-append (x ∷ y ∷ z ∷ s) c b t h lc lb e = e

pub white_back-plus_for_space : (s : List ℕ) → white_back s ≡ 0 → white_back (plus_for_space s) ≡ 0
unfolding white_back plus_for_space
white_back-plus_for_space [] e = refl
white_back-plus_for_space (x ∷ []) e = ground arith
white_back-plus_for_space (x ∷ y ∷ []) e = ground arith
white_back-plus_for_space (x ∷ y ∷ z ∷ s) e = ground arith

plus_for_space-append :
    (s t : List ℕ) → plus_for_space (s ++ t) ≡ plus_for_space s ++ plus_for_space t
unfolding plus_for_space
plus_for_space-append [] t = refl
plus_for_space-append (b ∷ s) t =
    ap (λ u. (if b == 32 then 43 else b) ∷ u) (plus_for_space-append s t)

pub reverse-plus_for_space : (s : List ℕ) → reverse (plus_for_space s) ≡ plus_for_space (reverse s)
unfolding plus_for_space
reverse-plus_for_space [] = refl
reverse-plus_for_space (b ∷ s) =
    let c : ℕ = if b == 32 then 43 else b in
    reverse-append (c ∷ []) (plus_for_space s)
    ∙ ap (λ (u : List ℕ). u ++ (c ∷ [])) (reverse-plus_for_space s)
    ∙ sym (plus_for_space-append (reverse s) (b ∷ []))
    ∙ ap plus_for_space (sym (reverse-append (b ∷ []) s))
