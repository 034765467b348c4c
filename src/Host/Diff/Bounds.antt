-- ===== src/Host/Diff/Bounds.antt =====
-- gutted-host-rs/src/main.rs: `position` and `rposition` over the cells of two rows.
use exo_browser_core.Common.{
  ℕ, zero, suc, ◌+◌, ◌≤◌, ◌<◌, ◌≡◌, refl, Bool, true, false, Option, none, some, List, [], ◌∷◌,
  length, take, drop, get_or, if◌then◌else◌, Bool-cases, inl, inr, arith,
}
use exo_browser_core.Host.Diff.{ne_cells, slices_eq, position, rposition}

-- A cell that differs.
abbrev pub Differs : List Bool → ℕ → Type 0
Differs ds x = get_or ds x false ≡ true

pub Differs-inside : (ds : List Bool) (x : ℕ) → Differs ds x → x < length ds
Differs-inside [] x d = ground arith
Differs-inside (b ∷ ds) zero d = omega arith
Differs-inside (b ∷ ds) (suc x) d = omega (arith, Differs-inside ds x d)

abbrev pub Nowhere : List Bool → Type 0
Nowhere ds = (x : ℕ) → Differs ds x → ⊥

-- What `position` and `rposition` find.
abbrev pub IsFirst : List Bool → Option ℕ → Type 0
IsFirst ds none = Nowhere ds
IsFirst ds (some i) = Differs ds i × ((x : ℕ) → Differs ds x → i ≤ x)

abbrev pub IsLast : List Bool → Option ℕ → Type 0
IsLast ds none = Nowhere ds
IsLast ds (some i) = Differs ds i × ((x : ℕ) → Differs ds x → x ≤ i)

later-Nowhere : (ds : List Bool) → Nowhere ds → Nowhere (false ∷ ds)
later-Nowhere ds h zero d = ground arith
later-Nowhere ds h (suc x) d = h x d

later_first :
    (ds : List Bool) (i : ℕ)
    → ((x : ℕ) → Differs ds x → i ≤ x)
    → (x : ℕ) → Differs (false ∷ ds) x
    → suc i ≤ x
later_first ds i h zero d = ground arith
later_first ds i h (suc x) d = omega (arith, h x d)

pub position-IsFirst : (ds : List Bool) → IsFirst ds (position ds)
position-IsFirst [] = λ x d. ground arith
position-IsFirst (true ∷ ds) = (refl, λ x d. omega arith)
position-IsFirst (false ∷ ds) =
    elim (position ds)
        as (λ o.
          IsFirst ds o → IsFirst (false ∷ ds) (elim o [ none ↦ none | some i ↦ some (suc i) ])) [
            | none ↦ λ p. later-Nowhere ds p
            | some i ↦ λ p. (p.0, later_first ds i p.1)
          ]
      (position-IsFirst ds)

later_last :
    (b : Bool) (ds : List Bool) (i : ℕ)
    → ((x : ℕ) → Differs ds x → x ≤ i)
    → (x : ℕ) → Differs (b ∷ ds) x
    → x ≤ suc i
later_last b ds i h zero d = omega arith
later_last b ds i h (suc x) d = omega (arith, h x d)

only_first : (ds : List Bool) → Nowhere ds → (x : ℕ) → Differs (true ∷ ds) x → x ≤ 0
only_first ds h zero d = omega arith
only_first ds h (suc x) d = absurd (h x d)

pub rposition-IsLast : (ds : List Bool) → IsLast ds (rposition ds)
rposition-IsLast [] = λ x d. ground arith
rposition-IsLast (b ∷ ds) =
    elim (rposition ds)
        as (λ o.
          IsLast ds o
          → IsLast (b ∷ ds)
              (elim o [ some i ↦ some (suc i) | none ↦ if b then some 0 else none ])) [
                | some i ↦ λ p. (p.0, later_last b ds i p.1)
                | none ↦ λ p. elim b as (λ c. IsLast (c ∷ ds) (if c then some 0 else none)) [
                  | true ↦ (refl, only_first ds p)
                  | false ↦ later-Nowhere ds p
                ]
              ]
      (rposition-IsLast ds)

module _ {ℓ} {A : Type ℓ} (eq : A → A → Bool) where
  pub Differs-take :
      (n : ℕ) (a b : List A) (x : ℕ)
      → x < n
      → Differs (ne_cells eq a b) x
      → Differs (ne_cells eq (take n a) (take n b)) x
  Differs-take zero a b x h d = absurd (omega arith)
  Differs-take (suc n) [] b x h d = d
  Differs-take (suc n) (y ∷ a) [] x h d = d
  Differs-take (suc n) (y ∷ a) (z ∷ b) zero h d = d
  Differs-take (suc n) (y ∷ a) (z ∷ b) (suc x) h d = Differs-take n a b x (omega arith) d

  pub Differs-untake :
      (n : ℕ) (a b : List A) (x : ℕ)
      → Differs (ne_cells eq (take n a) (take n b)) x
      → (x < n) × Differs (ne_cells eq a b) x
  Differs-untake zero a b x d = ground arith
  Differs-untake (suc n) [] b x d = ground arith
  Differs-untake (suc n) (y ∷ a) [] x d = ground arith
  Differs-untake (suc n) (y ∷ a) (z ∷ b) zero d = (omega arith, d)
  Differs-untake (suc n) (y ∷ a) (z ∷ b) (suc x) d =
      let (h, e) = Differs-untake n a b x d in (omega arith, e)

  ne_cells-nil : (a : List A) (x : ℕ) → get_or (ne_cells eq a []) x false ≡ false
  ne_cells-nil [] x = refl
  ne_cells-nil (y ∷ a) x = refl

  pub Differs-drop :
      (n : ℕ) (a b : List A) (x : ℕ)
      → get_or (ne_cells eq (drop n a) (drop n b)) x false ≡ get_or (ne_cells eq a b) (n + x) false
  Differs-drop zero a b x = let e : 0 + x ≡ x = omega arith in rw e
  Differs-drop (suc n) [] b x = refl
  Differs-drop (suc n) (y ∷ a) [] x = ne_cells-nil (drop n a) x
  Differs-drop (suc n) (y ∷ a) (z ∷ b) x =
      let e : suc n + x ≡ suc (n + x) = omega arith in rw e (Differs-drop n a b x)

  pub slices_eq-Nowhere : (a b : List A) → slices_eq eq a b ≡ true → Nowhere (ne_cells eq a b)
  slices_eq-Nowhere [] b h x d = ground arith
  slices_eq-Nowhere (y ∷ a) [] h x d = ground arith
  slices_eq-Nowhere (y ∷ a) (z ∷ b) h zero d = elim (Bool-cases (eq y z)) [
    | inl e ↦ (let d' = rw e at d in ground (arith, d'))
    | inr e ↦ (let h' = rw e at h in ground (arith, h'))
  ]
  slices_eq-Nowhere (y ∷ a) (z ∷ b) h (suc x) d = elim (Bool-cases (eq y z)) [
    | inl e ↦ slices_eq-Nowhere a b (rw e at h) x d
    | inr e ↦ (let h' = rw e at h in ground (arith, h'))
  ]
