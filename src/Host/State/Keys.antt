-- ===== src/Host/State/Keys.antt =====
-- gutted-host-rs/src/main.rs: the maps of the host keep one value for a key.
use exo_browser_core.Common.{
  ℕ, ◌≡◌, ◌≢◌, refl, none, some, [], ◌∷◌, ==_iff, ◌==◌, true, false, Bool-cases, inl, inr, arith,
}
use exo_browser_core.Host.State.{Table, get, remove, insert}

differ : (j k : ℕ) → j ≢ k → (j == k) ≡ false
differ j k h = elim (Bool-cases (j == k)) [ inl e ↦ absurd (h ((==_iff j k).0 e)) | inr e ↦ e ]

module _ {ℓ} {A : Type ℓ} where
  pub get-remove_other : (j k : ℕ) (t : Table A) → k ≢ j → get j (remove k t) ≡ get j t
  unfolding get remove
  get-remove_other j k [] h = refl
  get-remove_other j k ((i, a) ∷ t) h = elim (Bool-cases (i == k)) [
    | inl e ↦
        let e' = (==_iff i k).0 e in
        let other : (i == j) ≡ false = rw e' (differ k j h) in
        rw (e, other) (get-remove_other j k t h)
    | inr e ↦ elim (Bool-cases (i == j)) [
      | inl here ↦ rw (e, here) refl
      | inr there ↦ rw (e, there) (get-remove_other j k t h)
    ]
  ]

  pub get-remove : (k : ℕ) (t : Table A) → get k (remove k t) ≡ none
  unfolding get remove
  get-remove k [] = refl
  get-remove k ((i, a) ∷ t) = elim (Bool-cases (i == k)) [
    | inl e ↦ rw e (get-remove k t)
    | inr e ↦ rw (e, e) (get-remove k t)
  ]

  pub get-insert : (k : ℕ) (a : A) (t : Table A) → get k (insert k a t) ≡ some a
  unfolding get insert
  get-insert k a t = let e : (k == k) ≡ true = ground arith in rw e refl

  pub get-insert_other : (j k : ℕ) (a : A) (t : Table A) → k ≢ j → get j (insert k a t) ≡ get j t
  unfolding get insert
  get-insert_other j k a t h = rw (differ k j h) (get-remove_other j k t h)
