-- ===== src/Client/Ui/Tabs/Laws.antt =====
-- gutted-client/src/render.rs: what the steps of the tabs keep.
use exo_browser_core.Common.{
  ℕ, ◌+◌, ◌%◌, ◌^◌, ◌<◌, ◌==◌, ◌≡◌, ◌≢◌, refl, sym, ◌∙◌, subst, true, false, List, [], ◌∷◌, ◌++◌,
  All, Bool-cases, inl, inr, arith, if◌then◌else◌,
}
use exo_browser_core.Client.Events.{InputEvent}
use exo_browser_core.Client.Core.Unique.{Apart}
use exo_browser_core.Client.Ui.Tabs.{Tabs, is_in, others, Change, IsTabs}

-- What holds of all numbers holds of the others too.
pub All-others : (P : ℕ → Type 0) (k : ℕ) (ns : List ℕ) → All P ns → All P (others k ns)
All-others P k [] h = h
All-others P k (n ∷ ns) h = elim (Bool-cases (n == k)) [
  | inl e ↦ rw e (All-others P k ns h.1)
  | inr e ↦ rw e (h.0, All-others P k ns h.1)
]

Apart-others : (k : ℕ) (ns : List ℕ) → Apart ns → Apart (others k ns)
Apart-others k [] h = h
Apart-others k (n ∷ ns) h = elim (Bool-cases (n == k)) [
  | inl e ↦ rw e (Apart-others k ns h.1)
  | inr e ↦ rw e (All-others _ k ns h.0, Apart-others k ns h.1)
]

pub is_in-others : (j k : ℕ) (ns : List ℕ) → j ≢ k → is_in j (others k ns) ≡ is_in j ns
is_in-others j k [] h = refl
is_in-others j k (n ∷ ns) h = elim (Bool-cases (n == k)) [
  | inl e ↦ let d : (n == j) ≡ false = ground (arith, e, h) in rw (e, d) (is_in-others j k ns h)
  | inr e ↦ elim (Bool-cases (n == j)) [
    | inl d ↦ rw (e, d) refl
    | inr d ↦ rw (e, d) (is_in-others j k ns h)
  ]
]

pub is_in-others_self : (k : ℕ) (ns : List ℕ) → is_in k (others k ns) ≡ false
is_in-others_self k [] = refl
is_in-others_self k (n ∷ ns) = elim (Bool-cases (n == k)) [
  | inl e ↦ rw e (is_in-others_self k ns)
  | inr e ↦ rw (e, e) (is_in-others_self k ns)
]

pub is_in-add :
    (j k : ℕ) (ns : List ℕ) → is_in j (ns ++ (k ∷ [])) ≡ (if k == j then true else is_in j ns)
is_in-add j k [] = refl
is_in-add j k (n ∷ ns) = elim (Bool-cases (n == j)) [
  | inl e ↦ rw e (elim (Bool-cases (k == j)) [ inl d ↦ rw d refl | inr d ↦ rw d refl ])
  | inr e ↦ rw e (is_in-add j k ns)
]

All-below : (n : ℕ) (ns : List ℕ) → All (λ k. k < n) ns → All (λ k. k < n + 1) ns
All-below n [] h = h
All-below n (k ∷ ks) h = (omega (arith, h.0), All-below n ks h.1)

All-ne : (k n : ℕ) (ks : List ℕ) → All (λ j. k ≢ j) ks → k < n → All (λ j. k ≢ j) (ks ++ (n ∷ []))
All-ne k n [] h l = (ground arith, tt)
All-ne k n (j ∷ js) h l = (h.0, All-ne k n js h.1 l)

Apart-add : (n : ℕ) (ns : List ℕ) → All (λ k. k < n) ns → Apart ns → Apart (ns ++ (n ∷ []))
Apart-add n [] below h = (tt, tt)
Apart-add n (k ∷ ks) below h = (All-ne k n ks h.0 below.0, Apart-add n ks below.1 h.1)

All-snoc : (P : ℕ → Type 0) (n : ℕ) (ns : List ℕ) → All P ns → P n → All P (ns ++ (n ∷ []))
All-snoc P n [] h p = (p, tt)
All-snoc P n (k ∷ ks) h p = (h.0, All-snoc P n ks h.1 p)

-- While the numbers of new tabs do not run out, every step leaves tabs with numbers of their own
-- below the next one, and the active tab among them.
pub Change-IsTabs :
    {a b : Tabs} {sent : List InputEvent}
    → a.next + 1 < 2 ^ 32
    → IsTabs a
    → Change a b sent
    → IsTabs b
Change-IsTabs room v (Change.stay e _) = subst IsTabs (sym e) v
Change-IsTabs {a} room v (Change.open_new e _) =
    let next : (a.next + 1) % 2 ^ 32 ≡ a.next + 1 = omega arith in
    let self : (a.next == a.next) ≡ true = ground arith in
    subst IsTabs (sym e) (record {
      apart = Apart-add a.next a.ids v.fresh v.apart;
      fresh = rw next (All-snoc _ a.next a.ids (All-below a.next a.ids v.fresh) (omega arith));
      there = is_in-add a.next a.next a.ids ∙ rw self refl;
    })
Change-IsTabs {a} room v (Change.close k ne e _) = subst IsTabs (sym e) (record {
  apart = Apart-others k a.ids v.apart;
  fresh = All-others _ k a.ids v.fresh;
  there = is_in-others a.active k a.ids ne ∙ v.there;
})
Change-IsTabs {a} room v (Change.close_current first rest q e _) =
    let self : (first == first) ≡ true = ground arith in
    subst IsTabs (sym e) (record {
      apart = subst Apart q (Apart-others a.active a.ids v.apart);
      fresh = subst (All (λ k. k < a.next)) q (All-others _ a.active a.ids v.fresh);
      there = rw self refl;
    })
Change-IsTabs {a} room v (Change.switch k q e _) =
    subst IsTabs (sym e) (record { apart = v.apart; fresh = v.fresh; there = q })
