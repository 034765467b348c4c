-- ===== src/Host/Diff/Runs.antt =====
-- gutted-host-rs/src/main.rs, `diff_regions`: the runs of step 2 hold every row that changed.
use exo_browser_core.Common.{
  ℕ, zero, suc, ◌+◌, ◌≤◌, ◌<◌, ◌≡◌, Bool, true, false, none, some, Option, refl, length, lt→ltb,
  List, [], ◌∷◌, get_or, not_both, All, Any, leb, Bool-cases, inl, inr, arith,
}
use native.Mathlib.Decide.{dec_le}
use exo_browser_core.Host.Diff.{at_row, look_ahead, gaps, extend_run, coalesce}

-- A row that changed.
abbrev pub Dirty : List Bool → ℕ → Type 0
Dirty dirty r = get_or dirty r false ≡ true

abbrev up : ℕ → ℕ → List ℕ
up zero k = []
up (suc n) k = k ∷ up n (k + 1)

at_row-some :
    (dirty : List Bool) (y : ℕ) → y < length dirty → at_row dirty y ≡ some (get_or dirty y false)
at_row-some dirty y h = rw (lt→ltb y (length dirty) h) refl

-- What the search for a changed row comes to: the first of them, or none within reach.
data Finds (dirty : List Bool) (k0 last y : ℕ) : Option ℕ → Type 0 where
  unreached : Finds dirty k0 last y none
  reached :
      (k : ℕ)
      → k0 ≤ k
      → y + k ≤ last
      → ((r : ℕ) → y + k0 ≤ r → r < y + k → get_or dirty r false ≡ false)
      → Finds dirty k0 last y (some k)

Finds-next :
    (dirty : List Bool) (k0 last y : ℕ) (o : Option ℕ)
    → get_or dirty (y + k0) false ≡ false
    → Finds dirty (k0 + 1) last y o
    → Finds dirty k0 last y o
Finds-next dirty k0 last y _ same Finds.unreached = Finds.unreached
Finds-next dirty k0 last y _ same (Finds.reached k above inside clean) =
    Finds.reached k (omega arith) inside λ r p q. elim (dec_le (y + (k0 + 1)) r) [
      | yes later ↦ clean r later q
      | no here ↦ let e : y + k0 ≡ r = omega arith in rw (← e) same
    ]

-- Behind the last row there is nothing to find.
look_ahead-over :
    (n k0 last y : ℕ) (dirty : List Bool)
    → last < y + k0
    → look_ahead dirty last y (up n k0) ≡ some none
unfolding look_ahead
look_ahead-over zero k0 last y dirty h = refl
look_ahead-over (suc n) k0 last y dirty h =
    let over : leb (y + k0) last ≡ false = ground arith in
    rw (look_ahead, over) (look_ahead-over n (k0 + 1) last y dirty (omega arith))

look_ahead-Finds :
    (n k0 last y : ℕ) (dirty : List Bool)
    → last < length dirty
    → (o : Option ℕ) × (look_ahead dirty last y (up n k0) ≡ some o) × Finds dirty k0 last y o
unfolding look_ahead
look_ahead-Finds zero k0 last y dirty h = (none, refl, Finds.unreached)
look_ahead-Finds (suc n) k0 last y dirty h = elim (Bool-cases (leb (y + k0) last)) [
  | inr over ↦
      (none, look_ahead-over (suc n) k0 last y dirty (ground (arith, over)), Finds.unreached)
  | inl near ↦
      let read = at_row-some dirty (y + k0) (ground (arith, near)) in
      elim (Bool-cases (get_or dirty (y + k0) false)) [
        | inl here ↦ (
          some k0,
          rw (look_ahead, near, read, here) refl,
          Finds.reached k0 (omega arith) (ground (arith, near)) (λ r p q. absurd (omega arith)),
        )
        | inr same ↦
            let (o, e, found) = look_ahead-Finds n (k0 + 1) last y dirty h in
            (o, rw (look_ahead, near, read, same) e, Finds-next dirty k0 last y o same found)
      ]
]

-- Where the inner loop stops: every changed row that it passed is at most the run's last row.
record Extends (dirty : List Bool) (last y end : ℕ) (stop : ℕ × ℕ) : Type 0 where
  onward : y ≤ stop.0
  grows : end ≤ stop.1
  within : stop.1 ≤ last
  passed : (r : ℕ) → y ≤ r → r < stop.0 → Dirty dirty r → r ≤ stop.1

-- The run ends before the row `y`.
Extends-stop :
    (dirty : List Bool) (last y end : ℕ) → end < y → end ≤ last → Extends dirty last y end (y, end)
Extends-stop dirty last y end k l = record {
  onward = omega arith;
  grows = omega arith;
  within = l;
  passed = λ r p q d. absurd (omega arith);
}

-- The run goes on from `y'`, with nothing changed from `y` on that it does not hold.
Extends-from :
    {dirty : List Bool} {last y end y' end' : ℕ} {stop : ℕ × ℕ}
    → y ≤ y'
    → end ≤ end'
    → ((r : ℕ) → y ≤ r → r < y' → Dirty dirty r → r ≤ end')
    → Extends dirty last y' end' stop
    → Extends dirty last y end stop
Extends-from {y' = y'} h k held v = record {
  onward = omega (arith, v.onward);
  grows = omega (arith, v.grows);
  within = v.within;
  passed = λ r p q d. elim (dec_le y' r) [
    | yes later ↦ v.passed r later q d
    | no first ↦ omega (arith, v.grows, held r p (omega arith) d)
  ];
}

-- The loop indexes nothing out of range, and stops where `Extends` says.
abbrev Extended : List Bool → ℕ → ℕ → ℕ → Option (ℕ × ℕ) → Type 0
Extended dirty last y end result =
    (stop : ℕ × ℕ) × (result ≡ some stop) × Extends dirty last y end stop

extend_run-Extends :
    (fuel : ℕ) (dirty : List Bool) (last y end : ℕ)
    → last < length dirty
    → last < fuel + y
    → end < y
    → end ≤ last
    → Extended dirty last y end (extend_run fuel dirty last y end)
unfolding extend_run
extend_run-Extends zero dirty last y end b h k l =
    ((y, end), refl, Extends-stop dirty last y end k l)
extend_run-Extends (suc fuel) dirty last y end b h k l = elim (Bool-cases (leb y last)) [
  | inr over ↦ ((y, end), rw (extend_run, over) refl, Extends-stop dirty last y end k l)
  | inl more ↦
      let read = at_row-some dirty y (ground (arith, more)) in
      elim (Bool-cases (get_or dirty y false)) [
        | inl changed ↦
            let (stop, e, v) =
              extend_run-Extends fuel dirty last (y + 1) y b (omega arith) (omega arith)
                (ground (arith, more)) in
            (
              stop,
              rw (extend_run, more, read, changed) e,
              Extends-from (omega arith) (omega arith) (λ r p q d. omega arith) v,
            )
        | inr same ↦
            let (o, e, found) = look_ahead-Finds 4 1 last y dirty b in
            extend_over o e found
              (λ n some_step.
                extend_run-Extends fuel dirty last (y + n) end b (omega arith) (omega arith) l)
              more read same
      ]
]
  where
    extend_over :
        (o : Option ℕ)
        → look_ahead dirty last y gaps ≡ some o
        → Finds dirty 1 last y o
        → ((n : ℕ)
            → 1 ≤ n
            → Extended dirty last (y + n) end (extend_run fuel dirty last (y + n) end))
        → leb y last ≡ true
        → at_row dirty y ≡ some (get_or dirty y false)
        → get_or dirty y false ≡ false
        → Extended dirty last y end (extend_run (suc fuel) dirty last y end)
    extend_over none e found onward more read same =
        ((y, end), rw (extend_run, more, read, same, e) refl, Extends-stop dirty last y end k l)
    extend_over (some n) e (Finds.reached _ some_step inside clean) onward more read same =
        let (stop, e', v) = onward n some_step in
        (
          stop,
          rw (extend_run, more, read, same, e) e',
          Extends-from (omega arith) (omega arith)
              (λ r p q d. elim (dec_le (y + 1) r) [
                | yes skipped ↦
                    absurd (not_both (get_or dirty r false) d (clean r skipped (omega arith)))
                | no first ↦
                    let e : y ≡ r = omega arith in
                    absurd (not_both (get_or dirty r false) d (rw (← e) same))
              ])
              v,
        )

-- A run and a row of it.
abbrev pub Holds : ℕ → ℕ × ℕ → Type 0
Holds r run = (run.0 ≤ r) × (r ≤ run.1)

abbrev pub IsRun : ℕ → ℕ × ℕ → Type 0
IsRun last run = (run.0 ≤ run.1) × (run.1 ≤ last)

-- Reading nothing out of range, the runs from `y` on hold every changed row from `y` to `last`, with
-- a round for each row.
pub coalesce-Holds :
    (fuel : ℕ) (dirty : List Bool) (last y : ℕ)
    → last < length dirty
    → last < fuel + y
    → (runs : List (ℕ × ℕ)) × (coalesce fuel dirty last y ≡ some runs)
      × All (IsRun last) runs
      × ((r : ℕ) → y ≤ r → r ≤ last → Dirty dirty r → Any (Holds r) runs)
unfolding coalesce
coalesce-Holds zero dirty last y b h = ([], refl, tt, λ r p q d. absurd (omega arith))
coalesce-Holds (suc fuel) dirty last y b h = elim (Bool-cases (leb y last)) [
  | inr over ↦ ([], rw (coalesce, over) refl, tt, λ r p q d. absurd (ground (arith, over)))
  | inl more ↦
      let read = at_row-some dirty y (ground (arith, more)) in
      elim (Bool-cases (get_or dirty y false)) [
        | inr same ↦
            let (runs, e, v, holds) = coalesce-Holds fuel dirty last (y + 1) b (omega arith) in
            (
              runs,
              rw (coalesce, more, read, same) e,
              v,
              λ r p q d. elim (dec_le (y + 1) r) [
                | yes later ↦ holds r later q d
                | no first ↦
                    let e : y ≡ r = omega arith in
                    absurd (not_both (get_or dirty r false) d (rw (← e) same))
              ],
            )
        | inl changed ↦
            let (stop, e, v) =
              extend_run-Extends (last + 1) dirty last (y + 1) y b (omega arith) (omega arith)
                (ground (arith, more)) in
            let (runs, e', w, holds) =
              coalesce-Holds fuel dirty last stop.0 b (omega (arith, v.onward)) in
            (
              (y, stop.1) ∷ runs,
              rw (coalesce, more, read, changed, e, e') refl,
              ((v.grows, v.within), w),
              λ r p q d. elim (dec_le stop.0 r) [
                | yes later ↦ inr (holds r later q d)
                | no now ↦ elim (dec_le (y + 1) r) [
                  | yes inner ↦ inl (p, v.passed r inner (omega arith) d)
                  | no first ↦ inl (p, omega (arith, v.grows))
                ]
              ],
            )
      ]
]
