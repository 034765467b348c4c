-- ===== src/Client/Ui/Steps/Moves.antt =====
-- gutted-client/src/render.rs: opening, closing and switching tabs, as steps.
use exo_browser_core.Common.{
  ℕ, zero, suc, ◌+◌, ◌%◌, ◌^◌, ◌==◌, ◌≡◌, ◌≢◌, refl, sym, ap, subst, true, false, none, some, List,
  [], ◌∷◌, ◌++◌, get_elem?, All, Bool-cases, inl, inr, arith,
}
use exo_browser_core.Client.Events.{InputEvent}
use exo_browser_core.Client.Core.State.{TabInfo, TabState, remove_key, lookup_key}
use exo_browser_core.Client.Core.Tabs.{retain_tabs, stored}
use exo_browser_core.Client.Core.Unique.{ids, Apart}
use exo_browser_core.Client.Ui.{Ui, emit_input}
use exo_browser_core.Client.Ui.Moves.{open_tab, leave_for, remove_at, switch_to}
use exo_browser_core.Client.Ui.Tabs.{is_in, others, Change, Move, Move-if}
use exo_browser_core.Client.Ui.Steps.{stands}

ids-add : (ts : List TabInfo) (t : TabInfo) → ids (ts ++ (t ∷ [])) ≡ ids ts ++ (t.id ∷ [])
ids-add [] t = refl
ids-add (u ∷ ts) t = ap (λ ns. u.id ∷ ns) (ids-add ts t)

pub ids-retain_tabs : (k : ℕ) (ts : List TabInfo) → ids (retain_tabs k ts) ≡ others k (ids ts)
unfolding retain_tabs
ids-retain_tabs k [] = refl
ids-retain_tabs k (t ∷ ts) = elim (Bool-cases (t.id == k)) [
  | inl e ↦ rw e (ids-retain_tabs k ts)
  | inr e ↦ rw e (ap (λ ns. t.id ∷ ns) (ids-retain_tabs k ts))
]

-- Nothing to leave out.
others_none : (k : ℕ) (ns : List ℕ) → All (λ j. k ≢ j) ns → others k ns ≡ ns
others_none k [] h = refl
others_none k (n ∷ ns) h =
    let e : (n == k) ≡ false = ground (arith, h.0) in
    rw e (ap (λ ms. n ∷ ms) (others_none k ns h.1))

ne_of_elem :
    (n i : ℕ) (ts : List TabInfo) (t : TabInfo)
    → All (λ j. n ≢ j) (ids ts)
    → get_elem? ts i ≡ some t
    → n ≢ t.id
ne_of_elem n i [] t h e = absurd (ground (arith, e))
ne_of_elem n zero (u ∷ ts) t h e = let q : u ≡ t = cc in subst (λ (x : TabInfo). n ≢ x.id) q h.0
ne_of_elem n (suc i) (u ∷ ts) t h e = ne_of_elem n i ts t h.1 e

-- Where the numbers are apart, taking out the tab at an index leaves the tabs with other numbers.
pub ids-remove_at :
    (i : ℕ) (ts : List TabInfo) (t : TabInfo)
    → Apart (ids ts)
    → get_elem? ts i ≡ some t
    → ids (remove_at i ts) ≡ others t.id (ids ts)
unfolding remove_at
ids-remove_at i [] t h e = absurd (ground (arith, e))
ids-remove_at zero (u ∷ ts) t h e =
    let q : u ≡ t = cc in
    let self : (u.id == t.id) ≡ true =
      subst (λ (x : TabInfo). (u.id == x.id) ≡ true) q (ground arith) in
    rw self (
      sym (others_none t.id (ids ts) (subst (λ (x : TabInfo). All (λ j. x.id ≢ j) (ids ts)) q h.0)))
ids-remove_at (suc i) (u ∷ ts) t h e =
    let ne = ne_of_elem u.id i ts t h.0 e in
    let other : (u.id == t.id) ≡ false = ground (arith, ne) in
    rw other (ap (λ ns. u.id ∷ ns) (ids-remove_at i ts t h.1 e))

pub is_in-elem :
    (i : ℕ) (ts : List TabInfo) (t : TabInfo) → get_elem? ts i ≡ some t → is_in t.id (ids ts) ≡ true
is_in-elem i [] t e = absurd (ground (arith, e))
is_in-elem zero (u ∷ ts) t e =
    let q : u ≡ t = cc in
    let self : (u.id == t.id) ≡ true =
      subst (λ (x : TabInfo). (u.id == x.id) ≡ true) q (ground arith) in
    rw self refl
is_in-elem (suc i) (u ∷ ts) t e = elim (Bool-cases (u.id == t.id)) [
  | inl d ↦ rw d refl
  | inr d ↦ rw d (is_in-elem i ts t e)
]

-- Nothing is stored where nothing was.
pub stored_nothing : (s : TabState) → s.active_buf ≡ none → s.tab_composites ≡ [] → stored s ≡ []
unfolding stored
stored_nothing s e f = rw (stored, e) f

pub left_nothing :
    (k : ℕ) (s : TabState)
    → s.active_buf ≡ none
    → s.tab_composites ≡ []
    → ((leave_for k s).active_buf ≡ none) × ((leave_for k s).tab_composites ≡ [])
unfolding lookup_key remove_key
left_nothing k s e f = let q = stored_nothing s e f in (ap (lookup_key k) q, ap (remove_key k) q)

pub open_tab-Move : (u : Ui) → Move u (open_tab u)
unfolding open_tab emit_input
open_tab-Move u =
    let s = u.core.tab_state in
    record {
      sent = InputEvent.create_tab s.next_tab_id _ ∷ [];
      emits = refl;
      change = λ _.
          Change.open_new
            (ap
              (λ ns. record {
                ids = ns;
                active = s.next_tab_id;
                next = (s.next_tab_id + 1) % 2 ^ 32;
              })
              (ids-add s.tabs _))
            refl;
      zoom = λ z. z;
      pictures = λ p. (refl, stored_nothing s p.0 p.1);
    }

pub switch_to-Move :
    (i : ℕ) (t : TabInfo) (u : Ui)
    → get_elem? u.core.tab_state.tabs i ≡ some t
    → Move u (switch_to t u)
unfolding switch_to emit_input
switch_to-Move i t u e =
    let s = u.core.tab_state in
    Move-if _ (stands u) (record {
      sent = InputEvent.switch_tab t.id ∷ [];
      emits = refl;
      change = λ _. Change.switch t.id (is_in-elem i s.tabs t e) refl refl;
      zoom = λ z. z;
      pictures = λ p. left_nothing t.id s p.0 p.1;
    })
