-- ===== src/Client/Ui/Steps/Close.antt =====
-- gutted-client/src/render.rs: closing tabs, and going to the next one, as steps.
use exo_browser_core.Common.{
  ℕ, zero, suc, ◌+◌, ◌%◌, ◌<◌, ◌==◌, ==_iff, ◌≡◌, ◌≢◌, refl, sym, ap, true, false, Option, none,
  some, List, [], ◌∷◌, append_assoc, length, get_elem?, ltb, ltb→lt, Bool-cases, inl, inr, arith,
}
use exo_browser_core.Client.Events.{InputEvent}
use exo_browser_core.Client.Core.State.{TabInfo, TabState, remove_key, lookup_key}
use exo_browser_core.Client.Core.Tabs.{find_tab, retain_tabs, activate_first}
use exo_browser_core.Client.Core.Unique.{ids, Apart}
use exo_browser_core.Client.Ui.{Ui, emit_input, with_tabs_of}
use exo_browser_core.Client.Ui.Moves.{
  go_to_first, close_active, position, or_zero, leave_for, show_address, next_tab, remove_at,
  close_at,
}
use exo_browser_core.Client.Ui.Tabs.{view, is_in, others, Change, IsTabs, Move, Move-if}
use exo_browser_core.Client.Ui.Steps.{stands}
use exo_browser_core.Client.Ui.Steps.Moves.{
  ids-retain_tabs, ids-remove_at, is_in-elem, left_nothing,
}

length-ids : (ts : List TabInfo) → length (ids ts) ≡ length ts
length-ids [] = refl
length-ids (t ∷ ts) = ap suc (length-ids ts)

-- Of two numbers that are apart, one is left.
others-ne-nil : (k : ℕ) (ns : List ℕ) → Apart ns → 1 < length ns → others k ns ≢ []
others-ne-nil k [] h l e = absurd (omega arith)
others-ne-nil k (a ∷ []) h l e = absurd (omega arith)
others-ne-nil k (a ∷ b ∷ ns) h l e = elim (Bool-cases (a == k)) [
  | inl p ↦
      let q : (b == k) ≡ false = ground (arith, p, h.0.0) in absurd (ground (arith, rw (p, q) at e))
  | inr p ↦ absurd (ground (arith, rw p at e))
]

-- The active tab is closed, and the first of those that are kept is shown.
closes_current :
    (k : ℕ) (kept : List TabInfo) (u : Ui)
    → 1 < length u.core.tab_state.tabs
    → u.core.tab_state.active_tab_id ≡ k
    → (IsTabs (view u) → ids kept ≡ others k (ids u.core.tab_state.tabs))
    → Move u (
        go_to_first kept
          (record u.core.tab_state {
            tabs = kept;
            tab_composites = remove_key k u.core.tab_state.tab_composites;
          })
          (emit_input (InputEvent.close_tab k) u))
unfolding go_to_first emit_input activate_first lookup_key remove_key
closes_current k [] u l active e = record {
  sent = InputEvent.close_tab k ∷ [];
  emits = refl;
  change = λ v. absurd (
      others-ne-nil k (ids u.core.tab_state.tabs) v.apart
        (omega (arith, length-ids u.core.tab_state.tabs)) (sym (e v)));
  zoom = λ z. z;
  pictures = λ p. (p.0, ap (remove_key k) p.1);
}
closes_current k (first ∷ rest) u l active e =
    let closed = InputEvent.close_tab k in
    let switched = InputEvent.switch_tab first.id in
    record {
      sent = closed ∷ switched ∷ [];
      emits = append_assoc u.outbound_inputs (closed ∷ []) (switched ∷ []);
      change = λ v.
          Change.close_current first.id (ids rest) (rw active (sym (e v))) refl
            (ap (λ (j : ℕ). InputEvent.close_tab j ∷ switched ∷ []) (sym active));
      zoom = λ z. z;
      pictures = λ p. (
        ap (λ m. lookup_key first.id (remove_key k m)) p.1,
        ap (λ m. remove_key first.id (remove_key k m)) p.1,
      );
    }

pub close_active-Move : (u : Ui) → Move u (close_active u)
unfolding close_active
close_active-Move u =
    let s = u.core.tab_state in
    elim (Bool-cases (ltb 1 (length s.tabs))) [
      | inl more ↦ rw more (
          closes_current s.active_tab_id (retain_tabs s.active_tab_id s.tabs) u (ltb→lt _ _ more)
            refl (λ _. ids-retain_tabs s.active_tab_id s.tabs))
      | inr last ↦ rw last (stands u)
    ]

pub close_at-Move :
    (i : ℕ) (t : TabInfo) (u : Ui)
    → get_elem? u.core.tab_state.tabs i ≡ some t
    → ltb 1 (length u.core.tab_state.tabs) ≡ true
    → Move u (close_at i t u)
unfolding close_at emit_input remove_key
close_at-Move i t u e more =
    let s = u.core.tab_state in
    let kept = λ (v : IsTabs (view u)). ids-remove_at i s.tabs t v.apart e in
    elim (Bool-cases (s.active_tab_id == t.id)) [
      | inl d ↦ rw d (
          closes_current t.id (remove_at i s.tabs) u (ltb→lt _ _ more)
            ((==_iff s.active_tab_id t.id).0 d) kept)
      | inr d ↦ rw d (record {
        sent = InputEvent.close_tab t.id ∷ [];
        emits = refl;
        change = λ v.
            Change.close t.id (ground (arith, d))
              (ap (λ ns. record { ids = ns; active = s.active_tab_id; next = s.next_tab_id })
                (kept v))
              refl;
        zoom = λ z. z;
        pictures = λ p. (p.0, ap (remove_key t.id) p.1);
      })
    ]

next_tab_to :
    (next : TabInfo) (o : Option TabInfo) (u : Ui)
    → is_in next.id (ids u.core.tab_state.tabs) ≡ true
    → Move u (
        emit_input
          (InputEvent.switch_tab next.id)
          (with_tabs_of true true (show_address o (leave_for next.id u.core.tab_state)) u))
unfolding emit_input
next_tab_to next none u e = record {
  sent = InputEvent.switch_tab next.id ∷ [];
  emits = refl;
  change = λ _. Change.switch next.id e refl refl;
  zoom = λ z. z;
  pictures = λ p. left_nothing next.id u.core.tab_state p.0 p.1;
}
next_tab_to next (some t) u e = record {
  sent = InputEvent.switch_tab next.id ∷ [];
  emits = refl;
  change = λ _. Change.switch next.id e refl refl;
  zoom = λ z. z;
  pictures = λ p. left_nothing next.id u.core.tab_state p.0 p.1;
}

pub next_tab-Move : (u : Ui) → Move u (next_tab u)
unfolding next_tab
next_tab-Move u =
    let s = u.core.tab_state in
    Move-if _
      (by_elem
        (get_elem? s.tabs ((or_zero (position s.active_tab_id 0 s.tabs) + 1) % length s.tabs)) refl)
      (stands u)
  where
    by_elem :
        (o : Option TabInfo)
        → get_elem? u.core.tab_state.tabs (
            (or_zero (position u.core.tab_state.active_tab_id 0 u.core.tab_state.tabs) + 1)
            % length u.core.tab_state.tabs)
          ≡ o
        → Move u (elim o [
          | none ↦ u
          | some next ↦ emit_input (InputEvent.switch_tab next.id) (
              with_tabs_of true true
                (show_address
                  (find_tab next.id u.core.tab_state.tabs)
                  (leave_for next.id u.core.tab_state))
                u)
        ])
    by_elem none e = stands u
    by_elem (some next) e =
        next_tab_to next (find_tab next.id u.core.tab_state.tabs) u
          (is_in-elem _ u.core.tab_state.tabs next e)

get_elem?-lt :
    (i : ℕ) (ts : List TabInfo) → i < length ts → (t : TabInfo) × (get_elem? ts i ≡ some t)
get_elem?-lt i [] l = absurd (omega arith)
get_elem?-lt zero (t ∷ ts) l = (t, refl)
get_elem?-lt (suc i) (t ∷ ts) l = get_elem?-lt i ts (omega arith)

-- The index of Ctrl+Tab is in range.
pub next_tab_in_range :
    (s : TabState)
    → 1 < length s.tabs
    → (t : TabInfo) × (get_elem? s.tabs
          ((or_zero (position s.active_tab_id 0 s.tabs) + 1) % length s.tabs)
        ≡ some t)
next_tab_in_range s l =
    get_elem?-lt ((or_zero (position s.active_tab_id 0 s.tabs) + 1) % length s.tabs) s.tabs
      (grind arith)
