-- ===== src/Client/Ui/Steps.antt =====
-- gutted-client/src/render.rs: the inputs that leave the tabs alone, as steps.
pub mod Moves
pub mod Close
pub mod Keys
pub mod Clicks
pub mod Runs
use exo_browser_core.Common.{
  ℕ, ◌≡◌, refl, sym, ap, ◌∙◌, append-nil, Bool, true, false, Option, none, some, List, [], ◌∷◌,
  ◌++◌, if◌then◌else◌, ltb, ◌==◌, ◌&&◌, All, Bool-cases, inl, inr, arith, ℤ, pos, negsuc, max, min,
  leb,
}
use exo_browser_core.Client.Session.{chrome_h}
use exo_browser_core.Client.Events.{InputEvent}
use exo_browser_core.Client.Core.State.{TabState, TabInfo}
use exo_browser_core.Client.Core.Unique.{ids, ids-update_tab}
use exo_browser_core.Client.Url.{canonicalize_url}
use exo_browser_core.Client.Ui.{
  Ui, emit_input, with_tabs_of, on_resize, visit, submit_omnibox, content_row, on_pointer_move,
  is_zero, on_scroll, with_bit, keysym_bit, update_keysym_modifier, update_x11_mods, zoom_to,
  toggle_mute, edit_address,
}
use exo_browser_core.Client.Ui.Tabs.{Tabs, view, IsOther, Change, IsZoom, NoPictures, Move, Move-if}

-- A step that leaves the tabs and their pictures.
pub stays :
    (u v : Ui) (sent : List InputEvent)
    → v.outbound_inputs ≡ u.outbound_inputs ++ sent
    → All IsOther sent
    → view v ≡ view u
    → (IsZoom u.zoom_milli → IsZoom v.zoom_milli)
    → v.core.tab_state.active_buf ≡ u.core.tab_state.active_buf
    → v.core.tab_state.tab_composites ≡ u.core.tab_state.tab_composites
    → Move u v
stays u v sent e other same zoom buf composites = record {
  sent = sent;
  emits = e;
  change = λ _. Change.stay same other;
  zoom = zoom;
  pictures = λ p. (buf ∙ p.0, composites ∙ p.1);
}

-- A step that sends nothing, and one that sends one event.
pub quiet :
    (u v : Ui)
    → v.outbound_inputs ≡ u.outbound_inputs
    → view v ≡ view u
    → v.zoom_milli ≡ u.zoom_milli
    → v.core.tab_state.active_buf ≡ u.core.tab_state.active_buf
    → v.core.tab_state.tab_composites ≡ u.core.tab_state.tab_composites
    → Move u v
quiet u v e same zoom buf composites =
    stays u v [] (e ∙ sym (append-nil _)) tt same (λ z. rw zoom z) buf composites

pub stands : (u : Ui) → Move u u
stands u = quiet u u refl refl refl refl refl

pub says :
    (ev : InputEvent) (u v : Ui)
    → v.outbound_inputs ≡ u.outbound_inputs ++ (ev ∷ [])
    → IsOther ev
    → view v ≡ view u
    → v.zoom_milli ≡ u.zoom_milli
    → v.core.tab_state.active_buf ≡ u.core.tab_state.active_buf
    → v.core.tab_state.tab_composites ≡ u.core.tab_state.tab_composites
    → Move u v
says ev u v e other same zoom buf composites =
    stays u v (ev ∷ []) e (other, tt) same (λ z. rw zoom z) buf composites

-- `emit_input` alone.
pub emit_input-Move : (ev : InputEvent) (u : Ui) → IsOther ev → Move u (emit_input ev u)
unfolding emit_input
emit_input-Move ev u other = says ev u (emit_input ev u) refl other refl refl refl refl

pub on_resize-Move : (w h : ℕ) (u : Ui) → Move u (on_resize w h u)
unfolding on_resize emit_input
on_resize-Move w h u = Move-if _ (stands u) (says _ u _ refl tt refl refl refl refl)

-- A page of the active tab leaves the numbers of the tabs.
pub view-visit : (url : List ℕ) (s : TabState) → ids (visit url s).tabs ≡ ids s.tabs
view-visit url s = ids-update_tab s.active_tab_id _ s.tabs (λ t. refl)

pub submit_omnibox-Move : (u : Ui) → Move u (submit_omnibox u)
unfolding submit_omnibox emit_input
submit_omnibox-Move u =
    let s = u.core.tab_state in
    let url = canonicalize_url s.url_buf in
    says (InputEvent.navigate url) u (submit_omnibox u) refl tt
      (ap (λ ns. record { ids = ns; active = s.active_tab_id; next = s.next_tab_id })
        (view-visit url s))
      refl refl refl

pub on_pointer_move-Move : (x y : ℤ) (u : Ui) → Move u (on_pointer_move x y u)
unfolding on_pointer_move content_row emit_input
on_pointer_move-Move x y u = by_row (content_row y)
  where
    by_row :
        (o : Option ℤ)
        → Move u (elim o [
          | none ↦ record u { cursor = (x, y) }
          | some row ↦ emit_input (InputEvent.motion x row u.mods) (record u { cursor = (x, y) })
        ])
    by_row none = quiet u _ refl refl refl refl refl
    by_row (some row) = says (InputEvent.motion x row u.mods) u _ refl tt refl refl refl refl

pub on_scroll-Move : (dx dy : ℤ) (u : Ui) → Move u (on_scroll dx dy u)
unfolding on_scroll content_row emit_input
on_scroll-Move dx dy u = by_row (content_row u.cursor.1)
  where
    by_row :
        (o : Option ℤ)
        → Move u (elim o [
          | none ↦ u
          | some _ ↦ if is_zero dx && is_zero dy then u else emit_input (InputEvent.scroll dx dy) u
        ])
    by_row none = stands u
    by_row (some row) = Move-if _ (stands u) (emit_input-Move (InputEvent.scroll dx dy) u tt)

pub update_keysym_modifier-Move :
    (keysym : ℕ) (pressed : Bool) (u : Ui) → Move u (update_keysym_modifier keysym pressed u)
unfolding update_keysym_modifier
update_keysym_modifier-Move keysym pressed u = by_bit (keysym_bit keysym)
  where
    by_bit :
        (o : Option ℕ)
        → Move u (elim o [ none ↦ u | some bit ↦ record u { mods = with_bit pressed bit u.mods } ])
    by_bit none = stands u
    by_bit (some bit) = quiet u _ refl refl refl refl refl

pub update_x11_mods-Move :
    (shift control mod1 mod4 : Bool) (u : Ui) → Move u (update_x11_mods shift control mod1 mod4 u)
unfolding update_x11_mods
update_x11_mods-Move shift control mod1 mod4 u = quiet u _ refl refl refl refl refl

pub zoom_to-Move :
    (level : ℕ) (u : Ui) → (IsZoom u.zoom_milli → IsZoom level) → Move u (zoom_to level u)
unfolding zoom_to emit_input
zoom_to-Move level u keeps =
    stays u (zoom_to level u) (InputEvent.set_zoom level ∷ []) refl (tt, tt) refl keeps refl refl

pub toggle_mute-Move : (u : Ui) → Move u (toggle_mute u)
toggle_mute-Move u = quiet u (toggle_mute u) refl refl refl refl refl

pub edit_address-Move : (u : Ui) → Move u (edit_address u)
edit_address-Move u = quiet u (edit_address u) refl refl refl refl refl
