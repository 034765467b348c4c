-- ===== src/Client/Ui/Turns.antt =====
-- gutted-client/src/render.rs: what the user does and what the host sends, in any order.
use exo_browser_core.Common.{
  ℕ, ◌==◌, ◌&&◌, not, ◌≡◌, refl, sym, ap, ◌∙◌, subst, Bool, none, List, [], ◌∷◌, Bool-cases,
  Option-cases, inl, inr, arith,
}
use exo_browser_core.Client.Events.{RenderEvent, GfxFrame}
use exo_browser_core.Client.Core.State.{TabInfo, TabState, BrowserCore, remove_key, lookup_key}
use exo_browser_core.Client.Core.Tabs.{
  find_tab, on_load_state, on_url_changed, on_title, on_tab_created, activate_first, on_tab_closed,
  on_tab_activated, on_tab_title, on_tab_url, retain_tabs,
}
use exo_browser_core.Client.Core.Handle.{handle_render_event, on_frame, take_frame}
use exo_browser_core.Client.Core.Switch.{show_tab-pictures}
use exo_browser_core.Client.Ui.{Ui, new_no_std}
use exo_browser_core.Client.Ui.Inputs.{UserInput, user_input}
use exo_browser_core.Client.Ui.Tabs.{IsZoom, NoPictures}
use exo_browser_core.Client.Ui.Steps.Moves.{stored_nothing}
use exo_browser_core.Client.Ui.Steps.Runs.{user_input-Move}

-- An input of the user, or an event that comes at a time.
pub data ClientTurn : Type 0 where
  input : UserInput → ClientTurn
  event : (now : ℕ) → RenderEvent → ClientTurn

unfoldable pub client_turn : ClientTurn → Ui → Ui
unfolding user_input handle_render_event
client_turn (ClientTurn.input i) ui = user_input i ui
client_turn (ClientTurn.event now ev) ui = record ui {
  core = (handle_render_event now ui.core ev).0;
}

unfoldable pub client_turns : List ClientTurn → Ui → Ui
unfolding client_turn
client_turns [] ui = ui
client_turns (t ∷ ts) ui = client_turns ts (client_turn t ui)

abbrev Empty : TabState → Type 0
Empty s = (s.active_buf ≡ none) × (s.tab_composites ≡ [])

on_frame-Empty : (f : GfxFrame) (core : BrowserCore) → (on_frame f core).tab_state ≡ core.tab_state
unfolding on_frame
on_frame-Empty f core = elim (Option-cases (take_frame f core.pending)) [
  | inl e ↦ rw (on_frame, e) refl
  | inr (p, e) ↦ rw (on_frame, e) refl
]

on_url_changed-Empty : (u : List ℕ) (s : TabState) → Empty s → Empty (on_url_changed u s)
unfolding on_url_changed
on_url_changed-Empty u s h = elim (Bool-cases s.editing) [ inl e ↦ rw e h | inr e ↦ rw e h ]

activate_first-Empty : (ts : List TabInfo) (s : TabState) → Empty s → Empty (activate_first ts s)
unfolding activate_first lookup_key remove_key
activate_first-Empty [] s h = h
activate_first-Empty (t ∷ ts) s h = (ap (lookup_key t.id) h.1, ap (remove_key t.id) h.1)

on_tab_closed-Empty : (k : ℕ) (s : TabState) → Empty s → Empty (on_tab_closed k s)
unfolding on_tab_closed remove_key
on_tab_closed-Empty k s h =
    let rest = ap (remove_key k) h.1 in
    elim (Bool-cases (s.active_tab_id == k)) [
      | inl e ↦ rw e (activate_first-Empty (retain_tabs k s.tabs) _ (h.0, rest))
      | inr e ↦ rw e (h.0, rest)
    ]

on_tab_activated-Empty : (k : ℕ) (s : TabState) → Empty s → Empty (on_tab_activated k s)
unfolding on_tab_activated lookup_key remove_key
on_tab_activated-Empty k s h =
    let q = stored_nothing s h.0 h.1 in
    elim (Bool-cases (s.active_tab_id == k)) [
      | inl e ↦ rw e h
      | inr e ↦
          let (buf, composites, _) = show_tab-pictures (find_tab k s.tabs) _ in
          rw e (buf ∙ ap (lookup_key k) q, composites ∙ ap (remove_key k) q)
    ]

on_tab_url-Empty : (k : ℕ) (url : List ℕ) (s : TabState) → Empty s → Empty (on_tab_url k url s)
unfolding on_tab_url
on_tab_url-Empty k url s h = elim (Option-cases (find_tab k s.tabs)) [
  | inl e ↦ rw (on_tab_url, e) h
  | inr (t, e) ↦ elim (Bool-cases (k == s.active_tab_id && not s.editing)) [
    | inl d ↦ rw (on_tab_url, e, d) h
    | inr d ↦ rw (on_tab_url, e, d) h
  ]
]

event-Empty :
    (now : ℕ) (core : BrowserCore) (ev : RenderEvent)
    → Empty core.tab_state
    → Empty (handle_render_event now core ev).0.tab_state
unfolding handle_render_event on_load_state on_title on_tab_created on_tab_title
event-Empty now core RenderEvent.quit h = h
event-Empty now core (RenderEvent.frame f) h = subst Empty (sym (on_frame-Empty f core)) h
event-Empty now core (RenderEvent.subframe s) h = h
event-Empty now core (RenderEvent.tile_data hash pixels) h = h
event-Empty now core (RenderEvent.tile_ref x y w h' hash) h = h
event-Empty now core (RenderEvent.audio pts_us channels sample_rate bytes) h = h
event-Empty now core (RenderEvent.cursor_shape shape) h = h
event-Empty now core (RenderEvent.load_state state) h = h
event-Empty now core (RenderEvent.initial_url u) h = on_url_changed-Empty u core.tab_state h
event-Empty now core (RenderEvent.url_changed u) h = on_url_changed-Empty u core.tab_state h
event-Empty now core (RenderEvent.title title) h = h
event-Empty now core (RenderEvent.tab_created k title url) h = h
event-Empty now core (RenderEvent.tab_closed k) h = on_tab_closed-Empty k core.tab_state h
event-Empty now core (RenderEvent.tab_activated k) h = on_tab_activated-Empty k core.tab_state h
event-Empty now core (RenderEvent.tab_title k title) h = h
event-Empty now core (RenderEvent.tab_url k url) h = on_tab_url-Empty k url core.tab_state h

turn-kept :
    (t : ClientTurn) (u : Ui)
    → IsZoom u.zoom_milli × NoPictures u
    → IsZoom (client_turn t u).zoom_milli × NoPictures (client_turn t u)
unfolding client_turn
turn-kept (ClientTurn.input i) u p = let m = user_input-Move i u in (m.zoom p.0, m.pictures p.1)
turn-kept (ClientTurn.event now ev) u p = (p.0, event-Empty now u.core ev p.1)

turns-kept :
    (ts : List ClientTurn) (u : Ui)
    → IsZoom u.zoom_milli × NoPictures u
    → IsZoom (client_turns ts u).zoom_milli × NoPictures (client_turns ts u)
unfolding client_turns
turns-kept [] u p = p
turns-kept (t ∷ ts) u p = turns-kept ts (client_turn t u) (turn-kept t u p)

-- From the start on, whatever the user does and whatever the host sends, in any order: the zoom is
-- 300 to 3000, and no tab ever has a stored picture.
pub client_turns-NoPictures :
    (ts : List ClientTurn) (w h : ℕ) (url : List ℕ) (editing : Bool)
    → IsZoom (client_turns ts (new_no_std w h url editing)).zoom_milli
      × NoPictures (client_turns ts (new_no_std w h url editing))
unfolding new_no_std
client_turns-NoPictures ts w h url editing =
    turns-kept ts (new_no_std w h url editing) ((omega arith), (refl, refl))
