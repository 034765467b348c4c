-- ===== src/Client/Core/Unique.antt =====
-- gutted-client/src/render.rs: `handle_render_event` keeps the ids of the tabs apart.
use exo_browser_core.Common.{
  ℕ, ◌==◌, ◌≡◌, ◌≢◌, refl, sym, ap, subst, ◌&&◌, not, Option, none, some, List, [], ◌∷◌, ◌++◌, All,
  Bool-cases, Option-cases, inl, inr, arith,
}
use exo_browser_core.Client.Events.{RenderEvent, GfxFrame}
use exo_browser_core.Client.Core.State.{TabInfo, TabState, BrowserCore}
use exo_browser_core.Client.Core.Tabs.{
  find_tab, is_empty, update_tab, retain_tabs, set_url, refresh_tab, new_tab, add_tab,
  on_load_state, on_url_changed, on_title, on_tab_created, on_tab_closed, activate_first,
  on_tab_activated, on_tab_title, on_tab_url, show_tab,
}
use exo_browser_core.Client.Core.Handle.{handle_render_event, on_frame, take_frame}

abbrev pub ids : List TabInfo → List ℕ
ids [] = []
ids (t ∷ ts) = t.id ∷ ids ts

-- No number stands twice.
abbrev pub Apart : List ℕ → Type 0
Apart [] = Unit {0}
Apart (n ∷ ns) = All (λ k. n ≢ k) ns × Apart ns

abbrev pub IsTabState : BrowserCore → Type 0
IsTabState core = Apart (ids core.tab_state.tabs)

pub ids-update_tab :
    (id : ℕ) (f : TabInfo → TabInfo) (ts : List TabInfo)
    → ((t : TabInfo) → (f t).id ≡ t.id)
    → ids (update_tab id f ts) ≡ ids ts
unfolding update_tab
ids-update_tab id f [] h = refl
ids-update_tab id f (t ∷ ts) h = elim (Bool-cases (t.id == id)) [
  | inl e ↦ rw e (ap (λ n. n ∷ ids ts) (h t))
  | inr e ↦ rw e (ap (λ ns. t.id ∷ ns) (ids-update_tab id f ts h))
]

All-retain_tabs :
    (n id : ℕ) (ts : List TabInfo)
    → All (λ k. n ≢ k) (ids ts)
    → All (λ k. n ≢ k) (ids (retain_tabs id ts))
unfolding retain_tabs
All-retain_tabs n id [] h = h
All-retain_tabs n id (t ∷ ts) h = elim (Bool-cases (t.id == id)) [
  | inl e ↦ rw e (All-retain_tabs n id ts h.1)
  | inr e ↦ rw e (h.0, All-retain_tabs n id ts h.1)
]

Apart-retain_tabs : (id : ℕ) (ts : List TabInfo) → Apart (ids ts) → Apart (ids (retain_tabs id ts))
unfolding retain_tabs
Apart-retain_tabs id [] h = h
Apart-retain_tabs id (t ∷ ts) h = elim (Bool-cases (t.id == id)) [
  | inl e ↦ rw e (Apart-retain_tabs id ts h.1)
  | inr e ↦ rw e (All-retain_tabs t.id id ts h.0, Apart-retain_tabs id ts h.1)
]

All-add :
    (n : ℕ) (ts : List TabInfo) (t : TabInfo)
    → All (λ k. n ≢ k) (ids ts)
    → n ≢ t.id
    → All (λ k. n ≢ k) (ids (ts ++ (t ∷ [])))
All-add n [] t h p = (p, h)
All-add n (u ∷ ts) t h p = (h.0, All-add n ts t h.1 p)

-- A tab that was not found may be added.
Apart-add :
    (ts : List TabInfo) (t : TabInfo)
    → find_tab t.id ts ≡ none
    → Apart (ids ts)
    → Apart (ids (ts ++ (t ∷ [])))
unfolding find_tab
Apart-add [] t e h = (h, h)
Apart-add (u ∷ ts) t e h = elim (Bool-cases (u.id == t.id)) [
  | inl q ↦ absurd (ground (arith, rw q at e))
  | inr q ↦ (All-add u.id ts t h.0 (ground (arith, q)), Apart-add ts t (rw q at e) h.1)
]

Apart-update_tab :
    (id : ℕ) (f : TabInfo → TabInfo) (ts : List TabInfo)
    → ((t : TabInfo) → (f t).id ≡ t.id)
    → Apart (ids ts)
    → Apart (ids (update_tab id f ts))
Apart-update_tab id f ts k h = subst Apart (sym (ids-update_tab id f ts k)) h

refresh_tab-id : (title url : List ℕ) (t : TabInfo) → (refresh_tab title url t).id ≡ t.id
unfolding refresh_tab
refresh_tab-id title url t = elim (Bool-cases (is_empty title)) [
  | inl e ↦ elim (Bool-cases (is_empty url)) [ inl d ↦ rw (e, d) refl | inr d ↦ rw (e, d) refl ]
  | inr e ↦ elim (Bool-cases (is_empty url)) [ inl d ↦ rw (e, d) refl | inr d ↦ rw (e, d) refl ]
]

Apart-add_tab :
    (tab_id : ℕ) (title url : List ℕ) (ts : List TabInfo)
    → Apart (ids ts)
    → Apart (ids (add_tab tab_id title url ts))
unfolding add_tab new_tab
Apart-add_tab tab_id title url ts h = elim (Option-cases (find_tab tab_id ts)) [
  | inl e ↦
      subst (λ us. Apart (ids us)) (sym (absent e))
        (Apart-add ts (new_tab tab_id title url) (here e) h)
  | inr (t, e) ↦
      subst (λ us. Apart (ids us)) (sym (present t e))
        (Apart-update_tab tab_id (refresh_tab title url) ts (refresh_tab-id title url) h)
]
  where
    absent :
        find_tab tab_id ts ≡ none
        → add_tab tab_id title url ts ≡ ts ++ (new_tab tab_id title url ∷ [])
    absent e = rw (add_tab, e) refl

    here : find_tab tab_id ts ≡ none → find_tab (new_tab tab_id title url).id ts ≡ none
    here e = e

    present :
        (t : TabInfo)
        → find_tab tab_id ts ≡ some t
        → add_tab tab_id title url ts ≡ update_tab tab_id (refresh_tab title url) ts
    present t e = rw (add_tab, e) refl

tabs-on_frame :
    (f : GfxFrame) (core : BrowserCore) → (on_frame f core).tab_state.tabs ≡ core.tab_state.tabs
unfolding on_frame
tabs-on_frame f core = elim (Option-cases (take_frame f core.pending)) [
  | inl e ↦ rw (on_frame, e) refl
  | inr (p, e) ↦ rw (on_frame, e) refl
]

tabs-activate_first : (ts : List TabInfo) (s : TabState) → (activate_first ts s).tabs ≡ s.tabs
unfolding activate_first
tabs-activate_first [] s = refl
tabs-activate_first (t ∷ ts) s = refl

tabs-on_tab_closed :
    (tab_id : ℕ) (s : TabState) → (on_tab_closed tab_id s).tabs ≡ retain_tabs tab_id s.tabs
unfolding on_tab_closed
tabs-on_tab_closed tab_id s = elim (Bool-cases (s.active_tab_id == tab_id)) [
  | inl e ↦ rw e (tabs-activate_first (retain_tabs tab_id s.tabs) _)
  | inr e ↦ rw e refl
]

tabs-show_tab : (o : Option TabInfo) (s : TabState) → (show_tab o s).tabs ≡ s.tabs
unfolding show_tab
tabs-show_tab none s = refl
tabs-show_tab (some t) s = elim (Bool-cases s.editing) [ inl e ↦ rw e refl | inr e ↦ rw e refl ]

tabs-on_tab_activated : (tab_id : ℕ) (s : TabState) → (on_tab_activated tab_id s).tabs ≡ s.tabs
unfolding on_tab_activated
tabs-on_tab_activated tab_id s = elim (Bool-cases (s.active_tab_id == tab_id)) [
  | inl e ↦ rw e refl
  | inr e ↦ rw e (tabs-show_tab (find_tab tab_id s.tabs) _)
]

Apart-on_tab_url :
    (tab_id : ℕ) (url : List ℕ) (s : TabState)
    → Apart (ids s.tabs)
    → Apart (ids (on_tab_url tab_id url s).tabs)
unfolding on_tab_url
Apart-on_tab_url tab_id url s h = elim (Option-cases (find_tab tab_id s.tabs)) [
  | inl e ↦ subst (λ us. Apart (ids us)) (sym (absent e)) h
  | inr (t, e) ↦
      subst (λ us. Apart (ids us)) (sym (present t e))
        (Apart-update_tab tab_id (set_url url) s.tabs (λ t'. refl) h)
]
  where
    absent : find_tab tab_id s.tabs ≡ none → (on_tab_url tab_id url s).tabs ≡ s.tabs
    absent e = rw (on_tab_url, e) refl

    present :
        (t : TabInfo)
        → find_tab tab_id s.tabs ≡ some t
        → (on_tab_url tab_id url s).tabs ≡ update_tab tab_id (set_url url) s.tabs
    present t e = elim (Bool-cases (tab_id == s.active_tab_id && not s.editing)) [
      | inl d ↦ rw (on_tab_url, e, d) refl
      | inr d ↦ rw (on_tab_url, e, d) refl
    ]

-- Handling any event, at any time, leaves tabs with pairwise distinct ids so.
pub handle_render_event-Apart :
    (now : ℕ) (core : BrowserCore) (ev : RenderEvent)
    → IsTabState core
    → IsTabState (handle_render_event now core ev).0
unfolding handle_render_event on_load_state on_url_changed on_title on_tab_created on_tab_title
handle_render_event-Apart now core RenderEvent.quit h = h
handle_render_event-Apart now core (RenderEvent.frame f) h =
    subst (λ us. Apart (ids us)) (sym (tabs-on_frame f core)) h
handle_render_event-Apart now core (RenderEvent.subframe s) h = h
handle_render_event-Apart now core (RenderEvent.tile_data hash pixels) h = h
handle_render_event-Apart now core (RenderEvent.tile_ref x y w h' hash) h = h
handle_render_event-Apart now core (RenderEvent.audio pts_us channels sample_rate bytes) h = h
handle_render_event-Apart now core (RenderEvent.cursor_shape shape) h = h
handle_render_event-Apart now core (RenderEvent.load_state state) h =
    Apart-update_tab _ _ core.tab_state.tabs (λ t. refl) h
handle_render_event-Apart now core (RenderEvent.initial_url u) h =
    Apart-update_tab _ _ core.tab_state.tabs (λ t. refl) h
handle_render_event-Apart now core (RenderEvent.url_changed u) h =
    Apart-update_tab _ _ core.tab_state.tabs (λ t. refl) h
handle_render_event-Apart now core (RenderEvent.title title) h =
    Apart-update_tab _ _ core.tab_state.tabs (λ t. refl) h
handle_render_event-Apart now core (RenderEvent.tab_created tab_id title url) h =
    Apart-add_tab tab_id title url core.tab_state.tabs h
handle_render_event-Apart now core (RenderEvent.tab_closed tab_id) h =
    subst (λ us. Apart (ids us)) (sym (tabs-on_tab_closed tab_id core.tab_state))
      (Apart-retain_tabs tab_id core.tab_state.tabs h)
handle_render_event-Apart now core (RenderEvent.tab_activated tab_id) h =
    subst (λ us. Apart (ids us)) (sym (tabs-on_tab_activated tab_id core.tab_state)) h
handle_render_event-Apart now core (RenderEvent.tab_title tab_id title) h =
    Apart-update_tab _ _ core.tab_state.tabs (λ t. refl) h
handle_render_event-Apart now core (RenderEvent.tab_url tab_id url) h =
    Apart-on_tab_url tab_id url core.tab_state h
