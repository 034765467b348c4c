-- ===== src/Client/Core/Tabs.antt =====
-- gutted-client/src/render.rs: what the events of tabs do in `BrowserCore::handle_render_event`.
use exo_browser_core.Common.{
  ℕ, ◌+◌, ◌%◌, ◌^◌, max, ltb, ◌==◌, ◌&&◌, not, Bool, true, false, Option, none, some, List, [], ◌∷◌,
  ◌++◌, if◌then◌else◌,
}
use exo_browser_core.Client.Session.{bytes_of}
use exo_browser_core.Client.Core.State.{
  TabInfo, TabBuffer, TabState, remove_key, insert_key, lookup_key,
}

unfoldable pub is_empty : List ℕ → Bool
is_empty [] = true
is_empty (_ ∷ _) = false

unfoldable pub starts_with : List ℕ → List ℕ → Bool
starts_with [] s = true
starts_with (p ∷ ps) [] = false
starts_with (p ∷ ps) (c ∷ cs) = p == c && starts_with ps cs

unfoldable pub is_https : List ℕ → Bool
is_https url = starts_with (bytes_of "https://") url

-- `self.tabs.iter().find(|t| t.id == id)`.
unfoldable pub find_tab : ℕ → List TabInfo → Option TabInfo
find_tab id [] = none
find_tab id (t ∷ ts) = let rest = find_tab id ts in if t.id == id then some t else rest

-- `if let Some(t) = self.tabs.iter_mut().find(|t| t.id == id) { … }`.
unfoldable pub update_tab : ℕ → (TabInfo → TabInfo) → List TabInfo → List TabInfo
update_tab id f [] = []
update_tab id f (t ∷ ts) =
    let rest = update_tab id f ts in if t.id == id then f t ∷ ts else t ∷ rest

-- `self.tabs.retain(|t| t.id != id)`.
unfoldable pub retain_tabs : ℕ → List TabInfo → List TabInfo
retain_tabs id [] = []
retain_tabs id (t ∷ ts) = let rest = retain_tabs id ts in if t.id == id then rest else t ∷ rest

abbrev pub set_loading : Bool → TabInfo → TabInfo
set_loading b t = record t { is_loading = b }

abbrev pub set_url : List ℕ → TabInfo → TabInfo
set_url u t = record t { url = u; is_secure = is_https u }

abbrev pub set_title : List ℕ → TabInfo → TabInfo
set_title s t = record t { title = s }

-- `TabState` with new tabs.
abbrev pub with_tabs : List TabInfo → TabState → TabState
with_tabs ts s = record s { tabs = ts }

abbrev pub with_url_buf : List ℕ → TabState → TabState
with_url_buf u s = record s { url_buf = u }

abbrev pub with_is_loading : Bool → TabState → TabState
with_is_loading b s = record s { is_loading = b }

abbrev pub with_window_title : List ℕ → TabState → TabState
with_window_title t s = record s { window_title = t }

abbrev pub with_next_tab_id : ℕ → TabState → TabState
with_next_tab_id n s = record s { next_tab_id = n }

-- The active tab with its picture, and the pictures of the others.
abbrev pub with_active : ℕ → Option TabBuffer → List (ℕ × TabBuffer) → TabState → TabState
with_active id buf composites s = record s {
  active_tab_id = id;
  active_buf = buf;
  tab_composites = composites;
}

-- `RenderEvent::LoadState`.
unfoldable pub on_load_state : ℕ → TabState → TabState
on_load_state state s =
    let loading = ltb state 3 in
    with_tabs (update_tab s.active_tab_id (set_loading loading) s.tabs) (with_is_loading loading s)

-- `RenderEvent::InitialUrl` and `RenderEvent::UrlChanged`.
unfoldable pub on_url_changed : List ℕ → TabState → TabState
on_url_changed u s =
    let s' = if s.editing then s else with_url_buf u s in
    with_tabs (update_tab s.active_tab_id (set_url u) s.tabs) s'

-- `RenderEvent::Title`; the suffix is the UTF-8 of " — ExoBrowser".
unfoldable pub on_title : List ℕ → TabState → TabState
on_title title s =
    with_window_title
      (if is_empty title
        then bytes_of "ExoBrowser"
        else title ++ (32 ∷ 226 ∷ 128 ∷ 148 ∷ 32 ∷ bytes_of "ExoBrowser"))
      (with_tabs (update_tab s.active_tab_id (set_title title) s.tabs) s)

-- `RenderEvent::TabCreated` for a tab that is there, and for one that is not.
unfoldable pub refresh_tab : List ℕ → List ℕ → TabInfo → TabInfo
refresh_tab title url t =
    let t' = if is_empty title then t else set_title title t in
    if is_empty url then t' else set_url url t'

unfoldable pub new_tab : ℕ → List ℕ → List ℕ → TabInfo
new_tab tab_id title url = record {
  id = tab_id;
  title = if is_empty title then bytes_of "New Tab" else title;
  url = url;
  is_loading = false;
  is_secure = is_https url;
}

unfoldable pub add_tab : ℕ → List ℕ → List ℕ → List TabInfo → List TabInfo
add_tab tab_id title url tabs = elim (find_tab tab_id tabs) [
  | some _ ↦ update_tab tab_id (refresh_tab title url) tabs
  | none ↦ tabs ++ (new_tab tab_id title url ∷ [])
]

unfoldable pub on_tab_created : ℕ → List ℕ → List ℕ → TabState → TabState
on_tab_created tab_id title url s =
    with_next_tab_id (max s.next_tab_id ((tab_id + 1) % 2 ^ 32))
      (with_tabs (add_tab tab_id title url s.tabs) s)

-- `if let Some(first) = self.tabs.first() { … }`.
unfoldable pub activate_first : List TabInfo → TabState → TabState
activate_first [] s = s
activate_first (first ∷ _) s = with_url_buf first.url (
    with_active first.id (lookup_key first.id s.tab_composites)
      (remove_key first.id s.tab_composites) s)

-- `RenderEvent::TabClosed`.
unfoldable pub on_tab_closed : ℕ → TabState → TabState
on_tab_closed tab_id s =
    let tabs = retain_tabs tab_id s.tabs in
    let s' =
      with_active s.active_tab_id s.active_buf (remove_key tab_id s.tab_composites)
        (with_tabs tabs s) in
    if s.active_tab_id == tab_id then activate_first tabs s' else s'

-- `if let Some(cur) = self.active_buf.take() { self.tab_composites.insert(self.active_tab_id, cur); }`.
unfoldable pub stored : TabState → List (ℕ × TabBuffer)
stored s = elim s.active_buf [
  | some cur ↦ insert_key s.active_tab_id cur s.tab_composites
  | none ↦ s.tab_composites
]

-- `if let Some(t) = self.tabs.iter().find(…) { … }` of `RenderEvent::TabActivated`.
unfoldable pub show_tab : Option TabInfo → TabState → TabState
show_tab none s = s
show_tab (some t) s = with_is_loading t.is_loading (if s.editing then s else with_url_buf t.url s)

-- `RenderEvent::TabActivated`.
unfoldable pub on_tab_activated : ℕ → TabState → TabState
on_tab_activated tab_id s =
    if s.active_tab_id == tab_id
    then s
    else show_tab (find_tab tab_id s.tabs)
        (with_active tab_id (lookup_key tab_id (stored s)) (remove_key tab_id (stored s)) s)

-- `RenderEvent::TabTitle` and `RenderEvent::TabUrl`.
unfoldable pub on_tab_title : ℕ → List ℕ → TabState → TabState
on_tab_title tab_id title s = with_tabs (update_tab tab_id (set_title title) s.tabs) s

unfoldable pub on_tab_url : ℕ → List ℕ → TabState → TabState
on_tab_url tab_id url s = elim (find_tab tab_id s.tabs) [
  | none ↦ s
  | some _ ↦
      let s' = with_tabs (update_tab tab_id (set_url url) s.tabs) s in
      if tab_id == s.active_tab_id && not s.editing then with_url_buf url s' else s'
]
