-- ===== src/Host/State.antt =====
-- gutted-host-rs/src/main.rs: `HostState`, its tabs and frames, and what it tells the engine and the
-- viewers. A `HashMap` is a list of keys with their values, and a `HashSet` a list of keys.
pub mod Keys
use exo_browser_core.Common.{
  ℕ, ◌%◌, ◌^◌, Bool, true, false, not, Option, none, some, List, [], ◌∷◌, ◌++◌, length, ◌==◌,
  if◌then◌else◌,
}
use exo_browser_core.Common.{ℤ}
use exo_browser_core.Message.Types.{Message}
use exo_browser_core.Host.Engine.{RunnerCall, Effect}

abbrev pub Table {ℓ} : Type ℓ → Type ℓ
Table A = List (ℕ × A)

module _ {ℓ} {A : Type ℓ} where
  unfoldable pub get : ℕ → Table A → Option A
  get k [] = none
  get k ((j, a) ∷ t) = let rest = get k t in if j == k then some a else rest

  unfoldable pub remove : ℕ → Table A → Table A
  remove k [] = []
  remove k ((j, a) ∷ t) = let rest = remove k t in if j == k then rest else (j, a) ∷ rest

  unfoldable pub insert : ℕ → A → Table A → Table A
  insert k a t = (k, a) ∷ remove k t

  -- `if let Some(x) = t.get_mut(&k) { .. }`.
  unfoldable pub update : ℕ → (A → A) → Table A → Table A
  update k f [] = []
  update k f ((j, a) ∷ t) =
      let rest = update k f t in if j == k then (j, f a) ∷ rest else (j, a) ∷ rest

unfoldable pub has : ℕ → List ℕ → Bool
has k [] = false
has k (j ∷ s) = let rest = has k s in if j == k then true else rest

unfoldable pub without : ℕ → List ℕ → List ℕ
without k [] = []
without k (j ∷ s) = let rest = without k s in if j == k then rest else j ∷ rest

-- `wpe::Frame`, with the address of its pixels. Its sizes are `i32` that are not negative.
pub record Frame : Type 0 where
  pub tab_id : ℕ
  pub width : ℕ
  pub height : ℕ
  pub stride : ℕ
  pub format : ℕ
  pub pixels : List ℕ
  pub at : ℕ

pub record TabEntry : Type 0 where
  pub url : List ℕ
  pub title : List ℕ

pub record HostState : Type 0 where
  pub tabs : Table TabEntry
  pub last_frames : Table Frame
  pub active_tab_id : ℕ
  pub viewport_w : ℕ
  pub viewport_h : ℕ

-- "New Tab".
abbrev pub new_tab_title : List ℕ
new_tab_title = 78 ∷ 101 ∷ 119 ∷ 32 ∷ 84 ∷ 97 ∷ 98 ∷ []

-- `HostState::new`, before the first event.
unfoldable pub start : List ℕ → HostState
start initial_url = record {
  tabs = (1, record { url = initial_url; title = new_tab_title }) ∷ [];
  last_frames = [];
  active_tab_id = 1;
  viewport_w = 1280;
  viewport_h = 648;
}

-- `Message::RawFrame` of a frame, with the compression that the source calls ZSTD.
unfoldable pub full_frame : ℕ → Frame → Message
full_frame ts_us f =
    Message.raw_frame ts_us (f.width % 2 ^ 16) (f.height % 2 ^ 16) (f.stride % 2 ^ 32) f.format 1
      f.pixels

-- `FrameBus::snapshot`, before the encoding.
unfoldable pub snapshot : ℕ → HostState → Option Message
snapshot ts_us s = elim (get s.active_tab_id s.last_frames) [
  | none ↦ none
  | some f ↦ some (full_frame ts_us f)
]

abbrev pub Step : Type 0
Step = HostState × List Effect

unfoldable pub switch_tab : ℕ → ℕ → HostState → Step
switch_tab ts_us tab_id s = (
  record s { active_tab_id = tab_id },
  elim (get tab_id s.tabs) [
    | none ↦ []
    | some tab ↦
        (elim (get tab_id s.last_frames) [
          | none ↦ []
          | some f ↦ Effect.publish (full_frame ts_us f) ∷ []
        ])
        ++ (Effect.publish (Message.title tab.title)
            ∷ Effect.publish (Message.url_changed tab.url)
            ∷ Effect.publish (Message.tab_activated tab_id)
            ∷ [])
  ],
)

unfoldable pub create_tab : ℕ → ℕ → List ℕ → Bool → HostState → Step
unfolding switch_tab
create_tab ts_us tab_id url make_active s =
    let s' = record s {
      tabs = insert tab_id (record { url = url; title = new_tab_title }) s.tabs;
    } in
    let called = Effect.call (RunnerCall.create_tab tab_id url) in
    let (switched, effects) = switch_tab ts_us tab_id s' in
    if make_active then (switched, called ∷ effects) else (s', called ∷ [])

unfoldable pub close_tab : ℕ → HostState → Step
close_tab tab_id s = (
  record s { tabs = remove tab_id s.tabs; last_frames = remove tab_id s.last_frames },
  Effect.call (RunnerCall.close_tab tab_id) ∷ [],
)

unfoldable pub resize_all : ℕ → ℕ → HostState → Step
resize_all w h s =
    (record s { viewport_w = w; viewport_h = h }, Effect.call (RunnerCall.resize_all w h) ∷ [])

-- `load_uri`, `inject_*`, `set_zoom`, `go_back`, `go_forward`, `reload`, `stop_loading`: a call for the
-- active tab.
abbrev pub on_active : (ℕ → RunnerCall) → HostState → Step
on_active f s = (s, Effect.call (f s.active_tab_id) ∷ [])

unfoldable pub current_url : HostState → List ℕ
current_url s = elim (get s.active_tab_id s.tabs) [ none ↦ [] | some t ↦ t.url ]
