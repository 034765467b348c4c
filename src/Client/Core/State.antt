-- ===== src/Client/Core/State.antt =====
-- gutted-client/src/render.rs: the fields of `BrowserCore` that `handle_render_event` reads or
-- writes, grouped by what they are for. A `BTreeMap` is an association list.
use exo_browser_core.Common.{ℕ, ◌==◌, Bool, Option, none, some, List, [], ◌∷◌, if◌then◌else◌}
use exo_browser_core.Message.Types.{CursorShape}
use exo_browser_core.Client.Events.{GfxFrame, GfxSubframe}
use exo_browser_core.Client.Clock.{AvClock}

pub record TabInfo : Type 0 where
  pub id : ℕ
  pub title : List ℕ
  pub url : List ℕ
  pub is_loading : Bool
  pub is_secure : Bool

pub record TabBuffer : Type 0 where
  pub w : ℕ
  pub h : ℕ
  pub pixels : List ℕ

pub record DamageRect : Type 0 where
  pub x : ℕ
  pub y : ℕ
  pub w : ℕ
  pub h : ℕ

-- The tabs and what the navigation bar shows of them.
pub record TabState : Type 0 where
  pub tabs : List TabInfo
  pub active_tab_id : ℕ
  pub next_tab_id : ℕ
  pub active_buf : Option TabBuffer
  pub tab_composites : List (ℕ × TabBuffer)
  pub url_buf : List ℕ
  pub editing : Bool
  pub is_loading : Bool
  pub window_title : List ℕ

-- What waits for the next picture.
pub record Pending : Type 0 where
  pub tile_cache : List (ℕ × List ℕ)
  pub pending_damage : List DamageRect
  pub pending_frames : List GfxFrame
  pub pending_subframes : List GfxSubframe
  pub pending_tiles : List (ℕ × ℕ × ℕ)
  pub frames_seen : ℕ

pub record Sound : Type 0 where
  pub audio_playing_frames_left : ℕ
  pub av_clock : AvClock

pub record BrowserCore : Type 0 where
  pub tab_state : TabState
  pub pending : Pending
  pub sound : Sound
  pub cursor_shape : CursorShape
  pub chrome_dirty : Bool
  pub full_content_dirty : Bool

-- `remove`, `insert`, `contains_key` and `get` of a `BTreeMap`.
unfoldable pub remove_key : {A : Type 0} → ℕ → List (ℕ × A) → List (ℕ × A)
remove_key k [] = []
remove_key k ((k', a) ∷ rest) =
    let kept = remove_key k rest in if k' == k then kept else (k', a) ∷ kept

unfoldable pub insert_key : {A : Type 0} → ℕ → A → List (ℕ × A) → List (ℕ × A)
insert_key k a m = (k, a) ∷ remove_key k m

unfoldable pub lookup_key : {A : Type 0} → ℕ → List (ℕ × A) → Option A
lookup_key k [] = none
lookup_key k ((k', a) ∷ rest) = let found = lookup_key k rest in if k' == k then some a else found
