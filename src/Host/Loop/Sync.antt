-- ===== src/Host/Loop/Sync.antt =====
-- gutted-host-rs/src/main.rs: viewers stay in step with the last frame of the active tab.
pub mod Batch
use exo_browser_core.Common.{
  ◌<◌, ◌^◌, ℕ, ◌≡◌, ◌≢◌, refl, sym, ap, ◌∙◌, Bool, ◌&&◌, not, Option, none, some, List, [], ◌∷◌,
  ◌++◌, All, ==_iff, ◌==◌, Bool-cases, inl, inr, arith, subst, not_both,
}
use exo_browser_core.Message.Types.{Message}
use exo_browser_core.Host.Engine.{Effect}
use exo_browser_core.Host.State.{Table, Frame, full_frame, get, remove, insert, has, without}
use exo_browser_core.Host.State.Keys.{get-remove_other, get-insert, get-insert_other}
use exo_browser_core.Host.Screen.{Screen, show, show_all}
use exo_browser_core.Host.Loop.{
  LoopState, publish_all, same_size, active_messages, on_frame, on_batch, batch_of, EngineEvent,
  on_event, on_load, on_title, on_url, on_cursor, when_active, forces_full, LoadState, load_code,
  cursor_shape,
}
use exo_browser_core.Host.Screen.Arrives.{IsFrame}
use exo_browser_core.Host.Loop.InStep.{
  published, InSync, published-publish_all, published-append, show_all-append, some_is,
  quiet-InSync, when_active-quiet,
}
use exo_browser_core.Host.Loop.Sync.Batch.{Kept, AllFrames, on_batch-InSync, batch_of-All}

-- The frames of an event are whole, and its time is a `u64`.
abbrev pub IsEvent : EngineEvent → Type 0
IsEvent (EngineEvent.frames ts_us first_f newer) =
    (ts_us < 2 ^ 64) × IsFrame first_f × All IsFrame newer
IsEvent _ = Unit {0}

on_load_host :
    (tab_id : ℕ) (state : LoadState) (l : LoopState)
    → ((on_load tab_id state l).0.host.last_frames ≡ l.host.last_frames)
      × ((on_load tab_id state l).0.host.active_tab_id ≡ l.host.active_tab_id)
unfolding on_load
on_load_host tab_id state l = elim (Bool-cases (forces_full state)) [
  | inl e ↦ rw e (refl, refl)
  | inr e ↦ rw e (refl, refl)
]

-- A turn that at most tells the viewers something that is not a picture.
quiet_turn :
    (tab_id : ℕ) (m : Message) (l l' : LoopState) (effects : List Effect) (s : Screen)
    → l'.host.last_frames ≡ l.host.last_frames
    → l'.host.active_tab_id ≡ l.host.active_tab_id
    → show m s ≡ s
    → show_all (published effects) s ≡ show_all (published (when_active tab_id l.host m)) s
    → InSync l.host s
    → Kept s (some (l', effects))
quiet_turn tab_id m l l' effects s frames active quiet same h = (
  l',
  effects,
  refl,
  quiet-InSync l.host l'.host (published effects) s frames active
      (same ∙ when_active-quiet tab_id l.host m s quiet) h,
)

-- When every frame of the event is whole, a turn of the event loop does not panic, and a viewer that
-- is in step with the host, every last frame of which is whole, is in step with it again once it has
-- shown what the turn publishes.
pub on_event-InSync :
    (event : EngineEvent) (l : LoopState) (s : Screen)
    → IsEvent event
    → InSync l.host s
    → (l' : LoopState) × (effects : List Effect) × (on_event event l ≡ some (l', effects))
      × InSync l'.host (show_all (published effects) s)
unfolding on_event on_load on_title on_url on_cursor published show_all show
on_event-InSync (EngineEvent.frames ts_us first_f newer) l s v h =
    on_batch-InSync ts_us (batch_of (first_f ∷ newer) []) l s v.0
      (batch_of-All (first_f ∷ newer) [] (v.1, v.2) tt) h
on_event-InSync (EngineEvent.load tab_id state) l s v h =
    quiet_turn tab_id (Message.load_state (load_code state)) l _ _ s (on_load_host tab_id state l).0
      (on_load_host tab_id state l).1 refl refl h
on_event-InSync (EngineEvent.title tab_id text) l s v h =
    quiet_turn tab_id (Message.title text) l _ _ s refl refl refl refl h
on_event-InSync (EngineEvent.url tab_id new_url) l s v h =
    quiet_turn tab_id (Message.url_changed new_url) l _ _ s refl refl refl refl h
on_event-InSync (EngineEvent.cursor tab_id shape_id) l s v h =
    quiet_turn tab_id (Message.cursor_state (cursor_shape shape_id) 0 0 0) l _ _ s refl refl refl
      refl h
