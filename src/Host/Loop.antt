-- ===== src/Host/Loop.antt =====
-- gutted-host-rs/src/main.rs: the event loop that `HostState::new` spawns.
pub mod Shown
pub mod InStep
pub mod Sync
use exo_browser_core.Common.{
  ℕ, ◌+◌, ◌*◌, ◌%◌, ◌^◌, Bool, true, false, ◌&&◌, ◌||◌, not, Option, none, some, List, [], ◌∷◌,
  ◌++◌, length, ltb, leb, ◌==◌, if◌then◌else◌,
}
use exo_browser_core.Message.Types.{Message, CursorShape}
use exo_browser_core.Pixel.Bytes.{◌>>=◌}
use exo_browser_core.Host.Engine.{Effect}
use exo_browser_core.Host.Diff.{Frames, Region, diff_regions, extract_subrect}
use exo_browser_core.Host.State.{
  Table, get, remove, insert, update, has, without, Frame, TabEntry, HostState, full_frame,
}

-- The loop's own `force_full` beside the shared state.
pub record LoopState : Type 0 where
  pub host : HostState
  pub force_full : List ℕ

abbrev pub Turn : Type 0
Turn = LoopState × List Effect

-- The compression of a region by its area: `LZ4_DELTA_Q2`, `ZSTD` or `ZSTD_DELTA`.
unfoldable pub compression_of : ℕ → ℕ
compression_of area = if leb 96000 area then 3 else if leb 32000 area then 1 else 2

-- The subframes of the regions; `none` where `extract_subrect` panics.
unfoldable pub sub_messages : ℕ → Frame → List Region → Option (List Message)
sub_messages ts_us f [] = some []
sub_messages ts_us f (r ∷ regions) = extract_subrect f.pixels f.stride r >>= λ sub.
    sub_messages ts_us f regions >>= λ rest. some (
      Message.subframe ts_us r.x r.y r.w r.h (r.w * 4) f.format (compression_of (r.w * r.h)) sub
      ∷ rest)

unfoldable pub total_px : List Region → ℕ
total_px [] = 0
total_px (r ∷ regions) = r.w * r.h + total_px regions

abbrev pub publish_all : List Message → List Effect
publish_all [] = []
publish_all (m ∷ ms) = Effect.publish m ∷ publish_all ms

-- What is published for a frame of the geometry of the one before.
unfoldable pub changed_messages : ℕ → Frame → Frame → Option (List Message)
changed_messages ts_us prev f =
    diff_regions (record {
      at_a = prev.at;
      at_b = f.at;
      a = prev.pixels;
      b = f.pixels;
      w = f.width;
      h = f.height;
      s = f.stride;
    })
    >>= λ regions.
        if leb (length regions) 0
        then some []
        else if leb (f.width * f.height * 8) (total_px regions * 10) || ltb 16 (length regions)
        then some (full_frame ts_us f ∷ [])
        else sub_messages ts_us f regions

abbrev pub same_size : Frame → Frame → Bool
same_size l f = l.width == f.width && l.height == f.height && l.stride == f.stride

-- What is published for a frame of the active tab, and the tab leaves `force_full`.
unfoldable pub active_messages : ℕ → Bool → Option Frame → Frame → Option (List Message)
active_messages ts_us must_full none f = some (full_frame ts_us f ∷ [])
active_messages ts_us must_full (some prev) f =
    if not must_full && same_size prev f
    then changed_messages ts_us prev f
    else some (full_frame ts_us f ∷ [])

-- One frame of a batch. Either way it becomes the tab's last frame.
unfoldable pub on_frame : ℕ → Frame → LoopState → Option Turn
on_frame ts_us f l =
    let host = record l.host {
      last_frames = insert f.tab_id f (remove f.tab_id l.host.last_frames);
    } in
    if l.host.active_tab_id == f.tab_id
    then (active_messages ts_us (has f.tab_id l.force_full) (get f.tab_id l.host.last_frames) f
        >>= λ messages. some (
          record { host = host; force_full = without f.tab_id l.force_full },
          publish_all messages,
        ))
    else some (record l { host = host }, [])

-- `batch.insert(newer.tab_id, newer)`: the last frame of each tab. The order of the tabs is that of
-- a hash map, which the source leaves open; here a newer frame goes first.
unfoldable pub batch_of : List Frame → Table Frame → Table Frame
batch_of [] batch = batch
batch_of (f ∷ fs) batch = batch_of fs (insert f.tab_id f batch)

unfoldable pub on_batch : ℕ → Table Frame → LoopState → Option Turn
on_batch ts_us [] l = some (l, [])
on_batch ts_us ((_, f) ∷ batch) l = on_frame ts_us f l >>= λ (l', effects).
    on_batch ts_us batch l' >>= λ (l'', more). some (l'', effects ++ more)

pub data LoadState : Type 0 where
  started : LoadState
  redirected : LoadState
  committed : LoadState
  finished : LoadState
  unknown : LoadState

unfoldable pub load_code : LoadState → ℕ
load_code LoadState.started = 0
load_code LoadState.redirected = 1
load_code LoadState.committed = 2
load_code LoadState.finished = 3
load_code LoadState.unknown = 255

unfoldable pub forces_full : LoadState → Bool
forces_full LoadState.started = true
forces_full LoadState.committed = true
forces_full _ = false

abbrev pub when_active : ℕ → HostState → Message → List Effect
when_active tab_id s m = if s.active_tab_id == tab_id then Effect.publish m ∷ [] else []

abbrev pub force : ℕ → List ℕ → List ℕ
force tab_id s = tab_id ∷ without tab_id s

unfoldable pub on_load : ℕ → LoadState → LoopState → Turn
on_load tab_id s l = (
  (if forces_full s then record { host = l.host; force_full = force tab_id l.force_full } else l),
  when_active tab_id l.host (Message.load_state (load_code s)),
)

unfoldable pub set_title : List ℕ → TabEntry → TabEntry
set_title title tab = record { url = tab.url; title = title }

unfoldable pub set_url : List ℕ → TabEntry → TabEntry
set_url url tab = record { url = url; title = tab.title }

unfoldable pub on_title : ℕ → List ℕ → LoopState → Turn
on_title tab_id text l = (
  record l { host = record l.host { tabs = update tab_id (set_title text) l.host.tabs } },
  Effect.publish (Message.tab_title tab_id text) ∷ when_active tab_id l.host (Message.title text),
)

unfoldable pub on_url : ℕ → List ℕ → LoopState → Turn
on_url tab_id new_url l = (
  record {
    host = record l.host { tabs = update tab_id (set_url new_url) l.host.tabs };
    force_full = force tab_id l.force_full;
  },
  Effect.publish (Message.tab_url tab_id new_url)
      ∷ when_active tab_id l.host (Message.url_changed new_url),
)

unfoldable pub cursor_shape : ℕ → CursorShape
cursor_shape shape_id =
    if shape_id == 1
    then CursorShape.pointer
    else if shape_id == 2
    then CursorShape.text
    else CursorShape.default

unfoldable pub on_cursor : ℕ → ℕ → LoopState → Turn
on_cursor tab_id shape_id l =
    (l, when_active tab_id l.host (Message.cursor_state (cursor_shape shape_id) 0 0 0))

-- What the `select!` of the loop receives.
pub data EngineEvent : Type 0 where
  frames : (ts_us : ℕ) (first_f : Frame) (newer : List Frame) → EngineEvent
  load : (tab_id : ℕ) (state : LoadState) → EngineEvent
  title : (tab_id : ℕ) (text : List ℕ) → EngineEvent
  url : (tab_id : ℕ) (new_url : List ℕ) → EngineEvent
  cursor : (tab_id shape_id : ℕ) → EngineEvent

-- A turn of the loop; `none` where it panics.
unfoldable pub on_event : EngineEvent → LoopState → Option Turn
on_event (EngineEvent.frames ts_us first_f newer) l =
    on_batch ts_us (batch_of (first_f ∷ newer) []) l
on_event (EngineEvent.load tab_id state) l = some (on_load tab_id state l)
on_event (EngineEvent.title tab_id text) l = some (on_title tab_id text l)
on_event (EngineEvent.url tab_id new_url) l = some (on_url tab_id new_url l)
on_event (EngineEvent.cursor tab_id shape_id) l = some (on_cursor tab_id shape_id l)
