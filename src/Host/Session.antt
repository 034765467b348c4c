-- ===== src/Host/Session.antt =====
-- gutted-host-rs/src/main.rs: the event loop and the clients' handlers in any order, on the state
-- that they share.
pub mod Sync
use exo_browser_core.Common.{ℕ, Option, none, some, List, [], ◌∷◌, ◌++◌}
use exo_browser_core.Message.Types.{Message}
use exo_browser_core.Pixel.Bytes.{◌>>=◌}
use exo_browser_core.Host.Engine.{Effect}
use exo_browser_core.Host.State.{HostState, start}
use exo_browser_core.Host.Loop.{LoopState, EngineEvent, on_event}
use exo_browser_core.Host.Dispatch.{on_ctrl}

-- One of the tasks takes its turn: the event loop, or the control stream of some client.
pub data HostStep : Type 0 where
  engine : EngineEvent → HostStep
  client : (ts_us : ℕ) (m : Message) → HostStep

unfoldable pub step : HostStep → LoopState → Option (LoopState × List Effect)
step (HostStep.engine event) l = on_event event l
step (HostStep.client ts_us m) l =
    let (host, effects) = on_ctrl ts_us m l.host in some (record l { host = host }, effects)

-- The turns one after the other; `none` where one panics.
unfoldable pub run : List HostStep → LoopState → Option (LoopState × List Effect)
run [] l = some (l, [])
run (t ∷ ts) l =
    step t l >>= λ (l', effects). run ts l' >>= λ (l'', more). some (l'', effects ++ more)
