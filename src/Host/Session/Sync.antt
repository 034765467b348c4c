-- ===== src/Host/Session/Sync.antt =====
-- gutted-host-rs/src/main.rs: a viewer of the bus sees the active tab, whatever the order of turns.
use exo_browser_core.Common.{◌<◌, ◌^◌, ◌≡◌, Option, none, some, List, [], ◌∷◌}
use exo_browser_core.Message.Types.{Message}
use exo_browser_core.Host.Engine.{Effect}
use exo_browser_core.Host.Screen.{Screen, show}
use exo_browser_core.Host.Loop.{LoopState}
use exo_browser_core.Host.Loop.Sync.{IsEvent}
use exo_browser_core.Host.Dispatch.Keeps.{IsKnown}
use exo_browser_core.Host.Session.{HostStep, step}

-- The frames of the engine are whole, and clients switch to tabs that the host has.
abbrev pub IsStep : HostStep → LoopState → Type 0
IsStep (HostStep.engine event) l = IsEvent event
IsStep (HostStep.client ts_us m) l = (ts_us < 2 ^ 64) × IsKnown m l.host

-- Each turn is such a step in the state that the turns before it leave.
abbrev pub AreSteps : List HostStep → LoopState → Type 0
AreSteps [] l = Unit {0}
AreSteps (t ∷ ts) l =
    IsStep t l
    × ((l' : LoopState) (effects : List Effect) → step t l ≡ some (l', effects) → AreSteps ts l')

abbrev pub from_snapshot : Option Message → Screen → Screen
from_snapshot none s = s
from_snapshot (some m) s = show m s
