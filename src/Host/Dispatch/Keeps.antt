-- ===== src/Host/Dispatch/Keeps.antt =====
-- gutted-host-rs/src/main.rs: what clients ask for keeps the viewers in step.
use exo_browser_core.Common.{◌≡◌, Option, none, some, arith}
use exo_browser_core.Message.Types.{Message}
use exo_browser_core.Host.State.{TabEntry, HostState, Step, get, switch_tab}
use exo_browser_core.Host.Screen.{Screen, show_all}
use exo_browser_core.Host.Loop.InStep.{published, InSync}

pub not_some : {A : Type 0} (a : A) (o : Option A) → o ≡ none → o ≡ some a → ⊥
not_some a none e h = ground arith
not_some a (some b) e h = ground arith

-- The tab that becomes active is one that the host has.
abbrev pub IsKnown : Message → HostState → Type 0
IsKnown (Message.switch_tab tab_id) s = (tab : TabEntry) × (get tab_id s.tabs ≡ some tab)
IsKnown _ s = Unit {0}

abbrev Keeps : Step → Screen → Type 0
Keeps step screen = InSync step.0 (show_all (published step.1) screen)
