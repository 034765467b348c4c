-- ===== src/Host/Bus/RoundTrip.antt =====
-- gutted-host-rs/src/main.rs: the bytes on the bus are the messages that were published.
use exo_browser_core.Common.{ℕ, List, [], ◌∷◌, ◌++◌}
use exo_browser_core.Message.Types.{Message}
use exo_browser_core.Host.Bus.{BusItem}

-- The bytes of the items, one behind the other, as a writer sends them.
abbrev pub wire : List BusItem → List ℕ
wire [] = []
wire (i ∷ items) = i.wire_quic ++ wire items
