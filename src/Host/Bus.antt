-- ===== src/Host/Bus.antt =====
-- gutted-host-rs/src/main.rs: `BusItem` and `FrameBus`, which encodes a message once for all viewers.
pub mod RoundTrip
use exo_browser_core.Common.{ℕ, Option, none, some, List, [], ◌∷◌, ◌++◌, ◌==◌, if◌then◌else◌}
use exo_browser_core.Message.Types.{Message}
use exo_browser_core.Message.Encode.{encode}
use exo_browser_core.Pixel.Bytes.{◌>>=◌}
use exo_browser_core.Host.Engine.{Effect}
use exo_browser_core.Host.State.{HostState, snapshot}

pub record BusItem : Type 0 where
  pub msg : Message
  pub wire_quic : List ℕ

-- `none` where the encoding panics.
unfoldable pub encode_item : Message → Option BusItem
encode_item m = encode m [] >>= λ buf. some (record { msg = m; wire_quic = buf })

-- The items that each of the receivers of the channel gets: none without a receiver.
unfoldable pub publish : ℕ → Message → Option (List BusItem)
publish receiver_count m =
    let sent = encode_item m >>= λ item. some (item ∷ []) in
    if receiver_count == 0 then some [] else sent

-- What the effects of a turn put on the channel.
unfoldable pub publish_effects : ℕ → List Effect → Option (List BusItem)
publish_effects receiver_count [] = some []
publish_effects receiver_count (Effect.publish m ∷ effects) = publish receiver_count m >>= λ items.
    publish_effects receiver_count effects >>= λ rest. some (items ++ rest)
publish_effects receiver_count (_ ∷ effects) = publish_effects receiver_count effects

-- `FrameBus::snapshot`, which a new viewer gets first.
unfoldable pub snapshot_item : ℕ → HostState → Option (Option BusItem)
snapshot_item ts_us s = elim (snapshot ts_us s) [
  | none ↦ some none
  | some m ↦ encode_item m >>= λ item. some (some item)
]
