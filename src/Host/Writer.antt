-- ===== src/Host/Writer.antt =====
-- gutted-host-rs/src/main.rs: the video writers of `handle_ctrl_stream` and `handle_tcp_connection`,
-- which leave out frames that a newer one replaces.
pub mod Same
use exo_browser_core.Common.{ℕ, ◌+◌, Bool, true, false, ◌&&◌, List, [], ◌∷◌, leb, if◌then◌else◌}
use exo_browser_core.Message.Types.{Message}

-- The match on `(&*item.msg, &*newer.msg)`: the item is left out.
unfoldable pub superseded : Message → Message → Bool
superseded (Message.raw_frame _ _ _ _ _ _ _) (Message.raw_frame _ _ _ _ _ _ _) = true
superseded (Message.subframe _ _ _ _ _ _ _ _ _) (Message.raw_frame _ _ _ _ _ _ _) = true
superseded (Message.subframe _ x1 y1 w1 h1 _ _ _ _) (Message.subframe _ x2 y2 w2 h2 _ _ _ _) =
    leb x2 x1 && leb y2 y1 && leb (x1 + w1) (x2 + w2) && leb (y1 + h1) (y2 + h2)
superseded _ _ = false

-- `while let Ok(newer) = stream_rx.try_recv()`: what is written of an item and the newer ones.
unfoldable pub written : Message → List Message → List Message
written item [] = item ∷ []
written item (newer ∷ queue) =
    let rest = written newer queue in if superseded item newer then rest else item ∷ rest
