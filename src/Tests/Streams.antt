-- ===== src/Tests/Streams.antt =====
-- The theorems on the streams of gutted-host-rs/src/main.rs at concrete inputs.
use exo_browser_core.Common.{ℕ, ◌≡◌, List, [], ◌∷◌, ◌++◌, pos, arith}
use exo_browser_core.Message.Types.{Message}
use exo_browser_core.Client.Stream.{stop, next}
use exo_browser_core.Host.Engine.{Effect}
use exo_browser_core.Host.State.{start}
use exo_browser_core.Host.Dispatch.{Pointer}
use exo_browser_core.Host.Reader.{Next, read_next, ctrl_loop, tcp_loop, input_loop}
use exo_browser_core.Host.Reader.Chunks.{
  joined, arriving, read_next-message, ctrl_all, tcp_all, input_all, message_loop-Decodes,
}
use exo_browser_core.Tests.Frames.{stop_whole}

-- Two `STOP` messages, cut inside the second one.
abbrev chunks : List (List ℕ)
chunks = (7 ∷ 0 ∷ 7 ∷ []) ∷ [] ∷ (0 ∷ []) ∷ []

read_next-message_example :
    (cs' : List (List ℕ)) × (inbuf' : List ℕ) × (read_next (arriving chunks) []
      ≡ Next.message Message.stop inbuf' (arriving cs'))
    × (inbuf' ++ joined cs' ≡ 7 ∷ 0 ∷ [])
read_next-message_example =
    read_next-message chunks [] Message.stop (7 ∷ 0 ∷ []) (stop_whole (7 ∷ 0 ∷ []))

abbrev clock : ℕ → ℕ
clock n = n

abbrev stops : List Message
stops = Message.stop ∷ Message.stop ∷ []

abbrev at_corner : Pointer
at_corner = (pos 0, pos 0)

message_loop-Decodes_example :
    (ctrl_loop 3 clock (arriving chunks) [] (start [])
      ≡ ((ctrl_all 3 clock stops (start [])).0, (ctrl_all 3 clock stops (start [])).1, Next.ended))
    × (tcp_loop 3 clock (arriving chunks) [] (at_corner, start []) ≡ (
      (tcp_all 3 clock stops (at_corner, start [])).0,
      (tcp_all 3 clock stops (at_corner, start [])).1,
      Next.ended,
    ))
    × (input_loop 3 (arriving chunks) [] (at_corner, start []) ≡ (
      (input_all 3 stops (at_corner, start [])).0,
      (input_all 3 stops (at_corner, start [])).1,
      Next.ended,
    ))
message_loop-Decodes_example =
    message_loop-Decodes 3 clock chunks stops at_corner (start []) (omega arith)
      (next (stop_whole (7 ∷ 0 ∷ [])) (next (stop_whole []) (stop [])))

abbrev state_message : Message
state_message = Message.load_state 3

abbrev two_effects : List Effect
two_effects = Effect.publish state_message ∷ Effect.reply Message.stop ∷ []
