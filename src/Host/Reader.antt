-- ===== src/Host/Reader.antt =====
-- gutted-host-rs/src/main.rs: `read_next`, `read_next_tcp` and the message loops of
-- `handle_ctrl_stream`, `handle_tcp_connection` and `handle_input_stream`.
pub mod Chunks
use exo_browser_core.Common.{
  ℕ, zero, suc, ◌+◌, ◌-◌, Option, none, some, List, [], ◌∷◌, ◌++◌, length, drop, leb, if◌then◌else◌,
}
use exo_browser_core.Wire.Result.{Error, Result, ok, err}
use exo_browser_core.Message.Types.{Message}
use exo_browser_core.Message.Decode.Frame.{decode}
use exo_browser_core.Host.Engine.{Effect}
use exo_browser_core.Host.State.{HostState, Step}
use exo_browser_core.Host.Dispatch.{Pointer, on_ctrl, on_tcp, on_input}

-- What `recv.read(chunk)` gives: bytes, the end of the stream, the loss of the connection
-- (`ConnectionLost`, `ConnectionReset`), or another error.
pub data Arrival : Type 0 where
  bytes : List ℕ → Arrival
  closed : Arrival
  lost : Arrival
  failed : Arrival

-- What a call comes to; it waits when nothing more arrives.
pub data Next : Type 0 where
  message : (m : Message) (inbuf : List ℕ) (later : List Arrival) → Next
  ended : Next
  waiting : (inbuf : List ℕ) → Next
  decode_error : Error → Next
  mid_frame : (left : ℕ) → Next
  read_error : Next

unfoldable pub on_decoded : List ℕ → List Arrival → Next → Result (Option Message) × List ℕ → Next
on_decoded inbuf arrivals read (ok (some m), cur) =
    Next.message m (drop (length inbuf - length cur) inbuf) arrivals
on_decoded inbuf arrivals read (ok none, _) = read
on_decoded inbuf arrivals read (err e, _) = Next.decode_error e

unfoldable pub read_next : List Arrival → List ℕ → Next
read_next [] inbuf = on_decoded inbuf [] (Next.waiting inbuf) (decode inbuf)
read_next (Arrival.bytes chunk ∷ later) inbuf =
    on_decoded inbuf (Arrival.bytes chunk ∷ later) (read_next later (inbuf ++ chunk)) (decode inbuf)
read_next (Arrival.closed ∷ later) inbuf =
    on_decoded inbuf (Arrival.closed ∷ later)
      (if leb (length inbuf) 0 then Next.ended else Next.mid_frame (length inbuf)) (decode inbuf)
read_next (Arrival.lost ∷ later) inbuf =
    on_decoded inbuf (Arrival.lost ∷ later)
      (if leb (length inbuf) 0 then Next.ended else Next.read_error) (decode inbuf)
read_next (Arrival.failed ∷ later) inbuf =
    on_decoded inbuf (Arrival.failed ∷ later) Next.read_error (decode inbuf)

-- `while let Some(msg) = read_next(..).await?`, with the time of each message; the result is the
-- state, what was done, and how the loop ended. The fuel counts the messages.
unfoldable pub message_loop :
    {S : Type 0}
    → (ℕ → Message → S → S × List Effect)
    → ℕ
    → (ℕ → ℕ)
    → List Arrival
    → List ℕ
    → S
    → S × List Effect × Next
message_loop handle zero clock arrivals inbuf s = (s, [], Next.waiting inbuf)
message_loop handle (suc fuel) clock arrivals inbuf s = elim (read_next arrivals inbuf) [
  | Next.message m inbuf' later ↦
      let (s', effects) = handle (clock fuel) m s in
      let (s'', more, end) = message_loop handle fuel clock later inbuf' s' in
      (s'', effects ++ more, end)
  | end ↦ (s, [], end)
]

-- The loop of `handle_ctrl_stream`.
unfoldable pub ctrl_loop :
    ℕ → (ℕ → ℕ) → List Arrival → List ℕ → HostState → HostState × List Effect × Next
ctrl_loop = message_loop on_ctrl

-- A message of the TCP connection, with the last pointer beside the host.
abbrev pub tcp_turn : ℕ → Message → Pointer × HostState → (Pointer × HostState) × List Effect
tcp_turn ts_us m (last, s) =
    let (last', (s', effects)) = on_tcp ts_us m last s in ((last', s'), effects)

-- The loop of `handle_tcp_connection`, behind the handshake.
unfoldable pub tcp_loop :
    ℕ
    → (ℕ → ℕ)
    → List Arrival
    → List ℕ
    → Pointer × HostState
    → (Pointer × HostState) × List Effect × Next
tcp_loop = message_loop tcp_turn

abbrev pub input_turn : ℕ → Message → Pointer × HostState → (Pointer × HostState) × List Effect
input_turn ts_us m (last, s) =
    let (last', (s', effects)) = on_input m last s in ((last', s'), effects)

-- `handle_input_stream` does not ask whether the stream ended between two frames.
unfoldable pub input_end : Next → Next
input_end (Next.mid_frame left) = Next.ended
input_end end = end

-- The loop of `handle_input_stream`, which does not look at the time.
unfoldable pub input_loop :
    ℕ → List Arrival → List ℕ → Pointer × HostState → (Pointer × HostState) × List Effect × Next
input_loop fuel arrivals inbuf start =
    let (after, effects, end) = message_loop input_turn fuel (λ _. 0) arrivals inbuf start in
    (after, effects, input_end end)
