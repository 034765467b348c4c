-- ===== src/Client/Core/Wire.antt =====
-- gutted-client/src/render.rs: `ingest_wire_bytes` on a `BrowserCore`, whatever the bytes are.
use exo_browser_core.Common.{ℕ, ◌+◌, zero, suc, Option, none, some, List, length}
use exo_browser_core.Wire.Result.{Result, ok, err}
use exo_browser_core.Message.Types.{Message}
use exo_browser_core.Message.Decode.Frame.{decode}
use exo_browser_core.Client.Events.{RenderEvent, from_proto_message}
use exo_browser_core.Client.Session.{apply_message, ingest_loop, drained, ingest_wire_bytes}
use exo_browser_core.Client.Core.State.{BrowserCore}
use exo_browser_core.Client.Core.Handle.{handle_render_event}
use exo_browser_core.Client.Core.Unique.{IsTabState, handle_render_event-Apart}

-- The handler that `ingest_wire_bytes` calls; it does not look at the result.
unfoldable pub handled : ℕ → BrowserCore → RenderEvent → BrowserCore
handled now core ev = (handle_render_event now core ev).0

module _ {S : Type 0} (handle : S → RenderEvent → S) (P : S → Type 0)
    (kept : (s : S) (ev : RenderEvent) → P s → P (handle s ev)) where
  apply_message-kept : (core : S) (msg : Message) → P core → P (apply_message handle core msg)
  unfolding apply_message
  apply_message-kept core msg h = by_event (from_proto_message msg)
    where
      by_event : (o : Option RenderEvent) → P (elim o [ none ↦ core | some rev ↦ handle core rev ])
      by_event none = h
      by_event (some rev) = kept core rev h

  ingest_loop-kept :
      (fuel : ℕ) (cur : List ℕ) (count : ℕ) (core : S)
      → P core
      → P (ingest_loop handle fuel cur count core).2
  unfolding ingest_loop
  ingest_loop-kept zero cur count core h = h
  ingest_loop-kept (suc fuel) cur count core h =
      by_decode (λ cur' s k. ingest_loop-kept fuel cur' (count + 1) s k) (decode cur)
    where
      by_decode :
          ((cur' : List ℕ) (s : S) → P s → P (ingest_loop handle fuel cur' (count + 1) s).2)
          → (d : Result (Option Message) × List ℕ)
          → (let r : Result ℕ × List ℕ × S = elim d.0 [
            | err e ↦ (err e, d.1, core)
            | ok got ↦ elim got [
              | none ↦ (ok count, d.1, core)
              | some msg ↦ ingest_loop handle fuel d.1 (count + 1) (apply_message handle core msg)
            ]
          ] in
              P r.2)
      by_decode more (err e, cur') = h
      by_decode more (ok none, cur') = h
      by_decode more (ok (some msg), cur') = more cur' _ (apply_message-kept core msg h)

  drained-kept : (inbuf : List ℕ) (r : Result ℕ × List ℕ × S) → P r.2 → P (drained inbuf r).2
  unfolding drained
  drained-kept inbuf (err e, cur, core) h = h
  drained-kept inbuf (ok count, cur, core) h = h

  -- What every event keeps, the ingestion of every buffer keeps.
  pub ingest_wire_bytes-kept :
      (core : S) (inbuf : List ℕ) → P core → P (ingest_wire_bytes handle core inbuf).2
  unfolding ingest_wire_bytes
  ingest_wire_bytes-kept core inbuf h =
      drained-kept inbuf (ingest_loop handle (length inbuf) inbuf 0 core)
        (ingest_loop-kept (length inbuf) inbuf 0 core h)

-- Whatever bytes arrive, and with an error among them too, `ingest_wire_bytes` leaves tabs with
-- pairwise distinct ids so.
pub ingest_wire_bytes-Apart :
    (now : ℕ) (core : BrowserCore) (inbuf : List ℕ)
    → IsTabState core
    → IsTabState (ingest_wire_bytes (handled now) core inbuf).2
unfolding handled
ingest_wire_bytes-Apart now core inbuf h =
    ingest_wire_bytes-kept (handled now) IsTabState (λ s ev k. handle_render_event-Apart now s ev k)
      core inbuf h
