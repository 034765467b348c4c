-- ===== src/Client/Stream.antt =====
-- gutted-client/src/render.rs: streams of frames through `encode_outbound_messages` and
-- `ingest_wire_bytes`.
use exo_browser_core.Common.{
  ℕ, ◌≤◌, ◌≡◌, sym, ap, ◌∙◌, List, [], ◌∷◌, ◌++◌, append_assoc, append-nil, length, some, All,
}
use mathlib.Core.List.{map}
use exo_browser_core.Wire.Result.{ok}
use exo_browser_core.Wire.Writer.{skip}
use exo_browser_core.Wire.RoundTrip.{>>-some}
use exo_browser_core.Pixel.Lz4.Decode.{max_message_bytes}
use exo_browser_core.Message.Types.{Message}
use exo_browser_core.Message.Valid.{IsValid}
use exo_browser_core.Message.Encode.{encode_payload, encode}
use exo_browser_core.Message.Decode.Frame.{decode}
use exo_browser_core.Message.RoundTrip.Frame.{decode-encode}
use exo_browser_core.Client.Events.{InputEvent, into_proto_message}
use exo_browser_core.Client.Session.{encode_outbound_messages}

-- A message that may be sent: its fields are in range, and its payload is within the limit.
pub record IsSendable (m : Message) : Type 0 where
  pub valid : IsValid m
  pub payload : List ℕ
  pub written : encode_payload m [] ≡ some payload
  pub fits : length payload ≤ max_message_bytes

-- `buf` starts with the frames of these messages, and `rest` follows them.
pub data Decodes : List ℕ → List Message → List ℕ → Type 0 where
  stop : (buf : List ℕ) → Decodes buf [] buf
  next :
      {buf : List ℕ} {m : Message} {buf' : List ℕ} {ms : List Message} {rest : List ℕ}
      → decode buf ≡ (ok (some m), buf')
      → Decodes buf' ms rest
      → Decodes buf (m ∷ ms) rest

-- The queued events leave as frames that decode, in order, to their messages, whatever follows.
pub encode_outbound-Decodes :
    (ts_us : ℕ) (evs : List InputEvent)
    → All (λ ev. IsSendable (into_proto_message ev ts_us)) evs
    → (out : List ℕ)
    → (bytes : List ℕ) × (encode_outbound_messages ts_us evs out ≡ some (out ++ bytes))
      × ((rest : List ℕ)
          → Decodes (bytes ++ rest) (map (λ ev. into_proto_message ev ts_us) evs) rest)
unfolding encode_outbound_messages skip
encode_outbound-Decodes ts_us [] h out = ([], ap some (sym (append-nil out)), λ rest. stop rest)
encode_outbound-Decodes ts_us (ev ∷ evs) h out =
    let s = h.0 in
    let (first, wrote, reads) =
      decode-encode (into_proto_message ev ts_us) s.valid s.payload s.written s.fits out in
    let (more, wrote', reads') = encode_outbound-Decodes ts_us evs h.1 (out ++ first) in
    (
      first ++ more,
      >>-some (encode (into_proto_message ev ts_us)) (encode_outbound_messages ts_us evs) wrote
          ∙ wrote'
          ∙ ap some (append_assoc out first more),
      λ rest. next (ap decode (append_assoc first more rest) ∙ reads (more ++ rest)) (reads' rest),
    )
