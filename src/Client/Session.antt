-- ===== src/Client/Session.antt =====
-- gutted-client/src/render.rs: `BrowserCore::encode_hello`, `ingest_wire_bytes` and
-- `encode_outbound_messages`.
use exo_browser_core.Common.{
  ℕ, zero, suc, ◌+◌, ◌-◌, min, max, List, [], ◌∷◌, length, drop, none, some,
}
use exo_browser_core.Wire.Result.{Result, ok, err}
use exo_browser_core.Wire.Writer.{Writer, ◌>>◌, skip}
use exo_browser_core.Message.Types.{Message}
use exo_browser_core.Message.Encode.{encode}
use exo_browser_core.Message.Decode.Frame.{decode}
use exo_browser_core.Client.Events.{RenderEvent, InputEvent, from_proto_message, into_proto_message}
use Prim.Native.String.{String}
use Prim.Native.Char.{code}

-- `TAB_BAR_H + NAV_BAR_H + BOOKMARK_BAR_H`.
abbrev pub chrome_h : ℕ
chrome_h = 32 + 38 + 26

-- The bytes of an ASCII text.
abbrev pub bytes_of : String → List ℕ
bytes_of String.[] = []
bytes_of (String.◌∷◌ c s) = code c ∷ bytes_of s

abbrev pub client_name : List ℕ
client_name = bytes_of "gutted-client-pure-rust-nostd"

-- `H264 | OPUS | CLIENT_SCROLL`.
abbrev pub client_caps : ℕ
client_caps = 1 + 4 + 16

unfoldable pub hello_message : ℕ × ℕ → Message
hello_message (w, h) =
    Message.hello 1 (min w 65535) (min (max (h - chrome_h) 1) 65535) 100 client_name client_caps

unfoldable pub encode_hello : ℕ × ℕ → Writer
encode_hello win_size = encode (hello_message win_size)

-- `for ev in self.outbound_inputs.drain(..)`.
unfoldable pub encode_outbound_messages : ℕ → List InputEvent → Writer
encode_outbound_messages ts_us [] = skip
encode_outbound_messages ts_us (ev ∷ evs) =
    encode (into_proto_message ev ts_us) >> encode_outbound_messages ts_us evs

-- On an error the function returns before `inbuf.drain(..consumed)`.
unfoldable pub drained : {S : Type 0} → List ℕ → Result ℕ × List ℕ × S → Result ℕ × List ℕ × S
drained inbuf (err e, cur, core) = (err e, inbuf, core)
drained inbuf (ok count, cur, core) = (ok count, drop (length inbuf - length cur) inbuf, core)

-- `self.handle_render_event` changes a state that stays abstract here.
module _ {S : Type 0} (handle_render_event : S → RenderEvent → S) where
  -- `if let Some(rev) = from_proto_message(msg) { self.handle_render_event(rev); }`.
  unfoldable pub apply_message : S → Message → S
  apply_message core msg = elim (from_proto_message msg) [
    | none ↦ core
    | some rev ↦ handle_render_event core rev
  ]

  -- `while let Some(msg) = Message::decode(&mut cur)? { … }`; the second part is what `cur` is left
  -- at. A message takes bytes off `cur`, so `length cur` rounds are enough.
  unfoldable pub ingest_loop : ℕ → List ℕ → ℕ → S → Result ℕ × List ℕ × S
  ingest_loop zero cur count core = (ok count, cur, core)
  ingest_loop (suc fuel) cur count core =
      let (r, cur') = decode cur in
      elim r [
        | err e ↦ (err e, cur', core)
        | ok got ↦ elim got [
          | none ↦ (ok count, cur', core)
          | some msg ↦ ingest_loop fuel cur' (count + 1) (apply_message core msg)
        ]
      ]

  unfoldable pub ingest_wire_bytes : S → List ℕ → Result ℕ × List ℕ × S
  ingest_wire_bytes core inbuf = drained inbuf (ingest_loop (length inbuf) inbuf 0 core)
