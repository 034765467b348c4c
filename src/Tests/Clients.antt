-- ===== src/Tests/Clients.antt =====
-- gutted-client/src/render.rs: the clock, the queue of events and the input buffer at concrete
-- inputs.
use exo_browser_core.Common.{ℕ, ◌+◌, ◌≡◌, ◌≢◌, refl, List, [], ◌∷◌, ◌++◌, some, All, arith}
use mathlib.Core.List.{map}
use exo_browser_core.Wire.Result.{ok, err, unknown_tag}
use exo_browser_core.Message.Decode.Session.{read_load_state}
use exo_browser_core.Wire.Utf8.{valid_utf8}
use exo_browser_core.Wire.Varint.{leb128}
use exo_browser_core.Wire.Writer.{
  ◌>>◌, write_u32, write_bytes, write_str, write_varint, to_le_bytes,
}
use exo_browser_core.Wire.Reader.{ret, ◌>>=◌, read_u8}
use exo_browser_core.Message.Types.{Message}
use exo_browser_core.Message.Tag.{tag_load_state}
use exo_browser_core.Message.Encode.{encode_payload}
use exo_browser_core.Message.Decode.Frame.{decode, deliver, decode_payload, select, finish, arms}
use exo_browser_core.Message.RoundTrip.Frame.{frame, decode-frame}
use exo_browser_core.Message.Framing.Partial.{decode-partial}
use exo_browser_core.Message.Framing.Refusals.{decode-unknown_tag}
use exo_browser_core.Client.Clock.{
  AvClock, schedule_video, schedule_video-verdict, current_master_pts_us, verdict,
}
use exo_browser_core.Client.Events.{InputEvent, RenderEvent, into_proto_message}
use exo_browser_core.Client.Hello.{decode-encode_hello}
use exo_browser_core.Client.Session.{
  encode_hello, hello_message, encode_outbound_messages, ingest_wire_bytes,
}
use exo_browser_core.Client.Stream.{IsSendable, Decodes, stop, next, encode_outbound-Decodes}
use exo_browser_core.Client.Ingest.{ingest-Decodes, ingest-error, apply_all}

-- A clock that started at 1 s and has run for 20 ms; the picture is 60 ms behind it.
abbrev clock : AvClock
clock = record { master_audio_pts = 1000000; last_audio_tick = some 500 }

schedule_video-verdict_example :
    schedule_video clock 20500 960000 ≡ verdict (current_master_pts_us clock 20500) 960000
unfolding current_master_pts_us
schedule_video-verdict_example =
    schedule_video-verdict clock 20500 960000 (omega arith) (omega arith)

-- Counts the events it gets.
abbrev counted : ℕ → RenderEvent → ℕ
counted n ev = n + 1

-- The new tab 3 at "hi", then a zoom of 150 %.
abbrev queued : List InputEvent
queued = InputEvent.create_tab 3 (104 ∷ 105 ∷ []) ∷ InputEvent.set_zoom 1500 ∷ []

queued-IsSendable : All (λ ev. IsSendable (into_proto_message ev 77)) queued
unfolding valid_utf8 into_proto_message encode_payload ◌>>◌ write_u32 write_bytes write_str
    write_varint to_le_bytes
queued-IsSendable = (
  record {
    valid = (omega arith, record { utf8 = refl; short = omega arith });
    payload = 3 ∷ 0 ∷ 0 ∷ 0 ∷ 2 ∷ 104 ∷ 105 ∷ [];
    written = refl;
    fits = omega arith;
  },
  (
    record {
      valid = omega arith;
      payload = 220 ∷ 5 ∷ 0 ∷ 0 ∷ [];
      written = refl;
      fits = omega arith;
    },
    tt,
  ),
)

encode_outbound-Decodes_example :
    (bytes : List ℕ) × (encode_outbound_messages 77 queued [] ≡ some ([] ++ bytes))
    × ((rest : List ℕ) → Decodes (bytes ++ rest) (map (λ ev. into_proto_message ev 77) queued) rest)
encode_outbound-Decodes_example = encode_outbound-Decodes 77 queued queued-IsSendable []

-- The frame of the load state 1.
loading :
    (rest : List ℕ)
    → decode (frame tag_load_state (1 ∷ []) ++ rest) ≡ (ok (some (Message.load_state 1)), rest)
unfolding deliver decode_payload select finish read_load_state read_u8 ◌>>=◌ ret
loading rest = decode-frame tag_load_state (1 ∷ []) rest (omega arith) (omega arith)

one_loading :
    (rest : List ℕ)
    → Decodes (frame tag_load_state (1 ∷ []) ++ rest) (Message.load_state 1 ∷ []) rest
one_loading rest = next (loading rest) (stop rest)

six_of_frame : frame 6 (1 ∷ 2 ∷ 3 ∷ []) ≡ (6 ∷ 3 ∷ []) ++ (1 ∷ 2 ∷ 3 ∷ [])
unfolding leb128
six_of_frame = refl

ingest-Decodes_example :
    ingest_wire_bytes counted 0 (frame tag_load_state (1 ∷ []) ++ (6 ∷ 3 ∷ []))
    ≡ (ok 1, 6 ∷ 3 ∷ [], apply_all counted 0 (Message.load_state 1 ∷ []))
ingest-Decodes_example = ingest-Decodes counted 0 (one_loading (6 ∷ 3 ∷ [])) (
    decode-partial 6 (1 ∷ 2 ∷ 3 ∷ []) (omega arith) (omega arith) 1 (6 ∷ 3 ∷ []) (2 ∷ 3 ∷ [])
      six_of_frame)

unknown_tag_999 : All (λ a. 999 ≢ a.0) arms
unknown_tag_999 = ground arith

ingest-error_example :
    ingest_wire_bytes counted 0 (frame tag_load_state (1 ∷ []) ++ (frame 999 [] ++ [])) ≡ (
      err (unknown_tag 999),
      frame tag_load_state (1 ∷ []) ++ (frame 999 [] ++ []),
      apply_all counted 0 (Message.load_state 1 ∷ []),
    )
ingest-error_example =
    ingest-error counted 0 (unknown_tag 999) (one_loading (frame 999 [] ++ []))
      (decode-unknown_tag 999 [] [] (omega arith) (omega arith) unknown_tag_999)

decode-encode_hello_example :
    (bytes : List ℕ) × (encode_hello (1280, 720) [] ≡ some ([] ++ bytes))
    × ((rest : List ℕ) → decode (bytes ++ rest) ≡ (ok (some (hello_message (1280, 720))), rest))
decode-encode_hello_example = decode-encode_hello 1280 720 []
