-- ===== src/Client/Hello.antt =====
-- gutted-client/src/render.rs: the handshake that `encode_hello` writes.
use exo_browser_core.Common.{ℕ, ◌≡◌, refl, List, ◌∷◌, ◌++◌, some, min, max, ◌-◌, arith}
use exo_browser_core.Wire.Result.{ok}
use exo_browser_core.Wire.Utf8.{valid_utf8}
use exo_browser_core.Wire.Writer.{
  ◌>>◌, write_u16, write_u32, write_bytes, write_str, write_varint, to_le_bytes,
}
use exo_browser_core.Message.Encode.{encode_payload}
use exo_browser_core.Message.Decode.Frame.{decode}
use exo_browser_core.Message.RoundTrip.Frame.{decode-encode}
use exo_browser_core.Client.Session.{hello_message, encode_hello, client_name, chrome_h}
use exo_browser_core.Client.Stream.{IsSendable}

-- The bytes of the handshake's payload.
hello_payload : ℕ × ℕ → List ℕ
hello_payload (w, h) =
    1
    ∷ 0
    ∷ 0
    ∷ 0
    ∷ (to_le_bytes 2 (min w 65535)
        ++ (to_le_bytes 2 (min (max (h - chrome_h) 1) 65535)
            ++ (100 ∷ 0 ∷ 21 ∷ 0 ∷ 0 ∷ 0 ∷ 29 ∷ client_name)))

hello_message-IsSendable : (w h : ℕ) → IsSendable (hello_message (w, h))
unfolding hello_message hello_payload valid_utf8 encode_payload ◌>>◌ write_u16 write_u32 write_bytes
    write_str write_varint to_le_bytes
hello_message-IsSendable w h = record {
  valid = (
    omega arith,
    omega arith,
    omega arith,
    omega arith,
    omega arith,
    record { utf8 = refl; short = omega arith },
  );
  payload = hello_payload (w, h);
  written = refl;
  fits = omega arith;
}

-- For every window size the handshake is written without a panic, and decodes to the hello message
-- of that size, whatever follows it.
pub decode-encode_hello :
    (w h : ℕ) (out : List ℕ)
    → (bytes : List ℕ) × (encode_hello (w, h) out ≡ some (out ++ bytes))
      × ((rest : List ℕ) → decode (bytes ++ rest) ≡ (ok (some (hello_message (w, h))), rest))
unfolding encode_hello
decode-encode_hello w h out =
    let s = hello_message-IsSendable w h in
    decode-encode (hello_message (w, h)) s.valid s.payload s.written s.fits out
