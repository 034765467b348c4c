-- ===== src/Tests/Frames.antt =====
-- gutted-proto/src/lib.rs: `encode` and `decode` on concrete frames.
use exo_browser_core.Common.{
  length-append, ◌*◌, suc, ℕ, length-replicate, zero, suc, ◌≡◌, ◌≢◌, refl, List, [], ◌∷◌, ◌++◌,
  length, none, some, All, arith, replicate,
}
use exo_browser_core.Wire.Reader.{ret}
use exo_browser_core.Wire.Result.{message_too_large, ok, err, trailing_bytes}
use exo_browser_core.Wire.Writer.{
  write_u8, write_u16, write_u32, write_u64, write_str, write_varint, write_bytes, to_le_bytes,
  ◌>>◌,
}
use exo_browser_core.Wire.Varint.{leb128, IsByte}
use exo_browser_core.Pixel.Payload.{write_payload_geom}
use exo_browser_core.Message.Types.{Message}
use exo_browser_core.Message.Valid.{IsValid}
use exo_browser_core.Message.Encode.{encode_payload, encode}
use exo_browser_core.Message.Decode.Frame.{finish, select, decode_payload, deliver, decode, arms}
use exo_browser_core.Message.Decode.Session.{read_stop}
use exo_browser_core.Message.RoundTrip.Frame.{decode-encode_too_large, frame, decode-frame}
use exo_browser_core.Message.Framing.Partial.{decode-partial}
use exo_browser_core.Message.Framing.Append.{decode-append}
use exo_browser_core.Message.Framing.Progress.{decode-Consumes, Consumes}
use exo_browser_core.Message.Framing.Refusals.{decode-trailing_bytes}
use exo_browser_core.Pixel.Lossless.{LosslessMode}

-- A new address in tab 300.
abbrev pub tab_message : Message
tab_message = Message.tab_url 300 (104 ∷ 105 ∷ [])

abbrev pub tab_payload : List ℕ
tab_payload = 44 ∷ 1 ∷ 0 ∷ 0 ∷ 2 ∷ 104 ∷ 105 ∷ []

pub tab_message-IsValid : IsValid tab_message
unfolding exo_browser_core.Wire.Utf8.valid_utf8
tab_message-IsValid = (omega arith, record { utf8 = refl; short = omega arith })

pub tab_written : encode_payload tab_message [] ≡ some tab_payload
unfolding encode_payload ◌>>◌ write_u32 write_bytes write_str write_varint to_le_bytes
tab_written = refl

-- Two pixels, as they are.
abbrev pixel_message : Message
pixel_message = Message.subframe 7 1 2 2 1 8 0 0 (1 ∷ 2 ∷ 3 ∷ 4 ∷ 5 ∷ 6 ∷ 7 ∷ 8 ∷ [])

abbrev pixel_payload : List ℕ
pixel_payload =
    7 ∷ 0 ∷ 0 ∷ 0 ∷ 0 ∷ 0 ∷ 0 ∷ 0 ∷ 1 ∷ 0 ∷ 2 ∷ 0 ∷ 2 ∷ 0 ∷ 1 ∷ 0 ∷ 8 ∷ 0 ∷ 0 ∷ 0 ∷ 0 ∷ 0 ∷ 0 ∷ 0
    ∷ 0 ∷ 1 ∷ 2 ∷ 3 ∷ 4 ∷ 5 ∷ 6 ∷ 7 ∷ 8 ∷ []

whole_heartbeat : frame 6 (1 ∷ 2 ∷ 3 ∷ []) ≡ (6 ∷ 3 ∷ []) ++ (1 ∷ 2 ∷ 3 ∷ [])
unfolding leb128
whole_heartbeat = refl

-- Two bytes of a heartbeat's frame with tag 6.
decode-partial_example : decode (6 ∷ 3 ∷ []) ≡ (ok none, 6 ∷ 3 ∷ [])
decode-partial_example =
    decode-partial 6 (1 ∷ 2 ∷ 3 ∷ []) (omega arith) (omega arith) 1 (6 ∷ 3 ∷ []) (2 ∷ 3 ∷ [])
      whole_heartbeat

unknown_tag_999 : All (λ a. 999 ≢ a.0) arms
unknown_tag_999 = ground arith

decode-trailing_bytes_example :
    decode (frame 0x77 (tab_payload ++ (1 ∷ [])) ++ (5 ∷ []))
    ≡ (err trailing_bytes, frame 0x77 (tab_payload ++ (1 ∷ [])) ++ (5 ∷ []))
unfolding exo_browser_core.Message.RoundTrip.Payload.has_pixels exo_browser_core.Message.Tag.tag
decode-trailing_bytes_example =
    decode-trailing_bytes tab_message tab_message-IsValid refl tab_payload tab_written 1 [] (5 ∷ [])
      (omega arith)

pub stop_whole : (rest : List ℕ) → decode (7 ∷ 0 ∷ rest) ≡ (ok (some Message.stop), rest)
unfolding leb128 deliver decode_payload select finish read_stop ret
stop_whole rest = decode-frame 7 [] rest (omega arith) (omega arith)

not_none : (decode (7 ∷ 0 ∷ [])).0 ≢ ok none
not_none e = ground (arith, e, stop_whole [])

decode-append_example :
    decode ((7 ∷ 0 ∷ []) ++ (1 ∷ []))
    ≡ ((decode (7 ∷ 0 ∷ [])).0, (decode (7 ∷ 0 ∷ [])).1 ++ (1 ∷ []))
decode-append_example = decode-append (7 ∷ 0 ∷ []) (1 ∷ []) not_none

-- A frame of 2560 by 1640 uncompressed pixels.
abbrev large_message : List ℕ → Message
large_message pixels = Message.raw_frame 0 2560 1640 10240 0 0 pixels

replicate-IsByte : (n : ℕ) → All IsByte (replicate n 0)
replicate-IsByte zero = omega arith
replicate-IsByte (suc n) = (omega arith, replicate-IsByte n)

abbrev large_head : List ℕ
large_head =
    0 ∷ 0 ∷ 0 ∷ 0 ∷ 0 ∷ 0 ∷ 0 ∷ 0 ∷ 0 ∷ 10 ∷ 104 ∷ 6 ∷ 0 ∷ 40 ∷ 0 ∷ 0 ∷ 0 ∷ 0 ∷ 0 ∷ 0 ∷ 0 ∷ []

large_written :
    (pixels : List ℕ) → encode_payload (large_message pixels) [] ≡ some (large_head ++ pixels)
unfolding encode_payload ◌>>◌ write_u8 write_u16 write_u32 write_u64 write_bytes to_le_bytes
    write_payload_geom
large_written pixels = refl

large_message-IsValid :
    (pixels : List ℕ)
    → length pixels ≡ 10240 * 1640
    → All IsByte pixels
    → IsValid (large_message pixels)
large_message-IsValid pixels h b = (
  omega arith,
  omega arith,
  omega arith,
  omega arith,
  omega arith,
  omega arith,
  record { mode = LosslessMode.plain pixels; fits = h; bytes = b },
)

decode-Consumes_example : Consumes (26 ∷ 0 ∷ 7 ∷ []) (decode (26 ∷ 0 ∷ 7 ∷ []))
decode-Consumes_example = decode-Consumes (26 ∷ 0 ∷ 7 ∷ [])

unfoldable large_pixels : List ℕ
large_pixels = replicate 16793600 0

large_length : length large_pixels ≡ 16793600
unfolding large_pixels
large_length = length-replicate {A = ℕ} 16793600 0

large_bytes : All IsByte large_pixels
unfolding large_pixels
large_bytes = replicate-IsByte 16793600

large_size : length (large_head ++ large_pixels) ≡ 16793621
large_size = omega (arith, length-append large_head large_pixels, large_length)

decode-encode_too_large_example :
    (bytes : List ℕ) × (encode (large_message large_pixels) [] ≡ some ([] ++ bytes))
    × (decode (bytes ++ []) ≡ (err message_too_large, bytes ++ []))
decode-encode_too_large_example =
    decode-encode_too_large (large_message large_pixels)
      (large_message-IsValid large_pixels large_length large_bytes) (large_head ++ large_pixels)
      (large_written large_pixels) (omega (arith, large_size)) (omega (arith, large_size)) [] []
