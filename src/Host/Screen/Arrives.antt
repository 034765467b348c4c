-- ===== src/Host/Screen/Arrives.antt =====
-- gutted-host-rs/src/main.rs: the whole frames that the host publishes arrive at a viewer.
use exo_browser_core.Common.{
  ℕ, ◌+◌, ◌*◌, ◌/◌, ◌%◌, ◌^◌, ◌≤◌, ◌<◌, ◌≡◌, refl, sym, ap, ◌∙◌, some, List, [], append-nil, length,
  length-append, All, arith,
}
use native.Mathlib.Nat.{mul_comm}
use exo_browser_core.Wire.Result.{ok}
use exo_browser_core.Wire.Writer.{
  write_u8, write_u16, write_u32, write_u64, write_bytes, to_le_bytes, ◌>>◌,
}
use exo_browser_core.Wire.Varint.{IsByte}
use exo_browser_core.Wire.RoundTrip.{Whole}
use exo_browser_core.Pixel.Lz4.Encode.{lz4_encode_into}
use exo_browser_core.Pixel.Lz4.Decode.{max_message_bytes}
use exo_browser_core.Pixel.Lz4.RoundTrip.{lz4_encode_into-append, length-lz4_encode_into}
use exo_browser_core.Pixel.Payload.{write_payload_geom, saturating_mul}
use exo_browser_core.Pixel.Lossless.{LosslessMode}
use exo_browser_core.Message.Types.{Message}
use exo_browser_core.Message.Tag.{tag}
use exo_browser_core.Message.Encode.{encode, encode_payload}
use exo_browser_core.Message.Decode.Frame.{select, arms, decode}
use exo_browser_core.Message.RoundTrip.Payload.{Whole-message}
use exo_browser_core.Message.RoundTrip.Frame.{decode-encode_as}
use exo_browser_core.Host.State.{Frame, full_frame}
use exo_browser_core.Host.Screen.{taken, arrived}

-- A frame of the engine: `stride * height` bytes that hold whole rows, few enough for a message.
pub record IsFrame (f : Frame) : Type 0 where
  pub columns : 1 ≤ f.width
  pub narrow : f.width < 2 ^ 16
  pub low : f.height < 2 ^ 16
  pub stride_fits : f.stride < 2 ^ 32
  pub format_fits : f.format < 2 ^ 32
  pub wide : f.width * 4 ≤ f.stride
  pub exact : length f.pixels ≡ f.height * f.stride
  pub small : length f.pixels + length f.pixels / 255 + 64 ≤ max_message_bytes
  pub bytes : All IsByte f.pixels

pub arrived-as :
    (m m' : Message) (w : Whole (encode_payload m) (select (tag m) arms) m') (payload : List ℕ)
    → encode_payload m [] ≡ some payload
    → length payload ≤ max_message_bytes
    → arrived m ≡ some m'
unfolding arrived
arrived-as m m' w payload e h =
    let (bytes, wrote, reads) = decode-encode_as m m' w payload [] e h in
    let whole : decode bytes ≡ (ok (some m'), []) = ap decode (sym (append-nil bytes)) ∙ reads [] in
    let wrote' : encode m [] ≡ some bytes = wrote in
    let opened : arrived m ≡ taken (decode bytes) = rw wrote' refl in opened ∙ ap taken whole

-- The pixels stand behind a header of 21 or 25 bytes.
raw_frame_payload :
    (a b c d e f : ℕ) (pixels : List ℕ)
    → (header : List ℕ) × (encode_payload (Message.raw_frame a b c d e f pixels) []
        ≡ write_payload_geom f b c pixels header)
      × (length header ≡ 21)
unfolding encode_payload write_u64 write_u32 write_u16 write_u8 write_bytes to_le_bytes ◌>>◌
raw_frame_payload a b c d e f pixels = (_, refl, refl)

pub subframe_payload :
    (a b c d e f g h : ℕ) (pixels : List ℕ)
    → (header : List ℕ) × (encode_payload (Message.subframe a b c d e f g h pixels) []
        ≡ write_payload_geom h d e pixels header)
      × (length header ≡ 25)
unfolding encode_payload write_u64 write_u32 write_u16 write_u8 write_bytes to_le_bytes ◌>>◌
subframe_payload a b c d e f g h pixels = (_, refl, refl)

-- Bytes packed behind a header.
pub length-packed :
    (input header : List ℕ)
    → All IsByte input
    → length input ≤ max_message_bytes
    → length (lz4_encode_into input header) ≤ length header + length input + length input / 255 + 6
length-packed input header v h =
    let joined = ap length (lz4_encode_into-append input header v (omega arith)) in
    omega (
      arith,
      joined,
      length-append header (lz4_encode_into input []),
      length-lz4_encode_into input v (omega arith),
    )

-- A whole frame arrives as it is.
pub full_frame-arrived :
    (ts_us : ℕ) (f : Frame)
    → ts_us < 2 ^ 64
    → IsFrame f
    → arrived (full_frame ts_us f) ≡ some (full_frame ts_us f)
unfolding full_frame write_payload_geom
full_frame-arrived ts_us f t v =
    let st : f.stride % 2 ^ 32 ≡ f.stride = omega (arith, v.stride_fits) in
    let ht : f.height % 2 ^ 16 ≡ f.height = omega (arith, v.low) in
    let count : length f.pixels ≡ saturating_mul (f.stride % 2 ^ 32) (f.height % 2 ^ 16) =
      rw (st, ht) (omega (arith, v.exact, v.small, mul_comm f.stride f.height)) in
    let (header, wrote, n) =
      raw_frame_payload ts_us (f.width % 2 ^ 16) (f.height % 2 ^ 16) (f.stride % 2 ^ 32) f.format 1
        f.pixels in
    arrived-as (full_frame ts_us f) (full_frame ts_us f)
      (Whole-message (full_frame ts_us f) (
        t,
        omega arith,
        omega arith,
        omega arith,
        v.format_fits,
        omega arith,
        record {
          mode = LosslessMode.one_pass f.pixels (omega (arith, v.small));
          fits = count;
          bytes = v.bytes;
        },
      ))
      (lz4_encode_into f.pixels header) wrote
      (omega (arith, n, v.small, length-packed f.pixels header v.bytes (omega (arith, v.small))))
