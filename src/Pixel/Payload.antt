-- ===== src/Pixel/Payload.antt =====
-- gutted-proto/src/lib.rs: `write_payload_geom` and `read_payload_geom`.
use exo_browser_core.Common.{
  ℕ, ◌-◌, ◌*◌, ◌^◌, min, none, some, List, [], ◌++◌, length, ◌==◌, if◌then◌else◌,
}
use exo_browser_core.Wire.Result.{Result, ok, err, try, invalid_value}
use exo_browser_core.Wire.Writer.{Writer}
use exo_browser_core.Wire.Reader.{Reader}
use exo_browser_core.Pixel.Bytes.{half_up, ◌>>=◌}
use exo_browser_core.Pixel.Filter.{spatial_filter_sub_into, spatial_unfilter_sub_in_place}
use exo_browser_core.Pixel.Scale.{downsample_2x2_bgra, upsample_2x2_bgra}
use exo_browser_core.Pixel.Lz4.Encode.{lz4_encode_into}
use exo_browser_core.Pixel.Lz4.Decode.{lz4_decode}

unfoldable pub write_payload_geom : ℕ → ℕ → ℕ → List ℕ → Writer
write_payload_geom compression w h pixels out =
    if compression == 0
    then some (out ++ pixels)
    else if compression == 1
    then some (lz4_encode_into pixels out)
    else if compression == 2
    then some (lz4_encode_into (lz4_encode_into (spatial_filter_sub_into pixels []) []) out)
    else if compression == 3
    then (downsample_2x2_bgra pixels w h >>= λ down.
        some (lz4_encode_into (spatial_filter_sub_into down []) out))
    else none

-- `a.saturating_mul(b)` of a 64-bit `usize`.
abbrev pub saturating_mul : ℕ → ℕ → ℕ
saturating_mul a b = min (a * b) (2 ^ 64 - 1)

-- A panic of the upsampling has no counterpart in the result type (see Scale/Total).
unfoldable pub upsampled : List ℕ → ℕ → ℕ → Result (List ℕ)
upsampled qbuf w h = elim (upsample_2x2_bgra qbuf w h) [ none ↦ err invalid_value | some p ↦ ok p ]

-- The pixels of a payload by its compression.
unfoldable pub unpack_pixels : ℕ → ℕ → ℕ → ℕ → List ℕ → Result (List ℕ)
unpack_pixels compression w h expected_len wire =
    if compression == 0
    then ok wire
    else if compression == 1
    then lz4_decode wire (some expected_len)
    else if compression == 2
    then try (lz4_decode wire none) (λ stage1.
      try (lz4_decode stage1 (some expected_len)) (λ out. ok (spatial_unfilter_sub_in_place out)))
    else if compression == 3
    then (let qlen = saturating_mul (saturating_mul (half_up w) (half_up h)) 4 in
        try (lz4_decode wire (some qlen))
          λ qbuf. upsampled (spatial_unfilter_sub_in_place qbuf) w h)
    else err invalid_value

-- `*p = &[]`: the payload is the whole rest of the message.
unfoldable pub read_payload_geom : ℕ → ℕ → ℕ → ℕ → Reader (List ℕ)
read_payload_geom compression w h expected_len wire =
    try (unpack_pixels compression w h expected_len wire)
      λ pixels. if length pixels == expected_len then ok (pixels, []) else err invalid_value
