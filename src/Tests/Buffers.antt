-- ===== src/Tests/Buffers.antt =====
-- gutted-proto/src/lib.rs: numbers, pixel filters and matches at concrete inputs.
use exo_browser_core.Common.{ℕ, List, ◌≡◌, [], ◌∷◌, some, arith}
use exo_browser_core.Wire.Result.{ok}
use exo_browser_core.Wire.Reader.{read_varint}
use exo_browser_core.Wire.Varint.{leb128, read_varint-leb128}
use exo_browser_core.Wire.Varint.Stream.{read_varint-Takes, Takes}
use exo_browser_core.Pixel.Filter.{spatial_filter_sub_into, spatial_unfilter_sub_in_place}
use exo_browser_core.Pixel.Filter.RoundTrip.{unfilter-filter, zero_tail}
use exo_browser_core.Pixel.Lz4.Decode.{copy_match, copy_bytes}
use exo_browser_core.Pixel.Lz4.Copy.{copy_match-copy_bytes}
use exo_browser_core.Pixel.Lz4.Decode.{lz4_decode}
use exo_browser_core.Pixel.Lz4.Encode.{lz4_encode_into}
use exo_browser_core.Pixel.Lz4.Literals.{lz4_decode-lz4_encode_short}
use exo_browser_core.Pixel.Lz4.Bounds.{Expected, lz4_decode-Expected}
use exo_browser_core.Pixel.Bytes.{half_up}
use exo_browser_core.Pixel.Scale.{downsample_2x2_bgra, upsample_2x2_bgra}
use exo_browser_core.Pixel.Scale.Total.{downsample-some, upsample-some}
use exo_browser_core.Common.{length, ◌*◌}

read_varint-leb128_example : read_varint (172 ∷ 2 ∷ 9 ∷ []) ≡ ok (300, 9 ∷ [])
unfolding leb128
read_varint-leb128_example = read_varint-leb128 300 (9 ∷ []) (omega arith)

read_varint-Takes_example : Takes 5 (172 ∷ 2 ∷ 9 ∷ []) 300 (9 ∷ [])
unfolding leb128
read_varint-Takes_example =
    read_varint-Takes (172 ∷ 2 ∷ 9 ∷ []) (read_varint-leb128 300 (9 ∷ []) (omega arith))

-- Two pixels and a byte behind them.
unfilter-filter_example :
    spatial_unfilter_sub_in_place
      (spatial_filter_sub_into (250 ∷ 2 ∷ 3 ∷ 4 ∷ 5 ∷ 1 ∷ 7 ∷ 8 ∷ 9 ∷ []) [])
    ≡ zero_tail (250 ∷ 2 ∷ 3 ∷ 4 ∷ 5 ∷ 1 ∷ 7 ∷ 8 ∷ 9 ∷ [])
unfilter-filter_example = unfilter-filter (250 ∷ 2 ∷ 3 ∷ 4 ∷ 5 ∷ 1 ∷ 7 ∷ 8 ∷ 9 ∷ []) (ground arith)

-- Seven bytes from two back.
copy_match-copy_bytes_example : copy_match 2 7 (1 ∷ 2 ∷ 3 ∷ []) ≡ copy_bytes 7 1 (1 ∷ 2 ∷ 3 ∷ [])
copy_match-copy_bytes_example =
    copy_match-copy_bytes 2 7 (1 ∷ 2 ∷ 3 ∷ []) (omega arith) (omega arith)

-- The block of "hi".
short_block : lz4_decode (lz4_encode_into (104 ∷ 105 ∷ []) []) (some 2) ≡ ok (104 ∷ 105 ∷ [])
short_block = lz4_decode-lz4_encode_short (104 ∷ 105 ∷ []) (omega arith)

lz4_decode-Expected_example : Expected (some 2) 2
lz4_decode-Expected_example =
    lz4_decode-Expected (lz4_encode_into (104 ∷ 105 ∷ []) []) (some 2) (104 ∷ 105 ∷ []) short_block

-- Two rows of one pixel.
downsample-some_example :
    (out : List ℕ) × (downsample_2x2_bgra (1 ∷ 2 ∷ 3 ∷ 4 ∷ 5 ∷ 6 ∷ 7 ∷ 8 ∷ []) 1 2 ≡ some out)
    × (length out ≡ half_up 2 * (half_up 1 * 4))
downsample-some_example = downsample-some (1 ∷ 2 ∷ 3 ∷ 4 ∷ 5 ∷ 6 ∷ 7 ∷ 8 ∷ []) 1 2 (omega arith)

upsample-some_example :
    (out : List ℕ) × (upsample_2x2_bgra (1 ∷ 2 ∷ 3 ∷ 4 ∷ []) 2 2 ≡ some out)
    × (length out ≡ 2 * 2 * 4)
upsample-some_example = upsample-some (1 ∷ 2 ∷ 3 ∷ 4 ∷ []) 2 2
