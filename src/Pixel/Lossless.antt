-- ===== src/Pixel/Lossless.antt =====
-- gutted-proto/src/lib.rs: the pixel payloads that `read_payload_geom` gives back unchanged.
use exo_browser_core.Common.{
  true, ℕ, ◌+◌, ◌*◌, ◌/◌, ◌≤◌, ◌≡◌, refl, ap, ◌∙◌, subst, false, none, some, List, [], length, All,
  ◌==◌, arith,
}
use exo_browser_core.Wire.Varint.{IsByte}
use exo_browser_core.Wire.RoundTrip.{Whole}
use exo_browser_core.Pixel.Filter.{spatial_filter_sub_into}
use exo_browser_core.Pixel.Filter.RoundTrip.{
  unfilter-filter, zero_tail-whole, spatial_filter-valid, length-spatial_filter,
}
use exo_browser_core.Pixel.Lz4.Encode.{lz4_encode_into}
use exo_browser_core.Pixel.Lz4.Decode.{unexpected, max_message_bytes}
use exo_browser_core.Pixel.Lz4.RoundTrip.{
  lz4_decode-lz4_encode_into, lz4_encode_into-append, lz4_encode_into-valid, length-lz4_encode_into,
}
use exo_browser_core.Pixel.Payload.{write_payload_geom, read_payload_geom, unpack_pixels}

-- Plain pixels of any number; those of one LZ4 pass up to 16 MiB; those of two passes are whole
-- pixels, and few enough for the result of the first pass to be within 16 MiB.
pub data LosslessMode : ℕ → List ℕ → Type 0 where
  plain : (pixels : List ℕ) → LosslessMode 0 pixels
  one_pass : (pixels : List ℕ) → length pixels ≤ max_message_bytes → LosslessMode 1 pixels
  two_passes :
      (pixels : List ℕ) (n : ℕ)
      → length pixels ≡ 4 * n
      → length pixels + length pixels / 255 + 6 ≤ max_message_bytes
      → LosslessMode 2 pixels

-- Pixels of the expected length in a mode that loses nothing.
pub record IsLossless (compression w h expected_len : ℕ) (pixels : List ℕ) : Type 0 where
  pub mode : LosslessMode compression pixels
  pub fits : length pixels ≡ expected_len
  pub bytes : All IsByte pixels

pub expects_own_length : (n : ℕ) → unexpected (some n) n ≡ false
unfolding unexpected
expects_own_length n = ground arith

module _ (w h : ℕ) where
  Whole-plain :
      (pixels : List ℕ)
      → Whole (write_payload_geom 0 w h pixels) (read_payload_geom 0 w h (length pixels)) pixels
  unfolding write_payload_geom read_payload_geom unpack_pixels
  Whole-plain pixels = record { bytes = pixels; writes = λ out. refl; reads = ground arith }

  Whole-one_pass :
      (pixels : List ℕ)
      → All IsByte pixels
      → length pixels ≤ max_message_bytes
      → Whole (write_payload_geom 1 w h pixels) (read_payload_geom 1 w h (length pixels)) pixels
  unfolding write_payload_geom read_payload_geom unpack_pixels
  Whole-one_pass pixels v small =
      let same : (length pixels == length pixels) ≡ true = ground arith in
      record {
        bytes = lz4_encode_into pixels [];
        writes = λ out. ap some (lz4_encode_into-append pixels out v (omega arith));
        reads =
            rw
              (
                lz4_decode-lz4_encode_into pixels (some (length pixels)) v small
                    (expects_own_length (length pixels)),
                same,
              )
              refl;
      }

  Whole-two_passes :
      (pixels : List ℕ) (n : ℕ)
      → All IsByte pixels
      → length pixels ≡ 4 * n
      → length pixels + length pixels / 255 + 6 ≤ max_message_bytes
      → Whole (write_payload_geom 2 w h pixels) (read_payload_geom 2 w h (length pixels)) pixels
  unfolding write_payload_geom read_payload_geom unpack_pixels unexpected
  Whole-two_passes pixels n v whole small =
      let filtered = spatial_filter_sub_into pixels [] in
      let filtered_v = spatial_filter-valid pixels v in
      let size = length-spatial_filter pixels in
      let stage1 = lz4_encode_into filtered [] in
      let stage1_v = lz4_encode_into-valid filtered filtered_v (omega (arith, size)) in
      let stage1_few : length stage1 ≤ max_message_bytes =
        (let few = length-lz4_encode_into filtered filtered_v (omega (arith, size)) in
          let few' = rw size at few in omega (arith, few')) in
      let first =
        lz4_decode-lz4_encode_into filtered (some (length filtered)) filtered_v
          (omega (arith, size)) (expects_own_length (length filtered)) in
      let first' = rw size at first in
      let second = lz4_decode-lz4_encode_into stage1 none stage1_v stage1_few refl in
      let restored = unfilter-filter pixels v ∙ zero_tail-whole n pixels whole in
      let same : (length pixels == length pixels) ≡ true = ground arith in
      record {
        bytes = lz4_encode_into stage1 [];
        writes = λ out. ap some (lz4_encode_into-append stage1 out stage1_v (omega arith));
        reads = rw (second, first', restored, same) refl;
      }

Whole-mode :
    (w h compression : ℕ) (pixels : List ℕ)
    → LosslessMode compression pixels
    → All IsByte pixels
    → Whole
        (write_payload_geom compression w h pixels)
        (read_payload_geom compression w h (length pixels))
        pixels
Whole-mode w h _ _ (LosslessMode.plain pixels) v = Whole-plain w h pixels
Whole-mode w h _ _ (LosslessMode.one_pass pixels small) v = Whole-one_pass w h pixels v small
Whole-mode w h _ _ (LosslessMode.two_passes pixels n whole small) v =
    Whole-two_passes w h pixels n v whole small

pub Whole-payload :
    (compression w h expected_len : ℕ) (pixels : List ℕ)
    → IsLossless compression w h expected_len pixels
    → Whole
        (write_payload_geom compression w h pixels)
        (read_payload_geom compression w h expected_len)
        pixels
Whole-payload compression w h expected_len pixels v =
    subst
      (λ n.
        Whole (write_payload_geom compression w h pixels) (read_payload_geom compression w h n)
          pixels)
      v.fits (Whole-mode w h compression pixels v.mode v.bytes)
