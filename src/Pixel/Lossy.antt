-- ===== src/Pixel/Lossy.antt =====
-- gutted-proto/src/lib.rs: the pixel payloads of half resolution.
use exo_browser_core.Common.{
  ℕ, ◌*◌, ◌≤◌, ◌≡◌, refl, ap, ◌∙◌, some, List, [], length, All, ◌==◌, true, arith,
}
use exo_browser_core.Wire.Result.{ok}
use exo_browser_core.Wire.Varint.{IsByte}
use exo_browser_core.Wire.RoundTrip.{Whole}
use exo_browser_core.Pixel.Bytes.{half_up}
use exo_browser_core.Pixel.Filter.{spatial_filter_sub_into}
use exo_browser_core.Pixel.Filter.RoundTrip.{
  unfilter-filter, zero_tail-whole, spatial_filter-valid, length-spatial_filter,
}
use exo_browser_core.Pixel.Scale.Total.{downsample-some, upsample-some, rows_of_pixels}
use exo_browser_core.Pixel.Scale.Bytes.{downsample-valid}
use exo_browser_core.Pixel.Lz4.Encode.{lz4_encode_into}
use exo_browser_core.Pixel.Lz4.Decode.{max_message_bytes}
use exo_browser_core.Pixel.Lz4.RoundTrip.{lz4_decode-lz4_encode_into, lz4_encode_into-append}
use exo_browser_core.Pixel.Lossless.{expects_own_length}
use exo_browser_core.Pixel.Payload.{
  write_payload_geom, read_payload_geom, unpack_pixels, upsampled, saturating_mul,
}

-- What comes back of a picture in half resolution: another picture of its size. The payload is at
-- most as long as the packed half.
pub record Halved (w h expected_len : ℕ) (pixels : List ℕ) : Type 0 where
  pub got : List ℕ
  pub size : length got ≡ w * h * 4
  pub whole : Whole (write_payload_geom 3 w h pixels) (read_payload_geom 3 w h expected_len) got
  pub packed : List ℕ
  pub writes :
      (out : List ℕ) → write_payload_geom 3 w h pixels out ≡ some (lz4_encode_into packed out)
  pub bytes : All IsByte packed
  pub half : length packed ≡ half_up h * (half_up w * 4)

pub halve :
    (w h expected_len : ℕ) (pixels : List ℕ)
    → expected_len ≡ w * h * 4
    → h * (w * 4) ≤ length pixels
    → half_up h * (half_up w * 4) ≤ max_message_bytes
    → Halved w h expected_len pixels
unfolding write_payload_geom read_payload_geom unpack_pixels upsampled
halve w h expected_len pixels expects full small =
    let (down, e, size) = downsample-some pixels w h full in
    let valid = downsample-valid pixels w h down e in
    let filtered = spatial_filter_sub_into down [] in
    let same = length-spatial_filter down in
    let filtered_v = spatial_filter-valid down valid in
    let restored =
      unfilter-filter down valid
      ∙ zero_tail-whole (half_up h * half_up w) down (size ∙ grind arith) in
    let qlen : saturating_mul (saturating_mul (half_up w) (half_up h)) 4 ≡ length filtered =
      quarter_size w h (length filtered) (same ∙ size) small in
    let unpacked =
      lz4_decode-lz4_encode_into filtered (some (length filtered)) filtered_v
        (omega (arith, same, size)) (expects_own_length (length filtered)) in
    let (got, up, len) = upsample-some down w h in
    let as_expected : (length got == expected_len) ≡ true = ground (arith, len, expects) in
    let doubled : upsampled down w h ≡ ok got = rw (upsampled, up) refl in
    record {
      got = got;
      size = len;
      whole = record {
        bytes = lz4_encode_into filtered [];
        writes = λ out.
            rw e (
              ap some (lz4_encode_into-append filtered out filtered_v (omega (arith, same, size))));
        reads = rw (qlen, unpacked, restored, doubled, as_expected) refl;
      };
      packed = filtered;
      writes = λ out. rw e refl;
      bytes = filtered_v;
      half = same ∙ size;
    }
  where
    quarter_size :
        (w h n : ℕ)
        → n ≡ half_up h * (half_up w * 4)
        → half_up h * (half_up w * 4) ≤ max_message_bytes
        → saturating_mul (saturating_mul (half_up w) (half_up h)) 4 ≡ n
    quarter_size w h n e small =
        let turned : half_up h * (half_up w * 4) ≡ half_up w * half_up h * 4 =
          rows_of_pixels (half_up w) (half_up h) in
        omega (arith, turned)
