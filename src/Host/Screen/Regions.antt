-- ===== src/Host/Screen/Regions.antt =====
-- gutted-host-rs/src/main.rs: the subframes that the host publishes arrive at a viewer, in each of the
-- three modes that the area of a region asks for.
use exo_browser_core.Common.{
  ℕ, ◌+◌, ◌*◌, ◌^◌, ◌≤◌, ◌<◌, ◌≡◌, refl, sym, ◌∙◌, some, List, [], length, All, leb, ◌==◌, true,
  Bool-cases, ◌⊎◌, inl, inr, arith,
}
use native.Mathlib.Nat.{mul_comm, mul-le-mul_right}
use exo_browser_core.Wire.Varint.{IsByte}
use exo_browser_core.Wire.RoundTrip.{Whole}
use exo_browser_core.Pixel.Bytes.{half_up}
use exo_browser_core.Pixel.Lz4.Encode.{lz4_encode_into}
use exo_browser_core.Pixel.Lz4.Decode.{max_message_bytes}
use exo_browser_core.Pixel.Lz4.RoundTrip.{lz4_encode_into-valid, length-lz4_encode_into}
use exo_browser_core.Pixel.Filter.{spatial_filter_sub_into}
use exo_browser_core.Pixel.Filter.RoundTrip.{spatial_filter-valid, length-spatial_filter}
use exo_browser_core.Pixel.Scale.Total.{rows_of_pixels}
use exo_browser_core.Pixel.Payload.{write_payload_geom, read_payload_geom, saturating_mul}
use exo_browser_core.Pixel.Lossless.{LosslessMode, Whole-payload}
use exo_browser_core.Pixel.Lossy.{halve}
use exo_browser_core.Message.Types.{Message}
use exo_browser_core.Message.Encode.{encode_payload}
use exo_browser_core.Message.RoundTrip.Payload.{Whole-subframe}
use exo_browser_core.Host.Diff.{Region}
use exo_browser_core.Host.State.{Frame}
use exo_browser_core.Host.Loop.{compression_of}
use exo_browser_core.Host.Screen.{arrived}
use exo_browser_core.Host.Screen.Arrives.{IsFrame, arrived-as, subframe_payload, length-packed}

mul_mono : (a b c d : ℕ) → a ≤ b → c ≤ d → a * c ≤ b * d
mul_mono a b c d h k = omega (
  arith,
  mul-le-mul_right {m = a} {n = b} c h,
  mul-le-mul_right {m = c} {n = d} b k,
  mul_comm c b,
  mul_comm d b,
)

-- What arrives of the pixels of a region: they themselves, or a picture of their size in half
-- resolution.
abbrev Comes : List ℕ → Region → List ℕ → Type 0
Comes cut r got =
    (got ≡ cut) ⊎ (((compression_of (r.w * r.h) == 3) ≡ true) × (length got ≡ r.h * (r.w * 4)))

module _ (ts_us : ℕ) (f : Frame) (r : Region) (cut : List ℕ) (t : ts_us < 2 ^ 64) (v : IsFrame f)
    (across : r.x + r.w ≤ f.width) (down : r.y + r.h ≤ f.height)
    (size : length cut ≡ r.h * (r.w * 4)) (bytes : All IsByte cut) where
  abbrev message : ℕ → List ℕ → Message
  message compression pixels =
      Message.subframe ts_us r.x r.y r.w r.h (r.w * 4) f.format compression pixels

  within_frame : length cut ≤ length f.pixels
  within_frame = omega (
    arith,
    size,
    v.exact,
    mul_mono r.h f.height (r.w * 4) f.stride (omega arith) (omega (arith, v.wide)),
  )

  expected : saturating_mul (r.w * 4) r.h ≡ length cut
  expected = omega (arith, size, mul_comm (r.w * 4) r.h, within_frame, v.small)

  -- Any payload of a subframe that is read back.
  sub_arrives :
      (compression : ℕ) (got payload : List ℕ)
      → Whole
          (write_payload_geom compression r.w r.h cut)
          (read_payload_geom compression r.w r.h (saturating_mul (r.w * 4) r.h))
          got
      → encode_payload (message compression cut) [] ≡ some payload
      → length payload ≤ max_message_bytes
      → arrived (message compression cut) ≡ some (message compression got)
  sub_arrives compression got payload w =
      arrived-as (message compression cut) (message compression got)
        (Whole-subframe ts_us r.x r.y r.w r.h (r.w * 4) f.format compression cut got t
          (omega (arith, v.narrow)) (omega (arith, v.low)) (omega (arith, v.narrow))
          (omega (arith, v.low)) (omega (arith, v.narrow)) v.format_fits w)
        payload

  lossless_arrives :
      (compression : ℕ) (payload : List ℕ)
      → LosslessMode compression cut
      → encode_payload (message compression cut) [] ≡ some payload
      → length payload ≤ max_message_bytes
      → arrived (message compression cut) ≡ some (message compression cut)
  lossless_arrives compression payload mode = sub_arrives compression cut payload (
      Whole-payload compression r.w r.h (saturating_mul (r.w * 4) r.h) cut
        (record { mode = mode; fits = sym expected; bytes = bytes }))

  packed_once : arrived (message 1 cut) ≡ some (message 1 cut)
  unfolding write_payload_geom
  packed_once =
      let (header, wrote, n) = subframe_payload ts_us r.x r.y r.w r.h (r.w * 4) f.format 1 cut in
      lossless_arrives 1 (lz4_encode_into cut header)
        (LosslessMode.one_pass cut (omega (arith, within_frame, v.small))) wrote
        (omega (
          arith,
          n,
          v.small,
          within_frame,
          length-packed cut header bytes (omega (arith, within_frame, v.small)),
        ))

  packed_twice : r.w * r.h < 32000 → arrived (message 2 cut) ≡ some (message 2 cut)
  unfolding write_payload_geom
  packed_twice few =
      let (header, wrote, n) = subframe_payload ts_us r.x r.y r.w r.h (r.w * 4) f.format 2 cut in
      let area = size ∙ rows_of_pixels r.w r.h in
      let filtered = spatial_filter_sub_into cut [] in
      let filtered_v = spatial_filter-valid cut bytes in
      let same = length-spatial_filter cut in
      let once = lz4_encode_into filtered [] in
      let once_v = lz4_encode_into-valid filtered filtered_v (omega (arith, same, area)) in
      let once_n = length-lz4_encode_into filtered filtered_v (omega (arith, same, area)) in
      lossless_arrives 2 (lz4_encode_into once header)
        (LosslessMode.two_passes cut (r.w * r.h) (omega (arith, area)) (omega (arith, area))) wrote
        (omega (
          arith,
          n,
          same,
          area,
          once_n,
          length-packed once header once_v (omega (arith, same, area, once_n)),
        ))

  packed_half :
      (got : List ℕ) × (arrived (message 3 cut) ≡ some (message 3 got))
      × (length got ≡ r.h * (r.w * 4))
  packed_half =
      let (header, wrote, n) = subframe_payload ts_us r.x r.y r.w r.h (r.w * 4) f.format 3 cut in
      let less =
        mul_mono (half_up r.h) r.h (half_up r.w * 4) (r.w * 4) (omega arith) (omega arith) in
      let p =
        halve r.w r.h (saturating_mul (r.w * 4) r.h) cut (expected ∙ size ∙ rows_of_pixels r.w r.h)
          (omega (arith, size)) (omega (arith, less, size, within_frame, v.small)) in
      (
        p.got,
        sub_arrives 3 p.got (lz4_encode_into p.packed header) p.whole (wrote ∙ p.writes header) (
            omega (
              arith,
              n,
              less,
              size,
              within_frame,
              v.small,
              p.half,
              length-packed p.packed header p.bytes
                  (omega (arith, less, size, within_frame, v.small, p.half)),
            )),
        p.size ∙ sym (rows_of_pixels r.w r.h),
      )

  -- The subframe of a region arrives, whichever mode its area asks for.
  pub region-arrived :
      (got : List ℕ) × (arrived (message (compression_of (r.w * r.h)) cut)
        ≡ some (message (compression_of (r.w * r.h)) got))
      × Comes cut r got
  unfolding compression_of
  region-arrived = elim (Bool-cases (leb 96000 (r.w * r.h))) [
    | inl large ↦ let (got, e, n) = packed_half in (got, rw large e, inr (rw large refl, n))
    | inr other ↦ elim (Bool-cases (leb 32000 (r.w * r.h))) [
      | inl middle ↦ (cut, rw (other, middle) packed_once, inl refl)
      | inr low ↦ (cut, rw (other, low) (packed_twice (ground (arith, low))), inl refl)
    ]
  ]
