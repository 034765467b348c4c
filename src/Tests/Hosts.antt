-- ===== src/Tests/Hosts.antt =====
-- The theorems on gutted-host-rs and on whole LZ4 blocks at concrete inputs.
use exo_browser_core.Common.{
  ℕ, ◌+◌, ◌/◌, ◌≤◌, ◌<◌, ◌≡◌, refl, true, false, some, List, [], ◌∷◌, length, All, pos, arith,
}
use exo_browser_core.Wire.Result.{ok}
use exo_browser_core.Wire.Varint.{IsByte}
use exo_browser_core.Message.Types.{Message}
use exo_browser_core.Pixel.Lz4.Encode.{lz4_encode_into}
use exo_browser_core.Pixel.Lz4.Decode.{lz4_decode, unexpected}
use exo_browser_core.Pixel.Lz4.RoundTrip.{lz4_decode-lz4_encode_into, length-lz4_encode_into}
use exo_browser_core.Host.Diff.{
  Frames, Region, diff_regions, scan_rows, fast_region, widen_rows, update_row_bounds,
  align_slice_u32, update_cell_bounds,
}
use exo_browser_core.Pixel.Bytes.{slice, bytes_eq}
use exo_browser_core.Wire.Reader.{from_le_bytes}
use exo_browser_core.Host.Diff.Cells.{pixel}
use exo_browser_core.Host.Diff.Rows.{IsFrames, row}
use exo_browser_core.Host.Diff.Covers.{Regions, diff_regions-Regions}
use exo_browser_core.Host.Diff.Patches.{patched, diff_regions-patched}
use exo_browser_core.Host.State.{Frame, HostState, full_frame}
use exo_browser_core.Host.Screen.{Screen, show, show_all, others}
use exo_browser_core.Host.Writer.{written, superseded}
use exo_browser_core.Host.Writer.Same.{written-show_all}
use exo_browser_core.Host.Loop.{LoopState, EngineEvent}
use exo_browser_core.Host.Dispatch.{on_ctrl, on_input, on_tcp}
use exo_browser_core.Host.Dispatch.Agrees.{is_input, on_tcp-agrees}

-- A run of one byte, then a word that comes again: both kinds of match.
abbrev sample : List ℕ
sample =
    7 ∷ 7 ∷ 7 ∷ 7 ∷ 7 ∷ 7 ∷ 1 ∷ 2 ∷ 3 ∷ 4 ∷ 5 ∷ 1 ∷ 2 ∷ 3 ∷ 4 ∷ 5 ∷ 6 ∷ 7 ∷ 8 ∷ 9 ∷ 10 ∷ 11 ∷ 12
    ∷ 13 ∷ []

sample_bytes : All IsByte sample
sample_bytes = ground arith

sample_expected : unexpected (some 24) (length sample) ≡ false
unfolding unexpected
sample_expected = refl

lz4_decode-lz4_encode_into_example : lz4_decode (lz4_encode_into sample []) (some 24) ≡ ok sample
lz4_decode-lz4_encode_into_example =
    lz4_decode-lz4_encode_into sample (some 24) sample_bytes (omega arith) sample_expected

length-lz4_encode_into_example :
    length (lz4_encode_into sample []) ≤ length sample + length sample / 255 + 6
length-lz4_encode_into_example = length-lz4_encode_into sample sample_bytes (omega arith)

-- Two frames of two by two pixels that differ in the last one.
abbrev pair : Frames
pair = record {
  at_a = 16;
  at_b = 32;
  a = 1 ∷ 2 ∷ 3 ∷ 4 ∷ 5 ∷ 6 ∷ 7 ∷ 8 ∷ 1 ∷ 2 ∷ 3 ∷ 4 ∷ 5 ∷ 6 ∷ 7 ∷ 8 ∷ [];
  b = 1 ∷ 2 ∷ 3 ∷ 4 ∷ 5 ∷ 6 ∷ 7 ∷ 8 ∷ 1 ∷ 2 ∷ 3 ∷ 4 ∷ 5 ∷ 6 ∷ 9 ∷ 8 ∷ [];
  w = 2;
  h = 2;
  s = 8;
}

pair-IsFrames : IsFrames pair
pair-IsFrames = record {
  columns = omega arith;
  wide = omega arith;
  full_a = omega arith;
  full_b = omega arith;
  bytes_a = ground arith;
  bytes_b = ground arith;
}

diff_regions-patched_example :
    (regions : List Region) × (diff_regions pair ≡ some regions)
    × ((x y : ℕ) → x < 2 → y < 2 → patched regions pair x y ≡ some (pixel (row pair pair.b y) x))
diff_regions-patched_example = diff_regions-patched pair pair-IsFrames (omega arith) (omega arith)

diff_regions-Regions_example : Regions pair (λ y. y < 2) (diff_regions pair)
diff_regions-Regions_example = diff_regions-Regions pair pair-IsFrames (omega arith) (omega arith)

-- The one region that is sent is the pixel that differs.
pair_region : diff_regions pair ≡ some (record { x = 1; y = 1; w = 1; h = 1 } ∷ [])
unfolding diff_regions scan_rows slice bytes_eq fast_region widen_rows update_row_bounds
    align_slice_u32 update_cell_bounds from_le_bytes
pair_region = refl

abbrev still : Frames
still = record pair { b = pair.a }

still-IsFrames : IsFrames still
still-IsFrames = record {
  columns = omega arith;
  wide = omega arith;
  full_a = omega arith;
  full_b = omega arith;
  bytes_a = ground arith;
  bytes_b = ground arith;
}

-- A subframe that a larger one hides, and a title between frames.
abbrev blank : Screen
blank = record { size = (2, 2); at = λ x y. []; halved = λ x y. false }

abbrev small_sub : Message
small_sub = Message.subframe 1 1 1 1 1 4 0 0 (1 ∷ 2 ∷ 3 ∷ 4 ∷ [])

abbrev large_sub : Message
large_sub = Message.subframe 2 0 1 2 1 8 0 0 (5 ∷ 6 ∷ 7 ∷ 8 ∷ 9 ∷ 10 ∷ 11 ∷ 12 ∷ [])

abbrev some_title : Message
some_title = Message.title (65 ∷ [])

written-show_all_example :
    (show_all (written small_sub (large_sub ∷ some_title ∷ [])) blank
      ≡ show_all (small_sub ∷ large_sub ∷ some_title ∷ []) blank)
    × (others (written small_sub (large_sub ∷ some_title ∷ []))
        ≡ others (small_sub ∷ large_sub ∷ some_title ∷ []))
written-show_all_example = written-show_all small_sub (large_sub ∷ some_title ∷ []) blank

one_left_out : written small_sub (large_sub ∷ some_title ∷ []) ≡ large_sub ∷ some_title ∷ []
unfolding written superseded
one_left_out = refl

abbrev first_frame : Frame
first_frame = record {
  tab_id = 1;
  width = 2;
  height = 2;
  stride = 8;
  format = 0;
  pixels = pair.a;
  at = 16;
}

abbrev second_frame : Frame
second_frame = record first_frame { pixels = pair.b; at = 32 }

-- The host with one tab and its first frame.
abbrev begun : HostState
begun = record {
  tabs = (1, record { url = 98 ∷ []; title = 65 ∷ [] }) ∷ [];
  last_frames = (1, first_frame) ∷ [];
  active_tab_id = 1;
  viewport_w = 1280;
  viewport_h = 648;
}

abbrev begun_screen : Screen
begun_screen = show (full_frame 0 first_frame) blank

abbrev begun_loop : LoopState
begun_loop = record { host = begun; force_full = [] }

abbrev frame_event : EngineEvent
frame_event = EngineEvent.frames 9 second_frame []

on_tcp-agrees_example :
    (is_input (Message.nav []) ≡ true
      → (on_tcp 9 (Message.nav []) (pos 1, pos 2) begun
          ≡ on_input (Message.nav []) (pos 1, pos 2) begun)
        × (on_ctrl 9 (Message.nav []) begun ≡ (begun, [])))
    × (is_input (Message.nav []) ≡ false
        → (on_tcp 9 (Message.nav []) (pos 1, pos 2) begun
            ≡ ((pos 1, pos 2), on_ctrl 9 (Message.nav []) begun))
          × (on_input (Message.nav []) (pos 1, pos 2) begun ≡ ((pos 1, pos 2), (begun, []))))
on_tcp-agrees_example = on_tcp-agrees 9 (Message.nav []) (pos 1, pos 2) begun
