-- ===== src/Host/Screen.antt =====
-- What the frames that gutted-host-rs/src/main.rs publishes mean: the picture of a viewer that decodes
-- the bytes that `encode` makes of them.
pub mod Arrives
pub mod Regions
use exo_browser_core.Common.{
  ◌+◌, true, false, ℕ, ◌-◌, ◌*◌, Bool, List, [], ◌∷◌, take, drop, if◌then◌else◌, Option, none, some,
  ◌==◌,
}
use exo_browser_core.Wire.Result.{Result, ok, err}
use exo_browser_core.Message.Types.{Message}
use exo_browser_core.Message.Encode.{encode}
use exo_browser_core.Message.Decode.Frame.{decode}
use exo_browser_core.Pixel.Bytes.{◌>>=◌}
use exo_browser_core.Host.Rect.{in_rect}

-- The size, the pixel at a column and a row, and whether it was last drawn by a picture in half
-- resolution (`LZ4_DELTA_Q2`).
pub record Screen : Type 0 where
  pub size : ℕ × ℕ
  pub at : ℕ → ℕ → List ℕ
  pub halved : ℕ → ℕ → Bool

-- The pixel of a buffer.
abbrev pub pixel_of : List ℕ → ℕ → ℕ → ℕ → List ℕ
pixel_of pixels stride x y = take 4 (drop (y * stride + x * 4) pixels)

-- What a viewer takes from an answer of `decode`.
abbrev pub taken : Result (Option Message) × List ℕ → Option Message
taken d = elim d.0 [ err _ ↦ none | ok got ↦ got ]

-- The message that `decode` gives of what `encode` writes: none where `encode` panics, and none where
-- `decode` refuses it.
unfoldable pub arrived : Message → Option Message
arrived m = encode m [] >>= λ bytes. taken (decode bytes)

abbrev pub pixels_in : Option Message → List ℕ
pixels_in (some (Message.raw_frame _ _ _ _ _ _ pixels)) = pixels
pixels_in (some (Message.subframe _ _ _ _ _ _ _ _ pixels)) = pixels
pixels_in _ = []

-- Only the pixels that arrive are drawn. A picture that does not arrive leaves its place without any.
unfoldable pub show : Message → Screen → Screen
show (Message.raw_frame ts_us width height stride format compression pixels) s =
    let got =
      pixels_in (arrived (Message.raw_frame ts_us width height stride format compression pixels)) in
    record {
      size = (width, height);
      at = λ col row. pixel_of got stride col row;
      halved = λ col row. compression == 3;
    }
show (Message.subframe ts_us x y w h stride format compression pixels) s =
    let got =
      pixels_in (arrived (Message.subframe ts_us x y w h stride format compression pixels)) in
    record {
      size = s.size;
      at = λ col row.
          if in_rect x y w h col row then pixel_of got stride (col - x) (row - y) else s.at col row;
      halved = λ col row. if in_rect x y w h col row then compression == 3 else s.halved col row;
    }
show _ s = s

unfoldable pub show_all : List Message → Screen → Screen
show_all [] s = s
show_all (m ∷ ms) s = show_all ms (show m s)

abbrev pub is_frame : Message → Bool
is_frame (Message.raw_frame _ _ _ _ _ _ _) = true
is_frame (Message.subframe _ _ _ _ _ _ _ _ _) = true
is_frame _ = false

-- The messages that are not frames.
unfoldable pub others : List Message → List Message
others [] = []
others (m ∷ ms) = let rest = others ms in if is_frame m then rest else m ∷ rest
