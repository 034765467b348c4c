-- ===== src/Pixel/Filter.antt =====
-- gutted-proto/src/lib.rs: `spatial_filter_sub_into` and `spatial_unfilter_sub_in_place`.
pub mod RoundTrip
use exo_browser_core.Common.{ℕ, List, ◌∷◌, length}
use exo_browser_core.Pixel.Bytes.{wrapping_sub, wrapping_add, resize}

-- The loop over the chunks behind the first: `prev` is the chunk before, `dst` what `out` holds.
unfoldable pub filter_chunks : ℕ → ℕ → ℕ → ℕ → List ℕ → List ℕ → List ℕ
filter_chunks p0 p1 p2 p3 (a ∷ b ∷ c ∷ d ∷ src) (_ ∷ _ ∷ _ ∷ _ ∷ dst) =
    wrapping_sub a p0
    ∷ wrapping_sub b p1
    ∷ wrapping_sub c p2
    ∷ wrapping_sub d p3
    ∷ filter_chunks a b c d src dst
filter_chunks p0 p1 p2 p3 src dst = dst

unfoldable pub filter_first : List ℕ → List ℕ → List ℕ
filter_first (a ∷ b ∷ c ∷ d ∷ src) (_ ∷ _ ∷ _ ∷ _ ∷ dst) =
    a ∷ b ∷ c ∷ d ∷ filter_chunks a b c d src dst
filter_first src dst = dst

unfoldable pub spatial_filter_sub_into : List ℕ → List ℕ → List ℕ
unfolding filter_first filter_chunks resize
spatial_filter_sub_into pixels out = filter_first pixels (resize out (length pixels))

unfoldable pub unfilter_chunks : ℕ → ℕ → ℕ → ℕ → List ℕ → List ℕ
unfilter_chunks p0 p1 p2 p3 (a ∷ b ∷ c ∷ d ∷ buf) =
    let a' = wrapping_add a p0 in
    let b' = wrapping_add b p1 in
    let c' = wrapping_add c p2 in
    let d' = wrapping_add d p3 in a' ∷ b' ∷ c' ∷ d' ∷ unfilter_chunks a' b' c' d' buf
unfilter_chunks p0 p1 p2 p3 buf = buf

unfoldable pub spatial_unfilter_sub_in_place : List ℕ → List ℕ
unfolding unfilter_chunks
spatial_unfilter_sub_in_place (a ∷ b ∷ c ∷ d ∷ buf) = a ∷ b ∷ c ∷ d ∷ unfilter_chunks a b c d buf
spatial_unfilter_sub_in_place buf = buf
