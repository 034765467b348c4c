-- ===== src/Client/Render/Total.antt =====
-- gutted-client/src/render.rs: `render_into` below the chrome reads and writes nothing out of range, and
-- leaves the chrome as it is.
use exo_browser_core.Common.{
  ◌^◌, ◌%◌, ℕ, ◌+◌, ◌-◌, ◌*◌, ◌≤◌, ◌<◌, ◌==◌, ◌&&◌, ◌≡◌, refl, ◌∙◌, min, ltb, Option, some, List,
  [], ◌∷◌, length, take, All, Bool-cases, Option-cases, inl, inr, arith,
}
use exo_browser_core.Pixel.Bytes.{◌>>=◌}
use exo_browser_core.Client.Session.{chrome_h}
use exo_browser_core.Client.Events.{GfxSubframe}
use exo_browser_core.Client.Core.State.{lookup_key}
use exo_browser_core.Client.Core.Handle.{copy_bgra_row_to_u32}
use exo_browser_core.Client.Render.{
  Words, Drawn, copy_into, content_of, draw_part, sub_source, tile_source, draw_subframes,
  draw_tiles,
}
use exo_browser_core.Client.Render.Spans.{
  copy_into-Keeps, rows-Keeps, slice-some, length-copy_bgra_row_to_u32,
}
use exo_browser_core.Client.Render.Base.{mul_mono, row_fits, IsWholeSubframe, IsWholeTile}

-- A drawing that is there, with a buffer as long as before and the same first `k` words.
pub record KeepsDrawn (k : ℕ) (d : Drawn) (o : Option Drawn) : Type 0 where
  pub out : Drawn
  pub returns : o ≡ some out
  pub long : length out.0 ≡ length d.0
  pub front : take k out.0 ≡ take k d.0

pub drawn_stays : (k : ℕ) (d : Drawn) → KeepsDrawn k d (some d)
drawn_stays k d = record { out = d; returns = refl; long = refl; front = refl }

KeepsDrawn-bind :
    (k : ℕ) (d : Drawn) (o : Option Drawn) (f : Drawn → Option Drawn)
    → KeepsDrawn k d o
    → ((e : Drawn) → length e.0 ≡ length d.0 → KeepsDrawn k e (f e))
    → KeepsDrawn k d (o >>= f)
KeepsDrawn-bind k d o f m next =
    let n = next m.out m.long in
    record {
      out = n.out;
      returns = rw (m.returns) n.returns;
      long = n.long ∙ m.long;
      front = n.front ∙ m.front;
    }

-- A picture whose rows are there, each as long as it is asked for.
abbrev Gives : ℕ → ℕ → (ℕ → ℕ → Option Words) → Type 0
Gives w h source =
    (copy_w row : ℕ)
    → copy_w ≤ w
    → row < h
    → (ws : Words) × (source copy_w row ≡ some ws) × (length ws ≡ copy_w)

sub_source-Gives : (s : GfxSubframe) → IsWholeSubframe s → Gives s.w s.h (sub_source s)
unfolding sub_source
sub_source-Gives s v copy_w row narrow low =
    let fits = row_fits row s.h s.stride low in
    let (src, e, _) = slice-some s.pixels (row * s.stride) (copy_w * 4) (omega (arith, v.0, v.1)) in
    (copy_bgra_row_to_u32 copy_w src, rw e refl, length-copy_bgra_row_to_u32 copy_w src)

tile_source-Gives : (tile : Words) → 64 * 64 ≤ length tile → Gives 64 64 (tile_source tile)
unfolding tile_source
tile_source-Gives tile v copy_w row narrow low = slice-some tile (row * 64) copy_w (omega arith)

module _ (bw bh : ℕ) (below : chrome_h < bh) where
  draw_part-Keeps :
      (x y w h : ℕ) (source : ℕ → ℕ → Option Words) (d : Drawn)
      → bw * bh ≤ length d.0
      → Gives w h source
      → KeepsDrawn (chrome_h * bw) d (draw_part bw bh x y w h source d)
  unfolding draw_part
  draw_part-Keeps x y w h source (buffer, damage) big gives =
      elim (Bool-cases (
        ltb (min x bw) (min ((x + w) % 2 ^ 32) bw)
        && ltb (min y (content_of bh)) (min ((y + h) % 2 ^ 32) (content_of bh)))) [
          | inr off ↦ rw off (drawn_stays _ (buffer, damage))
          | inl on ↦
              let x0 = min x bw in
              let y0 = min y (content_of bh) in
              let copy_w = min ((x + w) % 2 ^ 32) bw - x0 in
              let n = min ((y + h) % 2 ^ 32) (content_of bh) - y0 in
              let wide : x0 < min ((x + w) % 2 ^ 32) bw = ground (arith, on) in
              let m =
                rows-Keeps (chrome_h * bw) n 0
                  (λ row b.
                    source copy_w row >>= λ ws. copy_into ((chrome_h + y0 + row) * bw + x0) ws b)
                  buffer
                  λ r c lo hi long.
                    let (ws, e, same) = gives copy_w r (omega arith) (omega arith) in
                    let fits = row_fits (chrome_h + y0 + r) bh bw (omega arith) in
                    let behind = mul_mono chrome_h (chrome_h + y0 + r) bw (omega arith) in
                    rw e (
                      copy_into-Keeps (chrome_h * bw) ((chrome_h + y0 + r) * bw + x0) ws c
                        (omega arith) (omega arith)) in
              rw (on, m.returns)
                (record { out = (m.out, _); returns = refl; long = m.long; front = m.front })
        ]

  pub draw_subframes-Keeps :
      (ss : List GfxSubframe) (d : Drawn)
      → bw * bh ≤ length d.0
      → All IsWholeSubframe ss
      → KeepsDrawn (chrome_h * bw) d (draw_subframes bw bh ss d)
  unfolding draw_subframes
  draw_subframes-Keeps [] d big v = drawn_stays _ d
  draw_subframes-Keeps (s ∷ ss) d big v =
      KeepsDrawn-bind (chrome_h * bw) d _ _
        (draw_part-Keeps s.x s.y s.w s.h (sub_source s) d big (sub_source-Gives s v.0))
        λ e same. draw_subframes-Keeps ss e (omega arith) v.1

  whole_tile :
      (hash : ℕ) (cache : List (ℕ × Words)) (tile : Words)
      → All IsWholeTile cache
      → lookup_key hash cache ≡ some tile
      → 64 * 64 ≤ length tile
  unfolding lookup_key
  whole_tile hash [] tile v e = absurd (ground (arith, e))
  whole_tile hash ((k, t) ∷ cache) tile v e = elim (Bool-cases (k == hash)) [
    | inl here ↦
        let q : lookup_key hash ((k, t) ∷ cache) ≡ some t = rw here refl in
        ground (arith, e, q, v.0)
    | inr there ↦ whole_tile hash cache tile v.1 (rw there at e)
  ]

  pub draw_tiles-Keeps :
      (cache : List (ℕ × Words)) (ts : List (ℕ × ℕ × ℕ)) (d : Drawn)
      → bw * bh ≤ length d.0
      → All IsWholeTile cache
      → KeepsDrawn (chrome_h * bw) d (draw_tiles bw bh cache ts d)
  unfolding draw_tiles
  draw_tiles-Keeps cache [] d big v = drawn_stays _ d
  draw_tiles-Keeps cache ((tx, ty, hash) ∷ ts) d big v =
      elim (Option-cases (lookup_key hash cache)) [
        | inl e ↦ rw (draw_tiles, e) (draw_tiles-Keeps cache ts d big v)
        | inr (tile, e) ↦
            rw (draw_tiles, e)
              (KeepsDrawn-bind (chrome_h * bw) d _ _
                (draw_part-Keeps tx ty 64 64 (tile_source tile) d big
                  (tile_source-Gives tile (whole_tile hash cache tile v e)))
                λ d' same. draw_tiles-Keeps cache ts d' (omega arith) v)
      ]
