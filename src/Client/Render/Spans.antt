-- ===== src/Client/Render/Spans.antt =====
-- gutted-client/src/render.rs: what writing a span of words leaves: the length of the buffer, and what
-- stands in front of the span.
use exo_browser_core.Common.{
  ℕ, zero, suc, ◌+◌, ◌-◌, ◌≤◌, ◌<◌, ◌≡◌, refl, ap, ◌∙◌, le→leb, Option, some, List, [], ◌∷◌, length,
  take, drop, replicate, length-append, length-drop, length-take, length-replicate, arith,
}
use exo_browser_core.Pixel.Bytes.{slice, ◌>>=◌}
use exo_browser_core.Client.Core.Handle.{copy_bgra_row_to_u32}
use exo_browser_core.Client.Render.{Words, write_at, copy_into, fill, rows}

length-write_at :
    (at_word : ℕ) (ws buffer : Words)
    → at_word + length ws ≤ length buffer
    → length (write_at at_word ws buffer) ≡ length buffer
unfolding write_at
length-write_at zero ws buffer h =
    omega (arith, length-append ws (drop (length ws) buffer), length-drop (length ws) buffer)
length-write_at (suc i) ws [] h = refl
length-write_at (suc i) ws (x ∷ buffer) h = ap suc (length-write_at i ws buffer (omega arith))

take-write_at :
    (k at_word : ℕ) (ws buffer : Words)
    → k ≤ at_word
    → take k (write_at at_word ws buffer) ≡ take k buffer
unfolding write_at
take-write_at zero at_word ws buffer h = refl
take-write_at (suc k) zero ws buffer h = absurd (omega arith)
take-write_at (suc k) (suc i) ws [] h = refl
take-write_at (suc k) (suc i) ws (x ∷ buffer) h =
    ap (λ t. x ∷ t) (take-write_at k i ws buffer (omega arith))

-- The result is there, as long as the buffer, and has the same first `k` words.
pub record Keeps (k : ℕ) (buffer : Words) (o : Option Words) : Type 0 where
  pub out : Words
  pub returns : o ≡ some out
  pub long : length out ≡ length buffer
  pub front : take k out ≡ take k buffer

pub stays : (k : ℕ) (buffer : Words) → Keeps k buffer (some buffer)
stays k buffer = record { out = buffer; returns = refl; long = refl; front = refl }

pub copy_into-Keeps :
    (k at_word : ℕ) (ws buffer : Words)
    → k ≤ at_word
    → at_word + length ws ≤ length buffer
    → Keeps k buffer (copy_into at_word ws buffer)
unfolding copy_into
copy_into-Keeps k at_word ws buffer h fits = record {
  out = write_at at_word ws buffer;
  returns = rw (le→leb _ _ fits) refl;
  long = length-write_at at_word ws buffer fits;
  front = take-write_at k at_word ws buffer h;
}

pub fill-Keeps :
    (k from to : ℕ) (buffer : Words)
    → k ≤ from
    → from ≤ to
    → to ≤ length buffer
    → Keeps k buffer (fill from to buffer)
unfolding fill
fill-Keeps k from to buffer h order fits = rw (le→leb _ _ order) (
    copy_into-Keeps k from (replicate (to - from) 0x0F0F12) buffer h
      (omega (arith, length-replicate {A = ℕ} (to - from) 0x0F0F12)))

pub Keeps-bind :
    (k : ℕ) (buffer : Words) (o : Option Words) (f : Words → Option Words)
    → Keeps k buffer o
    → ((drawn : Words) → length drawn ≡ length buffer → Keeps k drawn (f drawn))
    → Keeps k buffer (o >>= f)
Keeps-bind k buffer o f m next =
    let n = next m.out m.long in
    record {
      out = n.out;
      returns = rw (m.returns) n.returns;
      long = n.long ∙ m.long;
      front = n.front ∙ m.front;
    }

pub rows-Keeps :
    (k n row : ℕ) (draw : ℕ → Words → Option Words) (buffer : Words)
    → ((r : ℕ) (c : Words)
        → row ≤ r
        → r < row + n
        → length c ≡ length buffer
        → Keeps k c (draw r c))
    → Keeps k buffer (rows n row draw buffer)
unfolding rows
rows-Keeps k zero row draw buffer each = stays k buffer
rows-Keeps k (suc n) row draw buffer each =
    Keeps-bind k buffer (draw row buffer) _ (each row buffer (omega arith) (omega arith) refl)
      λ drawn same.
        rows-Keeps k n (row + 1) draw drawn
          λ r c lo hi long. each r c (omega arith) (omega arith) (long ∙ same)

-- A slice that is in range, with its length.
pub slice-some :
    (s : Words) (from n : ℕ)
    → from + n ≤ length s
    → (t : Words) × (slice s from n ≡ some t) × (length t ≡ n)
unfolding slice
slice-some s from n h = (
  take n (drop from s),
  rw (le→leb _ _ h) refl,
  omega (arith, length-take n (drop from s), length-drop from s),
)

pub length-copy_bgra_row_to_u32 : (n : ℕ) (src : List ℕ) → length (copy_bgra_row_to_u32 n src) ≡ n
unfolding copy_bgra_row_to_u32
length-copy_bgra_row_to_u32 zero src = refl
length-copy_bgra_row_to_u32 (suc n) [] = ap suc (length-copy_bgra_row_to_u32 n [])
length-copy_bgra_row_to_u32 (suc n) (b ∷ []) = ap suc (length-copy_bgra_row_to_u32 n [])
length-copy_bgra_row_to_u32 (suc n) (b ∷ g ∷ []) = ap suc (length-copy_bgra_row_to_u32 n [])
length-copy_bgra_row_to_u32 (suc n) (b ∷ g ∷ r ∷ []) = ap suc (length-copy_bgra_row_to_u32 n [])
length-copy_bgra_row_to_u32 (suc n) (b ∷ g ∷ r ∷ a ∷ src) =
    ap suc (length-copy_bgra_row_to_u32 n src)
