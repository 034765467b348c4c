-- ===== src/Client/Render/Shown.antt =====
-- gutted-client/src/render.rs: the word at a place after a span of words is written.
use exo_browser_core.Common.{
  ℕ, zero, suc, ◌+◌, ◌-◌, ◌*◌, ◌≤◌, ◌<◌, ◌≡◌, refl, sym, ap, ◌∙◌, le→leb, Option, some, List, [],
  ◌∷◌, ◌++◌, length, take, drop, replicate, get_elem?, take-take, length-replicate, arith,
}
use exo_browser_core.Wire.Reader.{from_le_bytes}
use exo_browser_core.Client.Core.Handle.{copy_bgra_row_to_u32}
use exo_browser_core.Client.Render.{Words, write_at, copy_into, fill}
use exo_browser_core.Client.Render.Spans.{copy_into-Keeps}

get_elem?-take : (i k : ℕ) (xs : Words) → i < k → get_elem? (take k xs) i ≡ get_elem? xs i
get_elem?-take i zero xs h = absurd (omega arith)
get_elem?-take i (suc k) [] h = refl
get_elem?-take zero (suc k) (x ∷ xs) h = refl
get_elem?-take (suc i) (suc k) (x ∷ xs) h = get_elem?-take i k xs (omega arith)

-- Buffers with the same first words have the same word at each place among them.
pub same_front :
    (i k : ℕ) (xs ys : Words) → i < k → take k xs ≡ take k ys → get_elem? xs i ≡ get_elem? ys i
same_front i k xs ys h e =
    sym (get_elem?-take i k xs h) ∙ ap (λ (zs : Words). get_elem? zs i) e ∙ get_elem?-take i k ys h

pub take_less : (j k : ℕ) (xs ys : Words) → j ≤ k → take k xs ≡ take k ys → take j xs ≡ take j ys
take_less j k xs ys h e =
    sym (take-take j k xs h) ∙ ap (λ (zs : Words). take j zs) e ∙ take-take j k ys h

get_elem?-append : (i : ℕ) (xs ys : Words) → i < length xs → get_elem? (xs ++ ys) i ≡ get_elem? xs i
get_elem?-append i [] ys h = absurd (omega arith)
get_elem?-append zero (x ∷ xs) ys h = refl
get_elem?-append (suc i) (x ∷ xs) ys h = get_elem?-append i xs ys (omega arith)

get_elem?-write_at :
    (at_word i : ℕ) (ws buffer : Words)
    → i < length ws
    → at_word + length ws ≤ length buffer
    → get_elem? (write_at at_word ws buffer) (at_word + i) ≡ get_elem? ws i
unfolding write_at
get_elem?-write_at zero i ws buffer h fits =
    let e : 0 + i ≡ i = omega arith in rw e (get_elem?-append i ws (drop (length ws) buffer) h)
get_elem?-write_at (suc k) i ws [] h fits = absurd (omega arith)
get_elem?-write_at (suc k) i ws (x ∷ buffer) h fits =
    let e : suc k + i ≡ suc (k + i) = omega arith in
    rw e (get_elem?-write_at k i ws buffer h (omega arith))

pub get_elem?-replicate : (n i a : ℕ) → i < n → get_elem? (replicate n a) i ≡ some a
get_elem?-replicate zero i a h = absurd (omega arith)
get_elem?-replicate (suc n) zero a h = refl
get_elem?-replicate (suc n) (suc i) a h = get_elem?-replicate n i a (omega arith)

-- The result is there, as long as the buffer, with the same first `k` words, and with the `n` words
-- behind them as they are given.
pub record Shows (k n : ℕ) (word : ℕ → ℕ) (buffer : Words) (o : Option Words) : Type 0 where
  pub out : Words
  pub returns : o ≡ some out
  pub long : length out ≡ length buffer
  pub front : take k out ≡ take k buffer
  pub shown : (x : ℕ) → x < n → get_elem? out (k + x) ≡ some (word x)

pub copy_into-Shows :
    (k n : ℕ) (word : ℕ → ℕ) (ws buffer : Words)
    → length ws ≡ n
    → k + n ≤ length buffer
    → ((x : ℕ) → x < n → get_elem? ws x ≡ some (word x))
    → Shows k n word buffer (copy_into k ws buffer)
unfolding copy_into
copy_into-Shows k n word ws buffer same fits each =
    let m = copy_into-Keeps k k ws buffer (omega arith) (omega arith) in
    let returned : copy_into k ws buffer ≡ some (write_at k ws buffer) =
      rw (le→leb (k + length ws) (length buffer) (omega arith)) refl in
    record {
      out = m.out;
      returns = m.returns;
      long = m.long;
      front = m.front;
      shown = λ x h.
          let out : m.out ≡ write_at k ws buffer = cc (m.returns, returned) in
          rw out (get_elem?-write_at k x ws buffer (omega arith) (omega arith)) ∙ each x h;
    }

pub fill-Shows :
    (k to : ℕ) (buffer : Words)
    → k ≤ to
    → to ≤ length buffer
    → Shows k (to - k) (λ x. 0x0F0F12) buffer (fill k to buffer)
unfolding fill
fill-Shows k to buffer order fits = rw (le→leb k to order) (
    copy_into-Shows k (to - k) _ (replicate (to - k) 0x0F0F12) buffer
      (length-replicate {A = ℕ} (to - k) 0x0F0F12) (omega arith)
      (λ x h. get_elem?-replicate (to - k) x 0x0F0F12 h))

-- The word of the pixel at a byte.
unfoldable pub word_at : List ℕ → ℕ → ℕ
word_at s i = from_le_bytes (take 3 (drop i s) ++ (0 ∷ []))

-- Each word of a copied row is that of its pixel.
pub get_elem?-copy_bgra_row_to_u32 :
    (n x : ℕ) (src : List ℕ)
    → x < n
    → n * 4 ≤ length src
    → get_elem? (copy_bgra_row_to_u32 n src) x ≡ some (word_at src (x * 4))
unfolding copy_bgra_row_to_u32 word_at
get_elem?-copy_bgra_row_to_u32 zero x src h l = absurd (omega arith)
get_elem?-copy_bgra_row_to_u32 (suc n) x [] h l = absurd (omega arith)
get_elem?-copy_bgra_row_to_u32 (suc n) x (b ∷ []) h l = absurd (omega arith)
get_elem?-copy_bgra_row_to_u32 (suc n) x (b ∷ g ∷ []) h l = absurd (omega arith)
get_elem?-copy_bgra_row_to_u32 (suc n) x (b ∷ g ∷ r ∷ []) h l = absurd (omega arith)
get_elem?-copy_bgra_row_to_u32 (suc n) zero (b ∷ g ∷ r ∷ a ∷ src) h l = refl
get_elem?-copy_bgra_row_to_u32 (suc n) (suc x) (b ∷ g ∷ r ∷ a ∷ src) h l =
    let e : suc x * 4 ≡ suc (suc (suc (suc (x * 4)))) = omega arith in
    rw e (get_elem?-copy_bgra_row_to_u32 n x src (omega arith) (omega arith))
