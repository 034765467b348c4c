-- ===== src/Client/Render/Pixels.antt =====
-- gutted-client/src/render.rs: what the rows that `render_into` draws show, word by word.
use exo_browser_core.Common.{
  ℕ, zero, suc, ◌+◌, ◌-◌, ◌*◌, ◌≤◌, ◌<◌, ◌==◌, ◌≡◌, refl, sym, ap, ◌∙◌, subst, ltb, lt→ltb, ltb→lt,
  Option, some, List, [], ◌∷◌, ◌++◌, length, take, drop, get_elem?, take-take, drop-add, arith,
  Bool-cases, inl, inr, if◌then◌else◌,
}
use exo_browser_core.Wire.Reader.{from_le_bytes}
use exo_browser_core.Client.Session.{chrome_h}
use exo_browser_core.Client.Render.{Words, rows, put_row}
use exo_browser_core.Client.Render.Shown.{
  Shows, same_front, take_less, copy_into-Shows, fill-Shows, word_at,
}

take-drop-take :
    (m i n : ℕ) (s : List ℕ) → i + m ≤ n → take m (drop i (take n s)) ≡ take m (drop i s)
take-drop-take m zero n s h = take-take m n s (omega arith)
take-drop-take m (suc i) zero s h = absurd (omega arith)
take-drop-take m (suc i) (suc n) [] h = refl
take-drop-take m (suc i) (suc n) (x ∷ s) h = take-drop-take m i n s (omega arith)

-- A pixel of a slice is one of the whole.
pub word_at-slice :
    (s : List ℕ) (from n i : ℕ)
    → i + 3 ≤ n
    → word_at (take n (drop from s)) i ≡ word_at s (from + i)
unfolding word_at
word_at-slice s from n i h =
    ap (λ (t : List ℕ). from_le_bytes (t ++ (0 ∷ [])))
      (take-drop-take 3 i n (drop from s) h ∙ ap (take 3) (sym (drop-add from i s)))

-- What a row shows of `copy_w` words.
abbrev pub row_word : ℕ → (ℕ → ℕ) → ℕ → ℕ
row_word copy_w word x = if ltb x copy_w then word x else 0x0F0F12

module _ (bw bh : ℕ) where
  pub put_row-Shows :
      (copy_w row : ℕ) (word : ℕ → ℕ) (ws buffer : Words)
      → (chrome_h + row) * bw + bw ≤ length buffer
      → copy_w ≤ bw
      → length ws ≡ copy_w
      → ((x : ℕ) → x < copy_w → get_elem? ws x ≡ some (word x))
      → Shows
          ((chrome_h + row) * bw)
          bw
          (row_word copy_w word)
          buffer
          (put_row bw copy_w row ws buffer)
  unfolding put_row
  put_row-Shows copy_w row word ws buffer fits narrow long each =
      let dst = (chrome_h + row) * bw in
      let m = copy_into-Shows dst copy_w word ws buffer long (omega arith) each in
      elim (Bool-cases (ltb copy_w bw)) [
        | inl more ↦
            let n =
              fill-Shows (dst + copy_w) (dst + bw) m.out (omega arith) (omega (arith, m.long)) in
            record {
              out = n.out;
              returns = rw (m.returns, more) n.returns;
              long = n.long ∙ m.long;
              front = take_less dst (dst + copy_w) n.out m.out (omega arith) n.front ∙ m.front;
              shown = λ x h. elim (Bool-cases (ltb x copy_w)) [
                | inl inside ↦
                    let low = ltb→lt _ _ inside in
                    rw inside (
                      same_front (dst + x) (dst + copy_w) n.out m.out (omega arith) n.front
                      ∙ m.shown x low)
                | inr outside ↦
                    let place : dst + copy_w + (x - copy_w) ≡ dst + x = ground (arith, outside) in
                    rw outside (
                      subst (λ (i : ℕ). get_elem? n.out i ≡ some 0x0F0F12) place
                        (n.shown (x - copy_w) (ground (arith, outside))))
              ];
            }
        | inr full ↦ record {
          out = m.out;
          returns = rw (m.returns, full) refl;
          long = m.long;
          front = m.front;
          shown = λ x h.
              let low : x < copy_w = ground (arith, full) in
              rw (lt→ltb x copy_w low) (m.shown x low);
        }
      ]

  -- The result is there, as long as the buffer, and shows `n` rows from `row` on.
  pub record Area (row n : ℕ) (word : ℕ → ℕ → ℕ) (buffer : Words) (o : Option Words) : Type 0 where
    pub out : Words
    pub returns : o ≡ some out
    pub long : length out ≡ length buffer
    pub front : take ((chrome_h + row) * bw) out ≡ take ((chrome_h + row) * bw) buffer
    pub shown :
        (y x : ℕ)
        → row ≤ y
        → y < row + n
        → x < bw
        → get_elem? out ((chrome_h + y) * bw + x) ≡ some (word y x)

  pub rows-Area :
      (n row : ℕ) (draw : ℕ → Words → Option Words) (word : ℕ → ℕ → ℕ) (buffer : Words)
      → ((r : ℕ) (c : Words)
          → row ≤ r
          → r < row + n
          → length c ≡ length buffer
          → Shows ((chrome_h + r) * bw) bw (word r) c (draw r c))
      → Area row n word buffer (rows n row draw buffer)
  unfolding rows
  rows-Area zero row draw word buffer each = record {
    out = buffer;
    returns = refl;
    long = refl;
    front = refl;
    shown = λ y x lo hi h. absurd (omega arith);
  }
  rows-Area (suc n) row draw word buffer each =
      let m = each row buffer (omega arith) (omega arith) refl in
      let later =
        rows-Area n (row + 1) draw word m.out
          (λ r c lo hi long. each r c (omega arith) (omega arith) (long ∙ m.long)) in
      let next : (chrome_h + (row + 1)) * bw ≡ (chrome_h + row) * bw + bw = grind arith in
      record {
        out = later.out;
        returns = rw (m.returns) later.returns;
        long = later.long ∙ m.long;
        front = take_less _ _ later.out m.out (omega (arith, next)) later.front ∙ m.front;
        shown = λ y x lo hi h. elim (Bool-cases (y == row)) [
          | inl here ↦
              let same : y ≡ row = ground (arith, here) in
              subst (λ (r : ℕ). get_elem? later.out ((chrome_h + r) * bw + x) ≡ some (word r x))
                (sym same)
                (same_front ((chrome_h + row) * bw + x) ((chrome_h + (row + 1)) * bw) later.out
                    m.out (omega (arith, next)) later.front
                  ∙ m.shown x h)
          | inr there ↦ later.shown y x (ground (arith, there)) (omega arith) h
        ];
      }
