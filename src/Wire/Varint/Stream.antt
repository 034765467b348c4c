-- ===== src/Wire/Varint/Stream.antt =====
-- gutted-proto/src/lib.rs: `read_varint` on a buffer that grows, is cut or holds more than a number.
use exo_browser_core.Common.{
  ℕ, zero, suc, ◌+◌, ◌*◌, ◌%◌, ◌^◌, ◌≤◌, ◌<◌, ◌≡◌, refl, ap, append-nil, bit_and, bit_or, Bool,
  true, false, List, [], ◌∷◌, ◌++◌, length, length-append, if◌then◌else◌, arith,
}
use exo_browser_core.Common.Bits.{or_lt}
use exo_browser_core.Wire.Result.{Result, ok, err, unexpected_eof, varint_overflow}
use exo_browser_core.Wire.Reader.{read_varint_loop, read_varint}
use exo_browser_core.Wire.Varint.{leb128, read_varint-leb128}

-- More input changes neither a value that was read nor an overflow.
read_varint_loop-append_ok :
    (src more : List ℕ) (k i shift result v : ℕ) (rest : List ℕ)
    → read_varint_loop k i shift result src ≡ ok (v, rest)
    → read_varint_loop k i shift result (src ++ more) ≡ ok (v, rest ++ more)
unfolding read_varint_loop
read_varint_loop-append_ok src more zero i shift result v rest e = cc
read_varint_loop-append_ok [] more (suc k) i shift result v rest e = cc
read_varint_loop-append_ok (b ∷ bs) more (suc k) i shift result v rest e =
    ground (arith, read_varint_loop-append_ok bs more k (i + 1) (shift + 7) (next b) v rest)
  where
    next : ℕ → ℕ
    next b = bit_or result (bit_and b 0x7f * 2 ^ shift % 2 ^ 32)

read_varint_loop-append_overflow :
    (src more : List ℕ) (k i shift result : ℕ)
    → read_varint_loop k i shift result src ≡ err varint_overflow
    → read_varint_loop k i shift result (src ++ more) ≡ err varint_overflow
unfolding read_varint_loop
read_varint_loop-append_overflow src more zero i shift result e = refl
read_varint_loop-append_overflow [] more (suc k) i shift result e = cc
read_varint_loop-append_overflow (b ∷ bs) more (suc k) i shift result e =
    ground (arith, read_varint_loop-append_overflow bs more k (i + 1) (shift + 7) (next b))
  where
    next : ℕ → ℕ
    next b = bit_or result (bit_and b 0x7f * 2 ^ shift % 2 ^ 32)

pub read_varint-append_ok :
    (src more : List ℕ) (v : ℕ) (rest : List ℕ)
    → read_varint src ≡ ok (v, rest)
    → read_varint (src ++ more) ≡ ok (v, rest ++ more)
unfolding read_varint
read_varint-append_ok src more v rest e = read_varint_loop-append_ok src more 5 0 0 0 v rest e

pub read_varint-append_overflow :
    (src more : List ℕ)
    → read_varint src ≡ err varint_overflow
    → read_varint (src ++ more) ≡ err varint_overflow
unfolding read_varint
read_varint-append_overflow src more e = read_varint_loop-append_overflow src more 5 0 0 0 e

-- How a read can end: with a value, short of input, or on an overflow.
pub data VarintOutcome : Result (ℕ × List ℕ) → Type 0 where
  done : (v : ℕ) (rest : List ℕ) → VarintOutcome (ok (v, rest))
  short : VarintOutcome (err unexpected_eof)
  too_wide : VarintOutcome (err varint_overflow)

-- The three ends of one round.
VarintOutcome-if :
    (b c : Bool) (v : ℕ) (rest : List ℕ) {r : Result (ℕ × List ℕ)}
    → VarintOutcome r
    → VarintOutcome (if b then err varint_overflow else if c then ok (v, rest) else r)
VarintOutcome-if true c v rest o = too_wide
VarintOutcome-if false true v rest o = done v rest
VarintOutcome-if false false v rest o = o

read_varint_loop-outcome :
    (k i shift result : ℕ) (src : List ℕ) → VarintOutcome (read_varint_loop k i shift result src)
unfolding read_varint_loop
read_varint_loop-outcome zero i shift result src = too_wide
read_varint_loop-outcome (suc k) i shift result [] = short
read_varint_loop-outcome (suc k) i shift result (b ∷ bs) =
    VarintOutcome-if _ _ _ bs (read_varint_loop-outcome k (i + 1) (shift + 7) _ bs)

pub read_varint-outcome : (src : List ℕ) → VarintOutcome (read_varint src)
unfolding read_varint
read_varint-outcome src = read_varint_loop-outcome 5 0 0 0 src

-- A proper front of a written number is short of input.
pub read_varint_front :
    (v x : ℕ) (front back : List ℕ)
    → v < 2 ^ 32
    → leb128 4 v ≡ front ++ (x ∷ back)
    → read_varint front ≡ err unexpected_eof
read_varint_front v x front back h e =
    by_outcome (read_varint front) refl (read_varint-outcome front)
  where
    whole : read_varint (front ++ (x ∷ back)) ≡ ok (v, [])
    whole = rw (← e) (rw append-nil at (read_varint-leb128 v [] h))

    by_outcome :
        (r : Result (ℕ × List ℕ))
        → read_varint front ≡ r
        → VarintOutcome r
        → read_varint front ≡ err unexpected_eof
    by_outcome r q (done u rest) = absurd (absurd_rest u rest q)
      where
        absurd_rest : (u : ℕ) (rest : List ℕ) → read_varint front ≡ ok (u, rest) → ⊥
        absurd_rest u rest q = ground (
          arith,
          whole,
          read_varint-append_ok front (x ∷ back) u rest q,
          length-append rest (x ∷ back),
        )
    by_outcome r q short = q
    by_outcome r q too_wide = cc (whole, read_varint-append_overflow front (x ∷ back) q)

-- `rest` is what is left of `src` behind at least one byte and at most `k`, and `v` is a u32.
pub record Takes (k : ℕ) (src : List ℕ) (v : ℕ) (rest : List ℕ) : Type 0 where
  pub used : List ℕ
  pub split : src ≡ used ++ rest
  pub some_used : 1 ≤ length used
  pub few_used : length used ≤ k
  pub in_range : v < 2 ^ 32

Takes-if :
    (b c : Bool) (k x u : ℕ) (bs : List ℕ) {v : ℕ} {rest : List ℕ} {r : Result (ℕ × List ℕ)}
    → u < 2 ^ 32
    → (r ≡ ok (v, rest) → Takes k bs v rest)
    → (if b then err varint_overflow else if c then ok (u, bs) else r) ≡ ok (v, rest)
    → Takes (suc k) (x ∷ bs) v rest
Takes-if true c k x u bs h more e = cc
Takes-if false true k x u bs h more e = record {
  used = x ∷ [];
  split = cc;
  some_used = omega arith;
  few_used = omega arith;
  in_range = ground arith;
}
Takes-if false false k x u bs h more e = record {
  used = x ∷ (more e).used;
  split = ap (λ t. x ∷ t) (more e).split;
  some_used = omega arith;
  few_used = omega (arith, (more e).few_used);
  in_range = (more e).in_range;
}

read_varint_loop-Takes :
    (k i shift result : ℕ) (src : List ℕ) {v : ℕ} {rest : List ℕ}
    → result < 2 ^ 32
    → read_varint_loop k i shift result src ≡ ok (v, rest)
    → Takes k src v rest
unfolding read_varint_loop
read_varint_loop-Takes zero i shift result src h e = cc
read_varint_loop-Takes (suc k) i shift result [] h e = cc
read_varint_loop-Takes (suc k) i shift result (b ∷ bs) h e =
    Takes-if _ _ k b _ bs fits (read_varint_loop-Takes k (i + 1) (shift + 7) _ bs fits) e
  where
    fits : bit_or result (bit_and b 0x7f * 2 ^ shift % 2 ^ 32) < 2 ^ 32
    fits = or_lt 32 result (bit_and b 0x7f * 2 ^ shift % 2 ^ 32) h (omega arith)

-- A successful `read_varint` takes one to five bytes off the buffer and gives a u32.
pub read_varint-Takes :
    (src : List ℕ) {v : ℕ} {rest : List ℕ} → read_varint src ≡ ok (v, rest) → Takes 5 src v rest
unfolding read_varint
read_varint-Takes src e = read_varint_loop-Takes 5 0 0 0 src (omega arith) e
