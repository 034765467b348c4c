-- ===== src/Message/Framing/Partial.antt =====
-- gutted-proto/src/lib.rs: a buffer that does not hold a full frame yet.
use exo_browser_core.Common.{
  ℕ, ◌^◌, ◌<◌, ◌≤◌, ◌≡◌, refl, ap, ◌∙◌, ◌⊎◌, inl, inr, List, [], ◌∷◌, ◌++◌, length, length-append,
  none, le→ltb_false, lt→ltb, arith,
}
use exo_browser_core.Wire.Result.{ok, err, unexpected_eof}
use exo_browser_core.Wire.Reader.{read_varint}
use exo_browser_core.Wire.Varint.{leb128, read_varint-leb128}
use exo_browser_core.Wire.Varint.Stream.{read_varint_front}
use exo_browser_core.Pixel.Lz4.Decode.{max_message_bytes}
use exo_browser_core.Message.Decode.Frame.{header_error, decode_sized, decode_body, decode}
use exo_browser_core.Message.RoundTrip.Frame.{frame, decode-tag, decode_body-len}

-- A proper front of an append ends inside its first part or inside its second.
front_cases :
    (xs ys front : List ℕ) (x : ℕ) (back : List ℕ)
    → xs ++ ys ≡ front ++ (x ∷ back)
    → ((y : ℕ) × (more : List ℕ) × (xs ≡ front ++ (y ∷ more)))
      ⊎ ((front' : List ℕ) × (front ≡ xs ++ front') × (ys ≡ front' ++ (x ∷ back)))
front_cases [] ys front x back e = inr (front, refl, e)
front_cases (a ∷ xs) ys [] x back e = inl (a, xs, refl)
front_cases (a ∷ xs) ys (b ∷ front) x back e =
    elim (front_cases xs ys front x back (ground arith)) [
      | inl (y, more, p) ↦ inl (y, more, ground arith)
      | inr (front', p, q) ↦ inr (front', ground arith, q)
    ]

decode-short_tag :
    (buf : List ℕ) → read_varint buf ≡ err unexpected_eof → decode buf ≡ (ok none, buf)
unfolding decode header_error
decode-short_tag buf e = rw (e, decode)

decode_body-short_len :
    (t : ℕ) (probe buf : List ℕ)
    → read_varint probe ≡ err unexpected_eof
    → decode_body t probe buf ≡ (ok none, buf)
unfolding decode_body header_error
decode_body-short_len t probe buf e = rw (e, decode_body)

decode_sized-short :
    (t len : ℕ) (probe buf : List ℕ)
    → len ≤ max_message_bytes
    → length probe < len
    → decode_sized t len probe buf ≡ (ok none, buf)
unfolding decode_sized
decode_sized-short t len probe buf h k = rw (le→ltb_false _ _ h, lt→ltb _ _ k)

-- Every proper front of a frame within the limit, whatever its payload, is reported as not complete,
-- with the buffer left as it was.
pub decode-partial :
    (t : ℕ) (payload : List ℕ)
    → t < 2 ^ 32
    → length payload ≤ max_message_bytes
    → (x : ℕ) (front back : List ℕ) → frame t payload ≡ front ++ (x ∷ back)
    → decode front ≡ (ok none, front)
decode-partial t payload ht h x front back e =
    elim (front_cases (leb128 4 t) (leb128 4 (length payload) ++ payload) front x back e) [
      | inl (y, more, p) ↦ decode-short_tag front (read_varint_front t y front more ht p)
      | inr (front1, p, q) ↦ rw p (
          decode-tag _ front1 (read_varint-leb128 t front1 ht)
          ∙ elim (front_cases (leb128 4 (length payload)) payload front1 x back q) [
            | inl (y, more, r) ↦
                decode_body-short_len t front1 _
                  (read_varint_front (length payload) y front1 more (omega arith) r)
            | inr (front2, r, s) ↦ rw r (
                decode_body-len t _ _ (read_varint-leb128 (length payload) front2 (omega arith))
                ∙ decode_sized-short t (length payload) front2 _ h
                    (omega (arith, ap length s, length-append front2 (x ∷ back))))
          ])
    ]
