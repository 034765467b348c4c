-- ===== src/Message/RoundTrip/Frame.antt =====
-- gutted-proto/src/lib.rs: `encode` and `decode` on whole frames.
use exo_browser_core.Common.{
  ℕ, ◌^◌, ◌<◌, ◌≤◌, ◌≡◌, refl, sym, ap, ◌∙◌, some, List, [], ◌∷◌, ◌++◌, append_assoc, length,
  length-append, take-append_left, drop-append_left, lt→ltb, le→ltb_false, arith,
}
use exo_browser_core.Wire.Result.{ok, err, message_too_large}
use exo_browser_core.Wire.Writer.{◌>>◌, write_varint, write_u8, write_bytes}
use exo_browser_core.Wire.Reader.{read_varint}
use exo_browser_core.Wire.Varint.{leb128, write_varint-leb128, read_varint-leb128}
use exo_browser_core.Wire.RoundTrip.{>>-some, Whole}
use exo_browser_core.Pixel.Lz4.Decode.{max_message_bytes}
use exo_browser_core.Message.Types.{Message}
use exo_browser_core.Message.Tag.{tag}
use exo_browser_core.Message.Valid.{IsValid}
use exo_browser_core.Message.Encode.{encode_payload, encode, with_len_pos, patch_len}
use exo_browser_core.Message.Decode.Frame.{
  select, arms, finish, decode_payload, deliver, decode_sized, decode_body, decode,
}
use exo_browser_core.Message.RoundTrip.Payload.{Whole-message}
use exo_browser_core.Message.RoundTrip.Patch.{patch_len_lem}

-- `varint TAG | varint LEN | LEN bytes of payload`.
abbrev pub frame : ℕ → List ℕ → List ℕ
frame t payload = leb128 4 t ++ (leb128 4 (length payload) ++ payload)

pub tag-lt : (m : Message) → tag m < 2 ^ 32
unfolding tag
tag-lt Message.stop = omega arith
tag-lt _ = omega arith

some-injective : {a b : List ℕ} → some a ≡ some b → a ≡ b
some-injective e = cc

-- `encode` appends the frame of what `encode_payload` writes, and does not panic where that does not.
pub encode-frame :
    (m : Message) (payload out : List ℕ)
    → ((o : List ℕ) → encode_payload m o ≡ some (o ++ payload))
    → length payload < 2 ^ 32
    → encode m out ≡ some (out ++ frame (tag m) payload)
unfolding encode with_len_pos write_u8 write_bytes
encode-frame m payload out writes h =
    >>-some (write_varint (tag m)) _ (write_varint-leb128 (tag m) out (tag-lt m))
    ∙ >>-some (write_u8 0) (encode_payload m >> patch_len (length pre)) refl
    ∙ >>-some (encode_payload m) (patch_len (length pre)) (writes (pre ++ (0 ∷ [])))
    ∙ ap (patch_len (length pre)) (append_assoc pre (0 ∷ []) payload)
    ∙ patch_len_lem pre payload h
    ∙ ap some (append_assoc out (leb128 4 (tag m)) (leb128 4 (length payload) ++ payload))
  where
    pre : List ℕ
    pre = out ++ leb128 4 (tag m)

-- `decode` by what its two header reads give.
pub decode-tag :
    (buf probe : List ℕ) {t : ℕ}
    → read_varint buf ≡ ok (t, probe)
    → decode buf ≡ decode_body t probe buf
unfolding decode
decode-tag buf probe e = rw (e, decode)

pub decode_body-len :
    (t : ℕ) (probe buf : List ℕ) {len : ℕ} {probe' : List ℕ}
    → read_varint probe ≡ ok (len, probe')
    → decode_body t probe buf ≡ decode_sized t len probe' buf
unfolding decode_body
decode_body-len t probe buf e = rw (e, decode_body)

pub decode-header :
    (t len : ℕ) (rest : List ℕ)
    → t < 2 ^ 32
    → len < 2 ^ 32
    → decode (leb128 4 t ++ (leb128 4 len ++ rest))
      ≡ decode_sized t len rest (leb128 4 t ++ (leb128 4 len ++ rest))
decode-header t len rest ht hl =
    decode-tag _ (leb128 4 len ++ rest) (read_varint-leb128 t (leb128 4 len ++ rest) ht)
    ∙ decode_body-len t (leb128 4 len ++ rest) _ (read_varint-leb128 len rest hl)

-- A whole frame is answered by what its payload decodes to.
pub decode_sized-whole :
    (t : ℕ) (payload rest buf : List ℕ)
    → length payload ≤ max_message_bytes
    → decode_sized t (length payload) (payload ++ rest) buf
      ≡ deliver buf rest (decode_payload t payload)
unfolding decode_sized
decode_sized-whole t payload rest buf h = rw (
  le→ltb_false (length payload) max_message_bytes h,
  le→ltb_false (length payload) (length (payload ++ rest))
      (omega (arith, length-append payload rest)),
  take-append_left (length payload) payload rest refl,
  drop-append_left (length payload) payload rest refl,
)

frame-append :
    (t : ℕ) (payload rest : List ℕ)
    → frame t payload ++ rest ≡ leb128 4 t ++ (leb128 4 (length payload) ++ (payload ++ rest))
frame-append t payload rest =
    append_assoc (leb128 4 t) (leb128 4 (length payload) ++ payload) rest
    ∙ ap (λ x. leb128 4 t ++ x) (append_assoc (leb128 4 (length payload)) payload rest)

pub decode-frame :
    (t : ℕ) (payload rest : List ℕ)
    → t < 2 ^ 32
    → length payload ≤ max_message_bytes
    → decode (frame t payload ++ rest)
      ≡ deliver (frame t payload ++ rest) rest (decode_payload t payload)
decode-frame t payload rest ht h = rw (frame-append t payload rest) (
    decode-header t (length payload) (payload ++ rest) ht (omega arith)
    ∙ decode_sized-whole t payload rest _ h)

pub decode-too_large :
    (t : ℕ) (payload rest : List ℕ)
    → t < 2 ^ 32
    → max_message_bytes < length payload
    → length payload < 2 ^ 32
    → decode (frame t payload ++ rest) ≡ (err message_too_large, frame t payload ++ rest)
unfolding decode_sized
decode-too_large t payload rest ht big h =
    rw (frame-append t payload rest)
      (decode-header t (length payload) (payload ++ rest) ht h ∙ rw (lt→ltb _ _ big))

pub decode_payload-Whole :
    (m : Message) (v : IsValid m) → decode_payload (tag m) (Whole-message m v).bytes ≡ ok m
unfolding decode_payload finish
decode_payload-Whole m v = rw ((Whole-message m v).reads)

-- A message whose payload is read back as that of `m'`, and is within the limit, arrives as `m'`.
pub decode-encode_as :
    (m m' : Message) (w : Whole (encode_payload m) (select (tag m) arms) m') (payload out : List ℕ)
    → encode_payload m [] ≡ some payload
    → length payload ≤ max_message_bytes
    → (bytes : List ℕ) × (encode m out ≡ some (out ++ bytes))
      × ((rest : List ℕ) → decode (bytes ++ rest) ≡ (ok (some m'), rest))
unfolding deliver decode_payload finish
decode-encode_as m m' w payload out e h =
    let same : length payload ≡ length w.bytes = ap length (some-injective (sym e ∙ w.writes [])) in
    let read : decode_payload (tag m) w.bytes ≡ ok m' = rw (w.reads) in
    (
      frame (tag m) w.bytes,
      encode-frame m w.bytes out w.writes (omega (arith, same)),
      λ rest.
          decode-frame (tag m) w.bytes rest (tag-lt m) (omega (arith, same))
          ∙ ap (deliver (frame (tag m) w.bytes ++ rest) rest) read,
    )

pub decode-encode :
    (m : Message)
    → IsValid m
    → (payload : List ℕ) → encode_payload m [] ≡ some payload
    → length payload ≤ max_message_bytes
    → (out : List ℕ)
    → (bytes : List ℕ) × (encode m out ≡ some (out ++ bytes))
      × ((rest : List ℕ) → decode (bytes ++ rest) ≡ (ok (some m), rest))
decode-encode m v payload e h out = decode-encode_as m m (Whole-message m v) payload out e h

-- A valid message whose payload is beyond the limit is encoded all the same, and `decode` refuses
-- what was written, with the buffer left as it was.
pub decode-encode_too_large :
    (m : Message)
    → IsValid m
    → (payload : List ℕ) → encode_payload m [] ≡ some payload
    → max_message_bytes < length payload
    → length payload < 2 ^ 32
    → (out rest : List ℕ)
    → (bytes : List ℕ) × (encode m out ≡ some (out ++ bytes))
      × (decode (bytes ++ rest) ≡ (err message_too_large, bytes ++ rest))
decode-encode_too_large m v payload e big h out rest = (
  frame (tag m) (Whole-message m v).bytes,
  encode-frame m (Whole-message m v).bytes out (Whole-message m v).writes (omega (arith, same)),
  decode-too_large (tag m) (Whole-message m v).bytes rest (tag-lt m) (omega (arith, same))
      (omega (arith, same)),
)
  where
    same : length payload ≡ length (Whole-message m v).bytes
    same = ap length (some-injective (sym e ∙ (Whole-message m v).writes []))
