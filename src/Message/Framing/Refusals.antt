-- ===== src/Message/Framing/Refusals.antt =====
-- gutted-proto/src/lib.rs: the whole frames that `decode` refuses, with the buffer left as it was.
use exo_browser_core.Common.{
  ℕ, ◌^◌, ◌<◌, ◌≤◌, ◌≡◌, ◌≢◌, refl, ap, ◌∙◌, List, [], ◌∷◌, ◌++◌, length, some, All, false, arith,
}
use exo_browser_core.Wire.Result.{ok, err, try, unknown_tag, trailing_bytes}
use exo_browser_core.Wire.Reader.{Reader, fail}
use exo_browser_core.Pixel.Lz4.Decode.{max_message_bytes}
use exo_browser_core.Message.Types.{Message}
use exo_browser_core.Message.Tag.{tag}
use exo_browser_core.Message.Valid.{IsValid}
use exo_browser_core.Message.Encode.{encode_payload}
use exo_browser_core.Message.Decode.Frame.{select, arms, finish, decode_payload, deliver, decode}
use exo_browser_core.Message.RoundTrip.Payload.{Inverse-payload, has_pixels}
use exo_browser_core.Message.RoundTrip.Frame.{frame, tag-lt, decode-frame}

select-unknown :
    (t : ℕ) (table : List (ℕ × Reader Message)) (payload : List ℕ)
    → All (λ a. t ≢ a.0) table
    → select t table payload ≡ err (unknown_tag t)
unfolding select fail
select-unknown t [] payload h = refl
select-unknown t ((u, read) ∷ table) payload h =
    ground (arith, h.0, select-unknown t table payload h.1)

-- A frame with a tag that no arm has is refused, and not skipped.
pub decode-unknown_tag :
    (t : ℕ) (payload rest : List ℕ)
    → t < 2 ^ 32
    → length payload ≤ max_message_bytes
    → All (λ a. t ≢ a.0) arms
    → decode (frame t payload ++ rest) ≡ (err (unknown_tag t), frame t payload ++ rest)
unfolding deliver decode_payload
decode-unknown_tag t payload rest ht h unknown =
    decode-frame t payload rest ht h
    ∙ ap (λ r. deliver (frame t payload ++ rest) rest (try r finish))
        (select-unknown t arms payload unknown)

-- The payload that a valid message without pixels is written as, with bytes behind it inside the
-- frame, is refused.
pub decode-trailing_bytes :
    (m : Message)
    → IsValid m
    → has_pixels m ≡ false
    → (payload : List ℕ) → encode_payload m [] ≡ some payload
    → (x : ℕ) (extra rest : List ℕ) → length (payload ++ (x ∷ extra)) ≤ max_message_bytes
    → decode (frame (tag m) (payload ++ (x ∷ extra)) ++ rest)
      ≡ (err trailing_bytes, frame (tag m) (payload ++ (x ∷ extra)) ++ rest)
unfolding deliver decode_payload finish
decode-trailing_bytes m v q payload e x extra rest h =
    decode-frame (tag m) (payload ++ (x ∷ extra)) rest (tag-lt m) h
    ∙ ap (λ r. deliver (frame (tag m) (payload ++ (x ∷ extra)) ++ rest) rest (try r finish)) read
  where
    same : payload ≡ (Inverse-payload m v q).bytes
    same = cc (e, (Inverse-payload m v q).writes [])

    read : select (tag m) arms (payload ++ (x ∷ extra)) ≡ ok (m, x ∷ extra)
    read = rw same ((Inverse-payload m v q).reads (x ∷ extra))
