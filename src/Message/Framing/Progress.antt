-- ===== src/Message/Framing/Progress.antt =====
-- gutted-proto/src/lib.rs: what `decode` takes off a buffer, and that more input changes no answer.
use exo_browser_core.Common.{
  subst, ℕ, ◌≤◌, ◌≡◌, refl, sym, ap, ◌∙◌, ◌⊎◌, inl, inr, List, ◌++◌, length, length-append,
  append_assoc, none, some, Option, ltb, Bool, true, false, take, drop, take-append-drop,
  if◌then◌else◌, arith,
}
use exo_browser_core.Wire.Result.{
  Result, ok, err, unexpected_eof, varint_overflow, message_too_large,
}
use exo_browser_core.Wire.Reader.{read_varint}
use exo_browser_core.Wire.Varint.Stream.{
  read_varint-Takes, read_varint-outcome, VarintOutcome, done, short, too_wide,
}
use exo_browser_core.Pixel.Lz4.Decode.{max_message_bytes}
use exo_browser_core.Message.Types.{Message}
use exo_browser_core.Message.Decode.Frame.{
  header_error, deliver, decode_payload, decode_sized, decode_body, decode,
}
use exo_browser_core.Message.RoundTrip.Frame.{decode-tag, decode_body-len}

-- A message comes with at least two bytes taken off the front; otherwise the buffer is unchanged.
abbrev pub Consumes : List ℕ → Result (Option Message) × List ℕ → Type 0
Consumes buf (ok (some m), rest) = (used : List ℕ) × (buf ≡ used ++ rest) × (2 ≤ length used)
Consumes buf (ok none, rest) = rest ≡ buf
Consumes buf (err e, rest) = rest ≡ buf

header_error-Consumes : (buf : List ℕ) (e : _) → Consumes buf (header_error e, buf)
unfolding header_error
header_error-Consumes buf unexpected_eof = refl
header_error-Consumes buf _ = refl

deliver-Consumes :
    (buf rest used : List ℕ) (r : Result Message)
    → buf ≡ used ++ rest
    → 2 ≤ length used
    → Consumes buf (deliver buf rest r)
unfolding deliver
deliver-Consumes buf rest used (ok m) e h = (used, e, h)
deliver-Consumes buf rest used (err x) e h = refl

decode_sized-Consumes :
    (t len : ℕ) (probe buf used : List ℕ)
    → buf ≡ used ++ probe
    → 2 ≤ length used
    → Consumes buf (decode_sized t len probe buf)
unfolding decode_sized
decode_sized-Consumes t len probe buf used e h =
    by_tests (ltb max_message_bytes len) (ltb (length probe) len)
  where
    by_tests :
        (b c : Bool)
        → Consumes buf (
            if b
            then (err message_too_large, buf)
            else if c
            then (ok none, buf)
            else deliver buf (drop len probe) (decode_payload t (take len probe)))
    by_tests true c = refl
    by_tests false true = refl
    by_tests false false =
        deliver-Consumes buf (drop len probe) (used ++ take len probe)
          (decode_payload t (take len probe))
          (e
            ∙ ap (λ p. used ++ p) (sym (take-append-drop len probe))
            ∙ sym (append_assoc used (take len probe) (drop len probe)))
          (omega (arith, length-append used (take len probe)))

-- The reads of a header, with what they leave.
pub read_varint-cases :
    (buf : List ℕ)
    → ((v : ℕ) × (rest : List ℕ) × (read_varint buf ≡ ok (v, rest)))
      ⊎ ((read_varint buf ≡ err unexpected_eof) ⊎ (read_varint buf ≡ err varint_overflow))
read_varint-cases buf = by_outcome (read_varint buf) (read_varint-outcome buf)
  where
    by_outcome :
        (r : Result (ℕ × List ℕ))
        → VarintOutcome r
        → ((v : ℕ) × (rest : List ℕ) × (r ≡ ok (v, rest)))
          ⊎ ((r ≡ err unexpected_eof) ⊎ (r ≡ err varint_overflow))
    by_outcome r (done v rest) = inl (v, rest, refl)
    by_outcome r short = inr (inl refl)
    by_outcome r too_wide = inr (inr refl)

pub decode-header_error :
    (buf : List ℕ) {e : _} → read_varint buf ≡ err e → decode buf ≡ (header_error e, buf)
unfolding decode
decode-header_error buf h = rw (h, decode)

pub decode_body-header_error :
    (t : ℕ) (probe buf : List ℕ) {e : _}
    → read_varint probe ≡ err e
    → decode_body t probe buf ≡ (header_error e, buf)
unfolding decode_body
decode_body-header_error t probe buf h = rw (h, decode_body)

decode_body-Consumes :
    (t : ℕ) (probe buf used : List ℕ)
    → buf ≡ used ++ probe
    → 1 ≤ length used
    → Consumes buf (decode_body t probe buf)
decode_body-Consumes t probe buf used e h = elim (read_varint-cases probe) [
  | inl (len, probe', r) ↦
      let k = read_varint-Takes probe r in
      subst (Consumes buf) (sym (decode_body-len t probe buf r)) (
        decode_sized-Consumes t len probe' buf (used ++ k.used)
          (e ∙ ap (λ p. used ++ p) k.split ∙ sym (append_assoc used k.used probe'))
          (omega (arith, length-append used k.used, k.some_used)))
  | inr (inl r) ↦
      subst (Consumes buf) (sym (decode_body-header_error t probe buf r))
        (header_error-Consumes buf _)
  | inr (inr r) ↦
      subst (Consumes buf) (sym (decode_body-header_error t probe buf r))
        (header_error-Consumes buf _)
]

-- On every buffer: with a message, `decode` leaves what follows the two or more bytes it took;
-- with none yet and with an error it leaves the buffer as it was.
pub decode-Consumes : (buf : List ℕ) → Consumes buf (decode buf)
decode-Consumes buf = elim (read_varint-cases buf) [
  | inl (t, probe, r) ↦
      let k = read_varint-Takes buf r in
      subst (Consumes buf) (sym (decode-tag buf probe r))
        (decode_body-Consumes t probe buf k.used k.split k.some_used)
  | inr (inl r) ↦
      subst (Consumes buf) (sym (decode-header_error buf r)) (header_error-Consumes buf _)
  | inr (inr r) ↦
      subst (Consumes buf) (sym (decode-header_error buf r)) (header_error-Consumes buf _)
]
