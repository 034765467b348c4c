-- ===== src/Message/Framing/Append.antt =====
-- gutted-proto/src/lib.rs: that more input changes no answer of `decode` but "not complete".
use exo_browser_core.Common.{
  drop-append_le, take-append_le, ℕ, ◌≡◌, ◌≢◌, refl, sym, ap, ◌∙◌, inl, inr, List, ◌++◌, length,
  length-append, none, Option, ltb, false, take, drop, Bool-cases, arith,
}
use exo_browser_core.Wire.Result.{Result, ok, err, unexpected_eof}
use exo_browser_core.Wire.Varint.Stream.{read_varint-append_ok, read_varint-append_overflow}
use exo_browser_core.Pixel.Lz4.Decode.{max_message_bytes}
use exo_browser_core.Message.Types.{Message}
use exo_browser_core.Message.Decode.Frame.{
  header_error, deliver, decode_payload, decode_sized, decode_body, decode,
}
use exo_browser_core.Message.RoundTrip.Frame.{decode-tag, decode_body-len}
use exo_browser_core.Message.Framing.Progress.{
  read_varint-cases, decode-header_error, decode_body-header_error,
}

deliver-append :
    (buf rest more : List ℕ) (r : Result Message)
    → deliver (buf ++ more) (rest ++ more) r
      ≡ ((deliver buf rest r).0, (deliver buf rest r).1 ++ more)
unfolding deliver
deliver-append buf rest more (ok m) = refl
deliver-append buf rest more (err e) = refl

-- The answer on a longer buffer: the same, with the rest that much longer.
abbrev Longer :
    List ℕ → Result (Option Message) × List ℕ → Result (Option Message) × List ℕ → Type 0
Longer more before after = before.0 ≢ ok none → after ≡ (before.0, before.1 ++ more)

decode_sized-append :
    (t len : ℕ) (probe buf more : List ℕ)
    → Longer more (decode_sized t len probe buf) (decode_sized t len (probe ++ more) (buf ++ more))
unfolding decode_sized
decode_sized-append t len probe buf more = elim (Bool-cases (ltb max_message_bytes len)) [
  | inl big ↦ λ n. rw big
  | inr fits ↦ elim (Bool-cases (ltb (length probe) len)) [
    | inl cut ↦ λ n. absurd (n (rw (fits, cut)))
    | inr whole ↦ λ n.
        rw
          (
            fits,
            whole,
            still whole,
            take-append_le len probe more (ground arith),
            drop-append_le len probe more (ground arith),
          )
          (deliver-append buf (drop len probe) more (decode_payload t (take len probe)))
  ]
]
  where
    still : ltb (length probe) len ≡ false → ltb (length (probe ++ more)) len ≡ false
    still whole = ground (arith, length-append probe more)

header_error-append :
    (buf more : List ℕ)
    → Longer more (header_error unexpected_eof, buf) (header_error unexpected_eof, buf ++ more)
unfolding header_error
header_error-append buf more n = refl

decode_body-append :
    (t : ℕ) (probe buf more : List ℕ)
    → Longer more (decode_body t probe buf) (decode_body t (probe ++ more) (buf ++ more))
unfolding header_error
decode_body-append t probe buf more n = elim (read_varint-cases probe) [
  | inl (len, probe', r) ↦
      decode_body-len t (probe ++ more) (buf ++ more)
        (read_varint-append_ok probe more len probe' r)
      ∙ decode_sized-append t len probe' buf more
          (λ q. n (ap (λ a. a.0) (decode_body-len t probe buf r) ∙ q))
      ∙ ap (λ (a : Result (Option Message) × List ℕ). (a.0, a.1 ++ more))
          (sym (decode_body-len t probe buf r))
  | inr (inl r) ↦ absurd (n (ap (λ a. a.0) (decode_body-header_error t probe buf r)))
  | inr (inr r) ↦
      decode_body-header_error t (probe ++ more) (buf ++ more)
        (read_varint-append_overflow probe more r)
      ∙ ap (λ (a : Result (Option Message) × List ℕ). (a.0, a.1 ++ more))
          (sym (decode_body-header_error t probe buf r))
]

-- Unless the frame was not complete, bytes that arrive later change neither the message nor the
-- error, and are left behind what was left before.
pub decode-append :
    (buf more : List ℕ)
    → (decode buf).0 ≢ ok none
    → decode (buf ++ more) ≡ ((decode buf).0, (decode buf).1 ++ more)
unfolding header_error
decode-append buf more n = elim (read_varint-cases buf) [
  | inl (t, probe, r) ↦
      decode-tag (buf ++ more) (probe ++ more) (read_varint-append_ok buf more t probe r)
      ∙ decode_body-append t probe buf more (λ q. n (ap (λ a. a.0) (decode-tag buf probe r) ∙ q))
      ∙ ap (λ (a : Result (Option Message) × List ℕ). (a.0, a.1 ++ more))
          (sym (decode-tag buf probe r))
  | inr (inl r) ↦ absurd (n (ap (λ a. a.0) (decode-header_error buf r)))
  | inr (inr r) ↦
      decode-header_error (buf ++ more) (read_varint-append_overflow buf more r)
      ∙ ap (λ (a : Result (Option Message) × List ℕ). (a.0, a.1 ++ more))
          (sym (decode-header_error buf r))
]
