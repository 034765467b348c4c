-- ===== src/Pixel/Lz4/Bounds.antt =====
-- gutted-proto/src/lib.rs: how long the output of `lz4_decode` and of `read_payload_geom` is.
use exo_browser_core.Common.{
  ℕ, ◌≤◌, ◌≡◌, refl, Bool, true, false, Option, none, some, List, length, take, ltb, ◌==◌,
  if◌then◌else◌, arith,
}
use exo_browser_core.Wire.Result.{Error, Result, ok, err, try, invalid_value}
use exo_browser_core.Wire.Reader.{from_le_bytes}
use exo_browser_core.Pixel.Lz4.Decode.{max_message_bytes, lz4_decode, unexpected}

-- What a checked length leaves of a result.
checked_length :
    (n : ℕ) (r : Result (List ℕ)) (out : List ℕ)
    → try r (λ o. if length o == n then ok o else err invalid_value) ≡ ok out
    → length out ≡ n
checked_length n (err x) out e = absurd (ground (arith, e))
checked_length n (ok o) out e = ground (arith, e)

-- A guard that a success has passed.
passed_guard :
    (b : Bool) (x : Error) (r : Result (List ℕ)) (out : List ℕ)
    → (if b then err x else r) ≡ ok out
    → (b ≡ false) × (r ≡ ok out)
passed_guard true x r out e = absurd (ground (arith, e))
passed_guard false x r out e = (refl, e)

-- A length that was asked for is the length of the output.
abbrev pub Expected : Option ℕ → ℕ → Type 0
Expected none n = n ≤ max_message_bytes
Expected (some e) n = (n ≡ e) × (n ≤ max_message_bytes)

unexpected-Expected :
    (expected_len : Option ℕ) (n : ℕ)
    → unexpected expected_len n ≡ false
    → n ≤ max_message_bytes
    → Expected expected_len n
unfolding unexpected
unexpected-Expected none n e h = h
unexpected-Expected (some m) n e h = (ground arith, h)

-- What `lz4_decode` gives is at most 16 MiB long, and has the expected length where there is one.
pub lz4_decode-Expected :
    (src : List ℕ) (expected_len : Option ℕ) (out : List ℕ)
    → lz4_decode src expected_len ≡ ok out
    → Expected expected_len (length out)
unfolding lz4_decode
lz4_decode-Expected src expected_len out e =
    let n = from_le_bytes (take 4 src) in
    let (_, e1) = passed_guard (ltb (length src) 4) _ _ out e in
    let (small, e2) = passed_guard (ltb max_message_bytes n) _ _ out e1 in
    let (expected, e3) = passed_guard (unexpected expected_len n) _ _ out e2 in
    let len : length out ≡ n = checked_length n _ out e3 in
    rw len (unexpected-Expected expected_len n expected (ground (arith, small)))
