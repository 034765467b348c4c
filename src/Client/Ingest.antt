-- ===== src/Client/Ingest.antt =====
-- gutted-client/src/render.rs: `ingest_wire_bytes` on a buffer that starts with whole frames.
use exo_browser_core.Common.{
  subst, ℕ, zero, suc, ◌+◌, ◌-◌, ◌≤◌, ◌≡◌, refl, sym, ap, ◌∙◌, List, [], ◌∷◌, ◌++◌, append_assoc,
  length, length-append, drop, drop-append_left, none, some, arith,
}
use exo_browser_core.Wire.Reader.{read_varint}
use exo_browser_core.Wire.Result.{Error, Result, ok, err}
use exo_browser_core.Message.Types.{Message}
use exo_browser_core.Message.Decode.Frame.{header_error, decode}
use exo_browser_core.Message.Framing.Progress.{Consumes, decode-Consumes}
use exo_browser_core.Client.Events.{RenderEvent}
use exo_browser_core.Client.Session.{apply_message, ingest_loop, drained, ingest_wire_bytes}
use exo_browser_core.Client.Stream.{Decodes, stop, next}

-- A decoded message leaves a shorter buffer, a back part of the one before.
pub decode-shorter :
    {buf : List ℕ} {m : Message} {buf' : List ℕ}
    → decode buf ≡ (ok (some m), buf')
    → (used : List ℕ) × (buf ≡ used ++ buf') × (2 ≤ length used)
decode-shorter {buf = buf} e = subst (Consumes buf) e (decode-Consumes buf)

Decodes-front :
    {buf rest : List ℕ} {ms : List Message}
    → Decodes buf ms rest
    → (used : List ℕ) × (buf ≡ used ++ rest)
Decodes-front (stop buf) = ([], refl)
Decodes-front {rest = rest} (next e d) =
    let (used, p, h) = decode-shorter e in
    let (more, q) = Decodes-front d in
    (used ++ more, p ∙ ap (λ t. used ++ t) q ∙ sym (append_assoc used more rest))

-- An empty buffer is only incomplete.
not_refused : (rest : List ℕ) (x : Error) → decode rest ≡ (err x, rest) → length rest ≡ 0 → ⊥
unfolding decode header_error read_varint
not_refused [] x e h = let e0 : ok none ≡ err x = ap (λ a. a.0) e in absurd (ground (arith, e0))
not_refused (y ∷ rest) x e h = omega arith

pub drop-front :
    (used rest buf : List ℕ) → buf ≡ used ++ rest → drop (length buf - length rest) buf ≡ rest
drop-front used rest buf p =
    let n : length buf ≡ length used + length rest = ap length p ∙ length-append used rest in
    let k : length buf - length rest ≡ length used = omega (arith, n) in
    rw (k, p) (drop-append_left (length used) used rest refl)

module _ {S : Type 0} (handle_render_event : S → RenderEvent → S) where
  -- The messages applied in order.
  abbrev pub apply_all : S → List Message → S
  apply_all core [] = core
  apply_all core (m ∷ ms) = apply_all (apply_message handle_render_event core m) ms

  ingest_loop_message :
      (fuel count : ℕ) (core : S) (buf : List ℕ) (m : Message) (buf' : List ℕ)
      → decode buf ≡ (ok (some m), buf')
      → ingest_loop handle_render_event (suc fuel) buf count core
        ≡ ingest_loop handle_render_event fuel buf'
            (count + 1)
            (apply_message handle_render_event core m)
  unfolding ingest_loop
  ingest_loop_message fuel count core buf m buf' e =
      let e0 : (decode buf).0 ≡ ok (some m) = ap (λ a. a.0) e in
      let e1 : (decode buf).1 ≡ buf' = ap (λ a. a.1) e in rw (ingest_loop, e0, e1)

  ingest_loop_none :
      (fuel count : ℕ) (core : S) (rest : List ℕ)
      → decode rest ≡ (ok none, rest)
      → ingest_loop handle_render_event fuel rest count core ≡ (ok count, rest, core)
  unfolding ingest_loop
  ingest_loop_none zero count core rest e = refl
  ingest_loop_none (suc fuel) count core rest e =
      let e0 : (decode rest).0 ≡ ok none = ap (λ a. a.0) e in
      let e1 : (decode rest).1 ≡ rest = ap (λ a. a.1) e in rw (ingest_loop, e0, e1)

  ingest_loop_err :
      (fuel count : ℕ) (core : S) (rest : List ℕ) (x : Error)
      → decode rest ≡ (err x, rest)
      → ingest_loop handle_render_event (suc fuel) rest count core ≡ (err x, rest, core)
  unfolding ingest_loop
  ingest_loop_err fuel count core rest x e =
      let e0 : (decode rest).0 ≡ err x = ap (λ a. a.0) e in
      let e1 : (decode rest).1 ≡ rest = ap (λ a. a.1) e in rw (ingest_loop, e0, e1)

  -- The loop ends where the frames end, by what it finds there.
  ingest_loop-Decodes :
      (fuel count : ℕ) (core : S) {buf rest : List ℕ} {ms : List Message} (r : ℕ → Result ℕ)
      → Decodes buf ms rest
      → length buf ≤ fuel
      → ((f c : ℕ) (s : S)
          → length rest ≤ f
          → ingest_loop handle_render_event f rest c s ≡ (r c, rest, s))
      → ingest_loop handle_render_event fuel buf count core
        ≡ (r (count + length ms), rest, apply_all core ms)
  ingest_loop-Decodes fuel count core r (stop buf) h last =
      let e : count + 0 ≡ count = omega arith in rw e (last fuel count core h)
  ingest_loop-Decodes zero count core r (next e d) h last =
      let (used, p, k) = decode-shorter e in
      absurd (omega (arith, ap length p, length-append used _))
  ingest_loop-Decodes (suc fuel) count core {ms = m ∷ ms} r (next {buf' = buf'} e d) h last =
      let (used, p, k) = decode-shorter e in
      let q : count + suc (length ms) ≡ count + 1 + length ms = omega arith in
      rw q (
        ingest_loop_message fuel count core _ m buf' e
        ∙ ingest_loop-Decodes fuel (count + 1) (apply_message handle_render_event core m) r d
            (omega (arith, ap length p, length-append used buf')) last)

  -- A buffer of whole frames with an incomplete one behind them: each message is applied once, in
  -- order, and exactly the incomplete part stays in the buffer.
  pub ingest-Decodes :
      (core : S) {buf rest : List ℕ} {ms : List Message}
      → Decodes buf ms rest
      → decode rest ≡ (ok none, rest)
      → ingest_wire_bytes handle_render_event core buf ≡ (ok (length ms), rest, apply_all core ms)
  unfolding ingest_wire_bytes drained
  ingest-Decodes core {buf = buf} {rest = rest} {ms = ms} d e =
      let (used, p) = Decodes-front d in
      let z : 0 + length ms ≡ length ms = omega arith in
      ap (drained buf) (
        ingest_loop-Decodes (length buf) 0 core ok d (omega arith)
          (λ f c s h. ingest_loop_none f c s rest e))
      ∙ rw z (ap (λ l. (ok (length ms), l, apply_all core ms)) (drop-front used rest buf p))

  -- A buffer of whole frames with one behind them that `decode` refuses: the error is returned, the
  -- messages have been applied, and all their frames are still in the buffer.
  pub ingest-error :
      (core : S) {buf rest : List ℕ} {ms : List Message} (x : Error)
      → Decodes buf ms rest
      → decode rest ≡ (err x, rest)
      → ingest_wire_bytes handle_render_event core buf ≡ (err x, buf, apply_all core ms)
  unfolding ingest_wire_bytes drained
  ingest-error core {buf = buf} {rest = rest} {ms = ms} x d e =
      ap (drained buf) (ingest_loop-Decodes (length buf) 0 core (λ _. err x) d (omega arith) last)
    where
      last :
          (f c : ℕ) (s : S)
          → length rest ≤ f
          → ingest_loop handle_render_event f rest c s ≡ (err x, rest, s)
      last zero c s h = absurd (not_refused rest x e (omega arith))
      last (suc f) c s h = ingest_loop_err f c s rest x e
