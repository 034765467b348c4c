-- ===== src/Host/Reader/Chunks.antt =====
-- gutted-host-rs/src/main.rs: how the bytes are cut into chunks does not matter to the host.
use exo_browser_core.Common.{
  ℕ, zero, suc, ◌-◌, ◌<◌, ◌≡◌, ◌≢◌, refl, sym, ap, ◌∙◌, Option, none, some, List, [], ◌∷◌, ◌++◌,
  length, drop, append_assoc, append-nil, arith,
}
use exo_browser_core.Wire.Result.{Error, Result, ok, err}
use exo_browser_core.Message.Types.{Message}
use exo_browser_core.Message.Decode.Frame.{decode, header_error}
use exo_browser_core.Wire.Reader.{read_varint}
use exo_browser_core.Message.Framing.Append.{decode-append}
use exo_browser_core.Client.Ingest.{decode-shorter, drop-front}
use exo_browser_core.Client.Stream.{Decodes, stop, next}
use exo_browser_core.Host.Engine.{Effect}
use exo_browser_core.Host.State.{HostState}
use exo_browser_core.Host.Dispatch.{Pointer, on_ctrl}
use exo_browser_core.Host.Reader.{
  Arrival, Next, on_decoded, read_next, message_loop, ctrl_loop, tcp_turn, tcp_loop, input_end,
  input_turn, input_loop,
}

abbrev pub joined : List (List ℕ) → List ℕ
joined [] = []
joined (c ∷ cs) = c ++ joined cs

-- The chunks arrive, and then the stream ends.
abbrev pub arriving : List (List ℕ) → List Arrival
arriving [] = Arrival.closed ∷ []
arriving (c ∷ cs) = Arrival.bytes c ∷ arriving cs

abbrev Decoded : Type 0
Decoded = Result (Option Message) × List ℕ

data Seen : Decoded → Type 0 where
  partial : (rest : List ℕ) → Seen (ok none, rest)
  whole : (m : Message) (rest : List ℕ) → Seen (ok (some m), rest)
  refused : (e : Error) (rest : List ℕ) → Seen (err e, rest)

seen : (d : Decoded) → Seen d
seen (ok none, rest) = Seen.partial rest
seen (ok (some m), rest) = Seen.whole m rest
seen (err e, rest) = Seen.refused e rest

abbrev message_of : Message → Decoded → Message
message_of d (ok (some m), rest) = m
message_of d _ = d

abbrev longer : List ℕ → Decoded → Decoded
longer more d = (d.0, d.1 ++ more)

abbrev got : Message → List ℕ → Decoded
got m rest = (ok (some m), rest)

-- The message that a buffer and the chunks behind it start with is the one that is read, and what
-- is left over of them is what is left for the next call.
pub read_next-message :
    (cs : List (List ℕ)) (inbuf : List ℕ) (m : Message) (rest : List ℕ)
    → decode (inbuf ++ joined cs) ≡ (ok (some m), rest)
    → (cs' : List (List ℕ)) × (inbuf' : List ℕ) × (read_next (arriving cs) inbuf
        ≡ Next.message m inbuf' (arriving cs'))
      × (inbuf' ++ joined cs' ≡ rest)
unfolding read_next on_decoded
read_next-message [] inbuf m rest e =
    let e' : decode inbuf ≡ (ok (some m), rest) = ap decode (sym (append-nil inbuf)) ∙ e in
    let (used, front, _) = decode-shorter e' in
    let left : drop (length inbuf - length rest) inbuf ≡ rest = drop-front used rest inbuf front in
    ([], rest, rw (e', left) refl, append-nil rest)
read_next-message (c ∷ cs) inbuf m rest e =
    read_on (decode inbuf) (seen (decode inbuf)) refl
      (read_next-message cs (inbuf ++ c) m rest (ap decode (append_assoc inbuf c (joined cs)) ∙ e))
  where
    more : List ℕ
    more = c ++ joined cs

    Reads : Next → Type 0
    Reads result =
        (cs' : List (List ℕ)) × (inbuf' : List ℕ) × (result ≡ Next.message m inbuf' (arriving cs'))
        × (inbuf' ++ joined cs' ≡ rest)

    on_whole : (d : Decoded) → decode inbuf ≡ d → d.0 ≢ ok none → longer more d ≡ got m rest
    on_whole d p n =
        sym (
          decode-append inbuf more (λ q. n (sym (ap (λ (x : Decoded). x.0) p) ∙ q))
          ∙ ap (longer more) p)
        ∙ e

    read_on :
        (d : Decoded)
        → Seen d
        → decode inbuf ≡ d
        → Reads (read_next (arriving cs) (inbuf ++ c))
        → Reads (
            on_decoded inbuf
              (Arrival.bytes c ∷ arriving cs)
              (read_next (arriving cs) (inbuf ++ c))
              d)
    read_on _ (Seen.partial left) p again = again
    read_on _ (Seen.whole m' rest') p again =
        let one = on_whole (ok (some m'), rest') p (λ q. ground (arith, q)) in
        let (used, front, _) = decode-shorter p in
        let left : drop (length inbuf - length rest') inbuf ≡ rest' =
          drop-front used rest' inbuf front in
        let same : m' ≡ m = ap (message_of m') one in
        (c ∷ cs, rest', rw (left, same) refl, ap (λ (x : Decoded). x.1) one)
    read_on _ (Seen.refused x left) p again =
        let one = on_whole (err x, left) p (λ q. ground (arith, q)) in
        let clash = ap (λ (d : Decoded). d.0) one in absurd (ground (arith, clash))

no_bytes : (xs ys : List ℕ) → xs ++ ys ≡ [] → (xs ≡ []) × (ys ≡ [])
no_bytes [] ys h = (refl, h)
no_bytes (x ∷ xs) ys h = absurd (omega (arith, ap length h))

-- Without a byte there is no message, and the end of the stream is a clean one.
read_next-ended : (cs : List (List ℕ)) → joined cs ≡ [] → read_next (arriving cs) [] ≡ Next.ended
unfolding read_next on_decoded decode read_varint header_error
read_next-ended [] h = refl
read_next-ended (c ∷ cs) h =
    let (first, others) = no_bytes c (joined cs) h in rw first (read_next-ended cs others)

module _ {S : Type 0} (handle : ℕ → Message → S → S × List Effect) where
  -- The messages one after the other, each at its time.
  unfoldable pub handle_all : ℕ → (ℕ → ℕ) → List Message → S → S × List Effect
  handle_all n clock [] s = (s, [])
  handle_all zero clock (m ∷ ms) s = (s, [])
  handle_all (suc n) clock (m ∷ ms) s =
      let (s', effects) = handle (clock n) m s in
      let (s'', more) = handle_all n clock ms s' in (s'', effects ++ more)

  message_loop-follows :
      (fuel : ℕ) (clock : ℕ → ℕ) (cs : List (List ℕ)) (inbuf buf : List ℕ) (ms : List Message)
      (rest : List ℕ) (s : S)
      → length ms < fuel
      → Decodes buf ms rest
      → inbuf ++ joined cs ≡ buf
      → rest ≡ []
      → message_loop handle fuel clock (arriving cs) inbuf s
        ≡ ((handle_all fuel clock ms s).0, (handle_all fuel clock ms s).1, Next.ended)
  unfolding message_loop handle_all
  message_loop-follows zero clock cs inbuf buf ms rest s h d e z = absurd (omega arith)
  message_loop-follows (suc fuel) clock cs inbuf _ _ _ s h (stop buf) e z =
      let (no_inbuf, no_chunks) = no_bytes inbuf (joined cs) (e ∙ z) in
      rw (no_inbuf, message_loop, read_next-ended cs no_chunks) refl
  message_loop-follows (suc fuel) clock cs inbuf _ _ rest s h
        (next {buf = buf} {m = m} {buf' = buf'} {ms = ms} reads d) e z =
      let (cs', inbuf', r, left) = read_next-message cs inbuf m buf' (ap decode e ∙ reads) in
      let later =
        message_loop-follows fuel clock cs' inbuf' buf' ms rest (handle (clock fuel) m s).0
          (omega arith) d left z in
      rw (message_loop, r, later) refl

abbrev pub ctrl_all : ℕ → (ℕ → ℕ) → List Message → HostState → HostState × List Effect
ctrl_all = handle_all on_ctrl

abbrev pub tcp_all :
    ℕ → (ℕ → ℕ) → List Message → Pointer × HostState → (Pointer × HostState) × List Effect
tcp_all = handle_all tcp_turn

abbrev pub input_all : ℕ → List Message → Pointer × HostState → (Pointer × HostState) × List Effect
input_all fuel = handle_all input_turn fuel (λ _. 0)

-- A stream of whole frames, in whatever chunks it arrives: with fuel for each message, the loop of
-- the control stream, that of the TCP connection and that of the input stream each do what the
-- messages ask, each once and in order, and end without an error.
pub message_loop-Decodes :
    (fuel : ℕ) (clock : ℕ → ℕ) (cs : List (List ℕ)) (ms : List Message) (last : Pointer)
    (s : HostState)
    → length ms < fuel
    → Decodes (joined cs) ms []
    → (ctrl_loop fuel clock (arriving cs) [] s
        ≡ ((ctrl_all fuel clock ms s).0, (ctrl_all fuel clock ms s).1, Next.ended))
      × (tcp_loop fuel clock (arriving cs) [] (last, s)
          ≡ ((tcp_all fuel clock ms (last, s)).0, (tcp_all fuel clock ms (last, s)).1, Next.ended))
      × (input_loop fuel (arriving cs) [] (last, s)
          ≡ ((input_all fuel ms (last, s)).0, (input_all fuel ms (last, s)).1, Next.ended))
unfolding ctrl_loop tcp_loop input_loop input_end
message_loop-Decodes fuel clock cs ms last s h d = (
  message_loop-follows on_ctrl fuel clock cs [] (joined cs) ms [] s h d refl refl,
  message_loop-follows tcp_turn fuel clock cs [] (joined cs) ms [] (last, s) h d refl refl,
  rw (message_loop-follows input_turn fuel (λ _. 0) cs [] (joined cs) ms [] (last, s) h d refl refl)
      refl,
)
