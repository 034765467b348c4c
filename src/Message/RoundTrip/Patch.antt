-- ===== src/Message/RoundTrip/Patch.antt =====
-- gutted-proto/src/lib.rs: the length that `encode` puts in front of a payload afterwards.
use exo_browser_core.Common.{
  if◌then◌else◌, ◌≤◌, ℕ, zero, suc, ◌+◌, ◌-◌, ◌/◌, ◌%◌, ◌^◌, ◌<◌, ◌≡◌, refl, sym, ap, ap₂, ◌∙◌,
  Option, some, List, [], ◌∷◌, ◌++◌, append_assoc, append-nil, length, length-append, length-take,
  length-drop, length-replicate, take, drop, take-append_left, drop-append_left, take-append-drop,
  replicate, bit_and, bit_or, ltb, le→leb, Bool-cases, ltb→lt, inl, inr, Acc, lt_wf, arith,
}
use exo_browser_core.Common.Bits.{mask_127, set_top}
use exo_browser_core.Wire.Varint.{leb128, length-leb128}
use exo_browser_core.Wire.RoundTrip.{>>-some}
use exo_browser_core.Message.Encode.{overwrite, len_loop, widen, patch_len}
use native.Mathlib.Nat.{mod-eq_of_lt}

-- The bytes that are overwritten are the middle of the buffer.
overwrite_middle :
    (at : ℕ) (bytes a b c : List ℕ)
    → at ≡ length a
    → length b ≡ length bytes
    → overwrite at bytes (a ++ (b ++ c)) ≡ some (a ++ (bytes ++ c))
unfolding overwrite
overwrite_middle at bytes a b c p q =
    rw (le→leb _ _ room, take-append_left at a (b ++ c) (sym p), behind)
  where
    room : at + length bytes ≤ length (a ++ (b ++ c))
    room = omega (arith, length-append a (b ++ c), length-append b c)

    behind : drop (at + length bytes) (a ++ (b ++ c)) ≡ c
    behind =
        ap (drop (at + length bytes)) (sym (append_assoc a b c))
        ∙ drop-append_left (at + length bytes) (a ++ b) c (omega (arith, length-append a b))

last_byte : (v : ℕ) → v < 128 → bit_and v 0x7f % 256 ≡ v
last_byte v h = omega (arith, mask_127 v)

inner_byte : (v : ℕ) → bit_or (bit_and v 0x7f % 256) 0x80 ≡ v % 128 + 128
inner_byte v =
    let e : bit_and v 0x7f % 256 ≡ v % 128 = omega (arith, mask_127 v) in
    rw e (set_top _ (omega arith))

-- One round of the loop on the last group, and on a group with more to come.
len_loop_last :
    (v n : ℕ) (buf buf' : List ℕ) (w : Acc ◌<◌ v)
    → v < 128
    → overwrite n (v ∷ []) buf ≡ some buf'
    → len_loop buf n v w ≡ some (buf', n + 1)
unfolding len_loop
len_loop_last v n buf buf' (Acc.intro _ smaller) h e = ground (arith, last_byte v h)

len_loop_more :
    (v n : ℕ) (buf buf' : List ℕ) (r : Option (List ℕ × ℕ)) (w : Acc ◌<◌ v)
    → 128 ≤ v
    → overwrite n ((v % 128 + 128) ∷ []) buf ≡ some buf'
    → ((u : Acc ◌<◌ (v / 128)) → len_loop buf' (n + 1) (v / 128) u ≡ r)
    → len_loop buf n v w ≡ r
unfolding len_loop
len_loop_more v n buf buf' r (Acc.intro _ smaller) h e rest = grind (arith, inner_byte v, rest)

-- The slots of `len_buf` that are left behind the bytes of `v`.
spare : ℕ → ℕ → List ℕ
spare zero v = []
spare (suc k) v = let rest = spare k (v / 128) in if ltb v 128 then replicate (suc k) 0 else rest

-- The loop fills the buffer with the LEB128 form.
len_loop-leb128 :
    (k v : ℕ) (done : List ℕ) (w : Acc ◌<◌ v)
    → v < 128 ^ suc k
    → len_loop (done ++ replicate (suc k) 0) (length done) v w
      ≡ some (done ++ (leb128 k v ++ spare k v), length done + length (leb128 k v))
unfolding leb128 spare
len_loop-leb128 zero v done w h =
    len_loop_last v (length done) _ _ w (omega arith)
      (overwrite_middle (length done) (v ∷ []) done (0 ∷ []) [] refl refl)
len_loop-leb128 (suc k) v done w h = elim (Bool-cases (ltb v 128)) [
  | inl small ↦ rw small (
      len_loop_last v (length done) _ _ w (ltb→lt _ _ small)
        (overwrite_middle (length done) (v ∷ []) done (0 ∷ []) (replicate (suc k) 0) refl refl))
  | inr big ↦ rw big (
      len_loop_more v (length done) _ _ _ w (ground arith)
        (overwrite_middle (length done) ((v % 128 + 128) ∷ []) done (0 ∷ []) (replicate (suc k) 0)
          refl refl)
        λ u.
          ap (λ (b : List ℕ). len_loop b (length done + 1) (v / 128) u)
            (sym (append_assoc done (_ ∷ []) _))
          ∙ ap
              (λ (n : ℕ).
                len_loop ((done ++ ((v % 128 + 128) ∷ [])) ++ replicate (suc k) 0) n (v / 128) u)
              (sym (length-append done ((v % 128 + 128) ∷ [])))
          ∙ len_loop-leb128 k (v / 128) (done ++ ((v % 128 + 128) ∷ [])) u (omega arith)
          ∙ ap₂ (λ (b : List ℕ) (n : ℕ). some (b, n))
              (append_assoc done ((v % 128 + 128) ∷ []) (leb128 k (v / 128) ++ spare k (v / 128)))
              (omega (arith, length-append done ((v % 128 + 128) ∷ []))))
]

-- The payload moves up, and the length takes the room in front of it.
widen_lem :
    (pre payload bytes rest : List ℕ)
    → 1 ≤ length bytes
    → widen (length pre) (length payload) (bytes ++ rest, length bytes) (pre ++ (0 ∷ payload))
      ≡ some (pre ++ (bytes ++ payload))
unfolding widen
widen_lem pre payload bytes rest h =
    rw (moved, take-append_left (length bytes) bytes rest refl)
      (>>-some (overwrite (length pre + length bytes) payload) (overwrite (length pre) bytes) first
        ∙ ap (overwrite (length pre) bytes) (append_assoc pre (take (length bytes) tail) _)
        ∙ overwrite_middle (length pre) bytes pre (take (length bytes) tail) (payload ++ []) refl
            room
        ∙ rw append-nil)
  where
    tail : List ℕ
    tail = 0 ∷ (payload ++ replicate (length bytes - 1) 0)

    length_tail : length tail ≡ length payload + length bytes
    length_tail = omega (
      arith,
      length-append payload (replicate (length bytes - 1) 0),
      length-replicate {A = ℕ} (length bytes - 1) 0,
    )

    room : length (take (length bytes) tail) ≡ length bytes
    room = omega (arith, length_tail, length-take (length bytes) tail)

    moved : take (length payload) (drop (length pre + 1) (pre ++ (0 ∷ payload))) ≡ payload
    moved =
        ap (λ t. take (length payload) (drop (length pre + 1) t))
          (sym (append_assoc pre (0 ∷ []) payload))
        ∙ ap (take (length payload)) (
            drop-append_left (length pre + 1) (pre ++ (0 ∷ [])) payload
              (length-append pre (0 ∷ [])))
        ∙ ap (take (length payload)) (sym (append-nil payload))
        ∙ take-append_left (length payload) payload [] refl

    whole :
        (pre ++ (0 ∷ payload)) ++ replicate (length bytes - 1) 0
        ≡ (pre ++ take (length bytes) tail) ++ (drop (length bytes) tail ++ [])
    whole =
        append_assoc pre (0 ∷ payload) (replicate (length bytes - 1) 0)
        ∙ ap (λ t. pre ++ t) (sym (take-append-drop (length bytes) tail))
        ∙ sym (append_assoc pre (take (length bytes) tail) (drop (length bytes) tail))
        ∙ ap (λ t. (pre ++ take (length bytes) tail) ++ t)
            (sym (append-nil (drop (length bytes) tail)))

    first :
        overwrite
          (length pre + length bytes)
          payload
          ((pre ++ (0 ∷ payload)) ++ replicate (length bytes - 1) 0)
        ≡ some ((pre ++ take (length bytes) tail) ++ (payload ++ []))
    first =
        ap (overwrite (length pre + length bytes) payload) whole
        ∙ overwrite_middle (length pre + length bytes) payload (pre ++ take (length bytes) tail)
            (drop (length bytes) tail) []
            (omega (arith, length-append pre (take (length bytes) tail), room))
            (omega (arith, length-drop (length bytes) tail, length_tail))

-- The placeholder becomes the LEB128 form of the length of what follows it.
pub patch_len_lem :
    (pre payload : List ℕ)
    → length payload < 2 ^ 32
    → patch_len (length pre) (pre ++ (0 ∷ payload))
      ≡ some (pre ++ (leb128 4 (length payload) ++ payload))
unfolding patch_len
patch_len_lem pre payload h = rw count (elim (Bool-cases (ltb (length payload) 128)) [
  | inl small ↦ rw small (
      overwrite_middle (length pre) (length payload ∷ []) pre (0 ∷ []) payload refl refl
      ∙ unfold leb128 in rw small)
  | inr big ↦
      rw (big, mod-eq_of_lt h)
        (rw (filled, count)
          (widen_lem pre payload (leb128 4 (length payload)) (spare 4 (length payload))
            (length-leb128 4 (length payload)).0))
])
  where
    count : length (pre ++ (0 ∷ payload)) - (length pre + 1) ≡ length payload
    count = omega (arith, length-append pre (0 ∷ payload))

    filled :
        len_loop (replicate 5 0) 0 (length payload) (lt_wf.apply (length payload))
        ≡ some (
          leb128 4 (length payload) ++ spare 4 (length payload),
          length (leb128 4 (length payload)),
        )
    filled =
        len_loop-leb128 4 (length payload) [] (lt_wf.apply (length payload)) (omega arith)
        ∙ ap (λ (n : ℕ). some (leb128 4 (length payload) ++ spare 4 (length payload), n))
            (omega arith)
