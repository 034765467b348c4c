-- ===== src/Wire/Utf8.antt =====
-- What `core::str::from_utf8` accepts: the well-formed byte sequences of the Unicode standard.
use exo_browser_core.Common.{
  ℕ, zero, suc, Bool, true, false, ◌&&◌, Option, none, some, List, [], ◌∷◌, leb, ltb, ◌==◌,
  if◌then◌else◌,
}

-- What a leading byte announces: the continuation bytes to come, and the range of the first.
utf8_lead : ℕ → Option (ℕ × ℕ × ℕ)
utf8_lead b =
    if ltb b 0x80
    then some (0, 0x80, 0xBF)
    else if ltb b 0xC2
    then none
    else if ltb b 0xE0
    then some (1, 0x80, 0xBF)
    else if b == 0xE0
    then some (2, 0xA0, 0xBF)
    else if b == 0xED
    then some (2, 0x80, 0x9F)
    else if ltb b 0xF0
    then some (2, 0x80, 0xBF)
    else if b == 0xF0
    then some (3, 0x90, 0xBF)
    else if ltb b 0xF4
    then some (3, 0x80, 0xBF)
    else if b == 0xF4
    then some (3, 0x80, 0x8F)
    else none

utf8_run : ℕ → ℕ → ℕ → List ℕ → Bool
utf8_run zero lo hi [] = true
utf8_run (suc n) lo hi [] = false
utf8_run zero lo hi (b ∷ bs) = elim (utf8_lead b) [
  | none ↦ false
  | some (n, lo', hi') ↦ utf8_run n lo' hi' bs
]
utf8_run (suc n) lo hi (b ∷ bs) = leb lo b && leb b hi && utf8_run n 0x80 0xBF bs

unfoldable pub valid_utf8 : List ℕ → Bool
unfolding utf8_run utf8_lead
valid_utf8 s = utf8_run 0 0x80 0xBF s
