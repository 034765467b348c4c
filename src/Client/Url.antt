-- ===== src/Client/Url.antt =====
-- gutted-client/src/render.rs: `canonicalize_url`. A text is the list of its UTF-8 bytes.
pub mod Trim
pub mod Canonical
use exo_browser_core.Common.{
  ℕ, zero, suc, ◌+◌, ◌-◌, leb, ltb, ◌==◌, ◌||◌, ◌&&◌, not, Bool, true, false, Option, none, some,
  List, [], ◌∷◌, ◌++◌, if◌then◌else◌,
}
use exo_browser_core.Client.Session.{bytes_of}
use exo_browser_core.Client.Core.Tabs.{is_empty, starts_with}
use mathlib.Core.List.{reverse}

abbrev pub is_within : ℕ → ℕ → ℕ → Bool
is_within lo hi c = leb lo c && leb c hi

-- The white space of Unicode in one byte, in two, and in three.
unfoldable pub is_white : ℕ → Bool
is_white a = is_within 9 13 a || a == 32

unfoldable pub is_white_pair : ℕ → ℕ → Bool
is_white_pair a b = a == 194 && (b == 133 || b == 160)

unfoldable pub is_white_triple : ℕ → ℕ → ℕ → Bool
is_white_triple a b c =
    (a == 225 && (b == 154 && c == 128))
    || (a == 226
        && (b == 128 && (is_within 128 138 c || c == 168 || c == 169 || c == 175)
            || (b == 129 && c == 159)))
    || (a == 227 && (b == 128 && c == 128))

-- How many bytes the white space at the front has; `white_back` reads a reversed text.
unfoldable pub white_front : List ℕ → ℕ
unfolding is_white is_white_pair is_white_triple
white_front [] = 0
white_front (a ∷ []) = if is_white a then 1 else 0
white_front (a ∷ b ∷ []) = if is_white a then 1 else if is_white_pair a b then 2 else 0
white_front (a ∷ b ∷ c ∷ s) =
    if is_white a
    then 1
    else if is_white_pair a b
    then 2
    else if is_white_triple a b c
    then 3
    else 0

unfoldable pub white_back : List ℕ → ℕ
unfolding is_white is_white_pair is_white_triple
white_back [] = 0
white_back (c ∷ []) = if is_white c then 1 else 0
white_back (c ∷ b ∷ []) = if is_white c then 1 else if is_white_pair b c then 2 else 0
white_back (c ∷ b ∷ a ∷ s) =
    if is_white c
    then 1
    else if is_white_pair b c
    then 2
    else if is_white_triple a b c
    then 3
    else 0

-- Leaves out `skip` bytes, and then white space as long as there is some.
unfoldable pub trim_front : (List ℕ → ℕ) → ℕ → List ℕ → List ℕ
trim_front white skip [] = []
trim_front white (suc skip) (b ∷ s) = trim_front white skip s
trim_front white zero (b ∷ s) =
    let n = white (b ∷ s) in let rest = trim_front white (n - 1) s in if n == 0 then b ∷ s else rest

-- `str::trim`.
unfoldable pub trim : List ℕ → List ℕ
unfolding trim_front white_front white_back
trim s = reverse (trim_front white_back 0 (reverse (trim_front white_front 0 s)))

-- `s.contains(c)` and `s.replace(' ', "+")`.
unfoldable pub contains : ℕ → List ℕ → Bool
contains c [] = false
contains c (b ∷ s) = b == c || contains c s

unfoldable pub plus_for_space : List ℕ → List ℕ
plus_for_space [] = []
plus_for_space (b ∷ s) = (if b == 32 then 43 else b) ∷ plus_for_space s

-- `s.find(c)`, as the text in front of the first `c` and the text behind it.
unfoldable pub split_at : ℕ → List ℕ → Option (List ℕ × List ℕ)
split_at c [] = none
split_at c (b ∷ s) =
    let rest = split_at c s in
    if b == c
    then some ([], s)
    else elim rest [ none ↦ none | some (front, back) ↦ some (b ∷ front, back) ]

-- `rest.split('/').next().unwrap_or("")`.
unfoldable pub port_part : List ℕ → List ℕ
port_part [] = []
port_part (b ∷ s) = let rest = port_part s in if b == 47 then [] else b ∷ rest

unfoldable pub all_of : (ℕ → Bool) → List ℕ → Bool
all_of p [] = true
all_of p (b ∷ s) = p b && all_of p s

abbrev pub is_digit : ℕ → Bool
is_digit c = is_within 48 57 c

abbrev pub is_alphabetic : ℕ → Bool
is_alphabetic c = is_within 65 90 c || is_within 97 122 c

-- `c.is_ascii_alphanumeric() || matches!(c, '+' | '-' | '.')`.
unfoldable pub is_scheme_char : ℕ → Bool
is_scheme_char c = is_alphabetic c || is_digit c || c == 43 || c == 45 || c == 46

unfoldable pub starts_alphabetic : List ℕ → Bool
starts_alphabetic [] = false
starts_alphabetic (c ∷ s) = is_alphabetic c

-- `is_port` and `scheme_ok`, on the texts in front of the colon and behind it.
unfoldable pub is_port : List ℕ → Bool
unfolding is_empty port_part all_of
is_port rest = not (is_empty (port_part rest)) && all_of is_digit (port_part rest)

unfoldable pub scheme_ok : List ℕ → List ℕ → Bool
unfolding is_empty is_port all_of is_scheme_char starts_alphabetic
scheme_ok scheme rest =
    not (is_empty scheme)
    && (not (is_port rest) && (all_of is_scheme_char scheme && starts_alphabetic scheme))

unfoldable pub has_scheme : List ℕ → Bool
unfolding split_at scheme_ok
has_scheme s = elim (split_at 58 s) [ none ↦ false | some (scheme, rest) ↦ scheme_ok scheme rest ]

abbrev pub equals : List ℕ → List ℕ → Bool
equals [] [] = true
equals (a ∷ s) (b ∷ t) = a == b && equals s t
equals _ _ = false

unfoldable pub is_local : List ℕ → Bool
unfolding starts_with
is_local s =
    starts_with (bytes_of "localhost:") s
    || starts_with (bytes_of "localhost/") s
    || equals s (bytes_of "localhost")
    || starts_with (bytes_of "127.0.0.1:") s
    || starts_with (bytes_of "127.0.0.1/") s
    || equals s (bytes_of "127.0.0.1")

abbrev pub search_prefix : List ℕ
search_prefix = bytes_of "https://duckduckgo.com/?q="

-- Behind `trim`.
unfoldable pub canonical : List ℕ → List ℕ
unfolding is_empty contains plus_for_space is_local has_scheme
canonical s =
    if is_empty s
    then bytes_of "about:blank"
    else if contains 32 s
    then search_prefix ++ plus_for_space s
    else if is_local s
    then bytes_of "http://" ++ s
    else if has_scheme s
    then s
    else if not (contains 46 s)
    then search_prefix ++ s
    else bytes_of "https://" ++ s

unfoldable pub canonicalize_url : List ℕ → List ℕ
unfolding trim canonical
canonicalize_url raw = canonical (trim raw)
