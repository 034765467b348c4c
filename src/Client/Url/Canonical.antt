-- ===== src/Client/Url/Canonical.antt =====
-- gutted-client/src/render.rs: what `canonicalize_url` gives is an address with a scheme, which it
-- leaves alone.
use exo_browser_core.Common.{
  ℕ, ◌<◌, ◌==◌, ◌≡◌, refl, ap, ◌∙◌, true, false, List, [], ◌∷◌, ◌++◌, Bool-cases, inl, inr, arith,
}
use exo_browser_core.Client.Session.{bytes_of}
use exo_browser_core.Client.Core.Tabs.{is_empty}
use exo_browser_core.Client.Url.{
  white_front, white_back, trim, contains, plus_for_space, has_scheme, is_local, search_prefix,
  canonical, canonicalize_url,
}
use exo_browser_core.Client.Url.Trim.{
  IsTrimmed, trim_lem, trim-IsTrimmed, white_back-append, white_back-plus_for_space,
  reverse-plus_for_space,
}
use mathlib.Core.List.{reverse, reverse-append}

-- An address that is left alone.
record IsCanonical (r : List ℕ) : Type 0 where
  trimmed : IsTrimmed r
  some_text : is_empty r ≡ false
  no_space : contains 32 r ≡ false
  elsewhere : is_local r ≡ false
  schemed : has_scheme r ≡ true

canonicalize_url-canonical : (r : List ℕ) → IsCanonical r → canonicalize_url r ≡ r
unfolding canonicalize_url canonical
canonicalize_url-canonical r v =
    ap canonical (trim_lem r v.trimmed)
    ∙ rw (canonical, v.some_text, v.no_space, v.elsewhere, v.schemed) refl

-- A text that is put in front: it ends in two bytes of ASCII, and makes the whole an address.
record IsPrefix (p : List ℕ) : Type 0 where
  last : ℕ
  second : ℕ
  before : List ℕ
  reversed : reverse p ≡ last ∷ second ∷ before
  closed : white_back (last ∷ second ∷ before) ≡ 0
  last_ascii : last < 128
  second_ascii : second < 128
  begun : (s : List ℕ) → white_front (p ++ s) ≡ 0
  some_text : (s : List ℕ) → is_empty (p ++ s) ≡ false
  no_space : (s : List ℕ) → contains 32 (p ++ s) ≡ contains 32 s
  elsewhere : (s : List ℕ) → is_local (p ++ s) ≡ false
  schemed : (s : List ℕ) → has_scheme (p ++ s) ≡ true

prefixed-IsCanonical :
    (p s : List ℕ)
    → IsPrefix p
    → white_back (reverse s) ≡ 0
    → contains 32 s ≡ false
    → IsCanonical (p ++ s)
prefixed-IsCanonical p s v back none_in = record {
  trimmed = record {
    front = v.begun s;
    back =
        ap white_back (reverse-append p s ∙ ap (λ (u : List ℕ). reverse s ++ u) v.reversed)
        ∙ white_back-append (reverse s) v.last v.second v.before v.closed v.last_ascii
            v.second_ascii back;
  };
  some_text = v.some_text s;
  no_space = v.no_space s ∙ none_in;
  elsewhere = v.elsewhere s;
  schemed = v.schemed s;
}

search_prefix-IsPrefix : IsPrefix search_prefix
unfolding white_back white_front is_empty contains is_local has_scheme
search_prefix-IsPrefix = record {
  last = 61;
  second = 113;
  before = reverse (bytes_of "https://duckduckgo.com/?");
  reversed = refl;
  closed = refl;
  last_ascii = omega arith;
  second_ascii = omega arith;
  begun = λ s. refl;
  some_text = λ s. refl;
  no_space = λ s. refl;
  elsewhere = λ s. refl;
  schemed = λ s. refl;
}

http-IsPrefix : IsPrefix (bytes_of "http://")
unfolding white_back white_front is_empty contains is_local has_scheme
http-IsPrefix = record {
  last = 47;
  second = 47;
  before = reverse (bytes_of "http:");
  reversed = refl;
  closed = refl;
  last_ascii = omega arith;
  second_ascii = omega arith;
  begun = λ s. refl;
  some_text = λ s. refl;
  no_space = λ s. refl;
  elsewhere = λ s. refl;
  schemed = λ s. refl;
}

https-IsPrefix : IsPrefix (bytes_of "https://")
unfolding white_back white_front is_empty contains is_local has_scheme
https-IsPrefix = record {
  last = 47;
  second = 47;
  before = reverse (bytes_of "https:");
  reversed = refl;
  closed = refl;
  last_ascii = omega arith;
  second_ascii = omega arith;
  begun = λ s. refl;
  some_text = λ s. refl;
  no_space = λ s. refl;
  elsewhere = λ s. refl;
  schemed = λ s. refl;
}

blank-IsCanonical : IsCanonical (bytes_of "about:blank")
unfolding white_back white_front is_empty contains is_local has_scheme
blank-IsCanonical = record {
  trimmed = record { front = refl; back = refl };
  some_text = refl;
  no_space = refl;
  elsewhere = refl;
  schemed = refl;
}

contains-plus_for_space : (s : List ℕ) → contains 32 (plus_for_space s) ≡ false
unfolding contains plus_for_space
contains-plus_for_space [] = refl
contains-plus_for_space (b ∷ s) = elim (Bool-cases (b == 32)) [
  | inl e ↦ rw e (contains-plus_for_space s)
  | inr e ↦ rw (e, e) (contains-plus_for_space s)
]

canonical-IsCanonical : (s : List ℕ) → IsTrimmed s → IsCanonical (canonical s)
unfolding canonical
canonical-IsCanonical s t = elim (Bool-cases (is_empty s)) [
  | inl e ↦ rw e blank-IsCanonical
  | inr e ↦ elim (Bool-cases (contains 32 s)) [
    | inl spaced ↦
        rw (e, spaced)
          (prefixed-IsCanonical search_prefix (plus_for_space s) search_prefix-IsPrefix
            (ap white_back (reverse-plus_for_space s)
              ∙ white_back-plus_for_space (reverse s) t.back)
            (contains-plus_for_space s))
    | inr whole ↦ elim (Bool-cases (is_local s)) [
      | inl here ↦
          rw (e, whole, here)
            (prefixed-IsCanonical (bytes_of "http://") s http-IsPrefix t.back whole)
      | inr away ↦ elim (Bool-cases (has_scheme s)) [
        | inl schemed ↦
            rw (e, whole, away, schemed)
              (record {
                trimmed = t;
                some_text = e;
                no_space = whole;
                elsewhere = away;
                schemed = schemed;
              })
        | inr bare ↦ elim (Bool-cases (contains 46 s)) [
          | inl dotted ↦
              rw (e, whole, away, bare, dotted)
                (prefixed-IsCanonical (bytes_of "https://") s https-IsPrefix t.back whole)
          | inr plain ↦
              rw (e, whole, away, bare, plain)
                (prefixed-IsCanonical search_prefix s search_prefix-IsPrefix t.back whole)
        ]
      ]
    ]
  ]
]

-- Whatever the bytes of a text: what `canonicalize_url` gives has a scheme and no space in it, and
-- `canonicalize_url` gives it back unchanged.
pub canonicalize_url-idempotent :
    (raw : List ℕ)
    → (has_scheme (canonicalize_url raw) ≡ true)
      × (contains 32 (canonicalize_url raw) ≡ false)
      × (canonicalize_url (canonicalize_url raw) ≡ canonicalize_url raw)
unfolding canonicalize_url
canonicalize_url-idempotent raw =
    let v = canonical-IsCanonical (trim raw) (trim-IsTrimmed raw) in
    (v.schemed, v.no_space, canonicalize_url-canonical (canonical (trim raw)) v)
