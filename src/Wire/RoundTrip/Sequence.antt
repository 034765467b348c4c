-- ===== src/Wire/RoundTrip/Sequence.antt =====
-- gutted-proto/src/lib.rs: the rules by which a sequence of writes is undone by the sequence of
-- reads.
use exo_browser_core.Common.{
  subst, sym, ℕ, ◌≡◌, refl, ◌∙◌, ap, some, List, [], ◌++◌, append_assoc, append-nil,
}
use exo_browser_core.Wire.Result.{ok}
use exo_browser_core.Wire.Writer.{Writer, ◌>>◌, skip}
use exo_browser_core.Wire.Reader.{Reader, ◌>>=◌, ret}

-- `w` appends bytes, whatever the buffer holds, and `r` reads `a` off them, whatever follows.
pub record Inverse {A : Type 0} (w : Writer) (r : Reader A) (a : A) : Type 0 where
  pub bytes : List ℕ
  pub writes : (out : List ℕ) → w out ≡ some (out ++ bytes)
  pub reads : (rest : List ℕ) → r (bytes ++ rest) ≡ ok (a, rest)

pub >>-some : (w k : Writer) {out out' : List ℕ} → w out ≡ some out' → (w >> k) out ≡ k out'
unfolding ◌>>◌
>>-some w k h = rw (h, ◌>>◌)

pub >>=-ok :
    {A B : Type 0} (r : Reader A) (f : A → Reader B) {buf rest : List ℕ} {a : A}
    → r buf ≡ ok (a, rest)
    → (r >>= f) buf ≡ f a rest
unfolding ◌>>=◌
>>=-ok r f h = rw (h, ◌>>=◌)

pub Inverse-seq :
    {A B : Type 0} {w k : Writer} {r : Reader A} (f : A → Reader B) {a : A} {b : B}
    → Inverse w r a
    → Inverse k (f a) b
    → Inverse (w >> k) (r >>= f) b
Inverse-seq {w = w} {k = k} {r = r} f p q = record {
  bytes = p.bytes ++ q.bytes;
  writes = λ out. >>-some w k (p.writes out) ∙ q.writes (out ++ p.bytes) ∙ rw append_assoc;
  reads = λ rest.
      ap (r >>= f) (append_assoc p.bytes q.bytes rest)
      ∙ >>=-ok r f (p.reads (q.bytes ++ rest))
      ∙ q.reads rest;
}

pub Inverse-skip : {A : Type 0} (a : A) → Inverse skip (ret a) a
unfolding skip ret
Inverse-skip a = record { bytes = []; writes = λ out. rw append-nil; reads = λ rest. refl }

-- The last write of a sequence, where the reads go on to build the value.
pub Inverse-last :
    {A B : Type 0} {w : Writer} {r : Reader A} (f : A → Reader B) {a : A} {b : B}
    → Inverse w r a
    → Inverse skip (f a) b
    → Inverse w (r >>= f) b
unfolding skip
Inverse-last {w = w} {r = r} f p q = record {
  bytes = p.bytes ++ q.bytes;
  writes = λ out. p.writes out ∙ q.writes (out ++ p.bytes) ∙ rw append_assoc;
  reads = λ rest.
      ap (r >>= f) (append_assoc p.bytes q.bytes rest)
      ∙ >>=-ok r f (p.reads (q.bytes ++ rest))
      ∙ q.reads rest;
}

-- The same, where the value is built at once.
pub Inverse-end :
    {A B : Type 0} {w : Writer} {r : Reader A} (f : A → Reader B) {a : A} {b : B}
    → Inverse w r a
    → f a ≡ ret b
    → Inverse w (r >>= f) b
Inverse-end f {b = b} p e =
    Inverse-last f p (subst (λ g. Inverse skip g b) (sym e) (Inverse-skip b))

-- `w` appends bytes, and `r` reads `a` off exactly these.
pub record Whole {A : Type 0} (w : Writer) (r : Reader A) (a : A) : Type 0 where
  pub bytes : List ℕ
  pub writes : (out : List ℕ) → w out ≡ some (out ++ bytes)
  pub reads : r bytes ≡ ok (a, [])

pub Whole-Inverse : {A : Type 0} {w : Writer} {r : Reader A} {a : A} → Inverse w r a → Whole w r a
Whole-Inverse {r = r} p = record {
  bytes = p.bytes;
  writes = p.writes;
  reads = ap r (sym (append-nil p.bytes)) ∙ p.reads [];
}

pub Whole-seq :
    {A B : Type 0} {w k : Writer} {r : Reader A} (f : A → Reader B) {a : A} {b : B}
    → Inverse w r a
    → Whole k (f a) b
    → Whole (w >> k) (r >>= f) b
Whole-seq {w = w} {k = k} {r = r} f p q = record {
  bytes = p.bytes ++ q.bytes;
  writes = λ out. >>-some w k (p.writes out) ∙ q.writes (out ++ p.bytes) ∙ rw append_assoc;
  reads = >>=-ok r f (p.reads q.bytes) ∙ q.reads;
}

pub Whole-last :
    {A B : Type 0} {w : Writer} {r : Reader A} (f : A → Reader B) {a : A} {b : B}
    → Whole w r a
    → f a ≡ ret b
    → Whole w (r >>= f) b
unfolding ret
Whole-last {r = r} f p e = record {
  bytes = p.bytes;
  writes = p.writes;
  reads = >>=-ok r f p.reads ∙ ap (λ g. g []) e;
}

-- A read whose outcome is known already, such as a check of the byte that was read before it.
pub Inverse-known :
    {A B : Type 0} {k : Writer} {r : Reader A} (f : A → Reader B) {a : A} {b : B}
    → r ≡ ret a
    → Inverse k (f a) b
    → Inverse k (r >>= f) b
unfolding ◌>>=◌ ret
Inverse-known {k = k} f {b = b} e p = rw e p
