-- ===== src/Wire/Result.antt =====
-- gutted-proto/src/lib.rs: `enum Error` and `type Result`.
use exo_browser_core.Common.{ℕ, ◌≡◌, refl}

pub data Error : Type 0 where
  unexpected_eof : Error
  varint_overflow : Error
  length_overflow : Error
  invalid_utf8 : Error
  invalid_value : Error
  trailing_bytes : Error
  unknown_tag : ℕ → Error
  message_too_large : Error

pub data Result {ℓ} (A : Type ℓ) : Type ℓ where
  ok : A → Result A
  err : Error → Result A

-- The `?` operator.
abbrev pub try {ℓ κ} : {A : Type ℓ} {B : Type κ} → Result A → (A → Result B) → Result B
try (ok a) f = f a
try (err e) f = err e

-- Inversion of a successful `?`.
pub try-eq_ok {ℓ κ} :
    {A : Type ℓ} {B : Type κ} (r : Result A) (f : A → Result B) {b : B}
    → try r f ≡ ok b
    → (a : A) × (r ≡ ok a) × (f a ≡ ok b)
try-eq_ok (ok a) f h = (a, refl, h)
try-eq_ok (err e) f h = cc
