-- ===== src/Prelude/Fallible.antt =====
-- `Result<T>` where no panic can occur: a value or an error.
use mathlib.Core.Path.{◌≡◌, refl}

pub data Fallible {ℓ κ} (E : Type κ) (A : Type ℓ) : Type (ℓ ⊔ κ) where
  ok : A → Fallible E A
  err : E → Fallible E A

module _ {ℓ κ μ} {E : Type μ} {A : Type ℓ} {B : Type κ} where
  infixl 5 ◌>>=◌
  abbrev pub ◌>>=◌ : Fallible E A → (A → Fallible E B) → Fallible E B
  ok a >>= f = f a
  err e >>= f = err e

  -- What a successful bind went through.
  pub bind-eq-ok :
      (m : Fallible E A) (f : A → Fallible E B) (b : B)
      → (m >>= f) ≡ ok b
      → (a : A) × (m ≡ ok a) × (f a ≡ ok b)
  bind-eq-ok (ok a) f b h = (a, refl, h)
  bind-eq-ok (err e) f b h = cc
