-- ===== src/Prelude/Outcome.antt =====
-- What a call of the source can end in: a value, a panic, or (a model's own) no fuel left.
use mathlib.Core.Bool.{Bool, true, false}
use mathlib.Core.Path.{◌≡◌}
use Prim.Native.Nat.{ℕ, zero, suc, ◌<◌}
use native.Mathlib.Omega.{arith}
use vegafusion.Prelude.Tests.{Bool-cases}
use mathlib.Core.Logic.{inl, inr}

pub data Outcome {ℓ} (A : Type ℓ) : Type ℓ where
  done : A → Outcome A
  panic : Outcome A
  out_of_fuel : Outcome A

pub done-injective {ℓ} : {A : Type ℓ} {a b : A} → done a ≡ done b → a ≡ b
done-injective h = cc

infixl 5 ◌>>=◌
abbrev pub ◌>>=◌ {ℓ κ} : {A : Type ℓ} {B : Type κ} → Outcome A → (A → Outcome B) → Outcome B
done a >>= f = f a
panic >>= f = panic
out_of_fuel >>= f = out_of_fuel

-- `while test { body }` on fuel.
unfoldable pub while {ℓ} : {S : Type ℓ} → (S → Bool) → (S → Outcome S) → ℕ → S → Outcome S
while test body zero s = out_of_fuel
while test body (suc fuel) s = elim (test s) [
  | true ↦ body s >>= while test body fuel
  | false ↦ done s
]

pub while_stops {ℓ} :
    {S : Type ℓ} (test : S → Bool) (body : S → Outcome S) (fuel : ℕ) (s : S)
    → test s ≡ false
    → while test body (suc fuel) s ≡ done s
unfolding while
while_stops test body fuel s h = rw (h, while)

-- A body that keeps an invariant, does not panic and lowers a measure makes the loop end, with the
-- invariant and with its test false.
pub while_ends {ℓ κ} :
    {S : Type ℓ} (P : S → Type κ) (measure : S → ℕ) (test : S → Bool) (body : S → Outcome S)
    → ((s : S)
        → P s
        → test s ≡ true
        → (s' : S) × (body s ≡ done s') × P s' × (measure s' < measure s))
    → (fuel : ℕ) (s : S) → measure s < fuel
    → P s
    → (s' : S) × (while test body fuel s ≡ done s') × P s' × (test s' ≡ false)
unfolding while
while_ends P measure test body keep zero s m p = absurd (omega arith)
while_ends P measure test body keep (suc fuel) s m p = elim (Bool-cases (test s)) [
  | inl more ↦
      let (t, ran, pt, less) = keep s p more in
      rw (more, ran, while) (while_ends P measure test body keep fuel t (omega arith) pt)
  | inr stop ↦ (s, rw (stop, while), p, stop)
]
