-- ===== src/Prelude/EqClass.antt =====
-- The source's `==` on keys, as an instance for each type of key.
use Prim.Native.Nat.{ℕ}
use Prim.Native.String.{String}
use mathlib.Core.Bool.{Bool, true}
use mathlib.Core.Logic.{◌↔◌}
use mathlib.Core.Path.{◌≡◌}
use text.Mathlib.Text.{◌==◌ as text_test}
use text.Mathlib.TextEquality.{eq_iff}
use vegafusion.Prelude.Tests.{nat_beq, nat_beq_iff}

-- `Eq` with its law: the test passes exactly on equal keys.
pub record KeyEq {ℓ} (K : Type ℓ) : Type ℓ where
  pub test : K → K → Bool
  pub test_iff : (j k : K) → (test j k ≡ true) ↔ (j ≡ k)

-- Keys that are numbers, such as fingerprints.
instance abbrev pub nat_key : KeyEq ℕ
nat_key = record { test = nat_beq; test_iff = nat_beq_iff }

-- Keys that are names.
instance abbrev pub text_key : KeyEq String
text_key = record { test = text_test; test_iff = eq_iff }

module _ {ℓ} {K : Type ℓ} ⦃key : KeyEq K⦄ where
  infix 50 ◌==◌
  abbrev pub ◌==◌ : K → K → Bool
  j == k = key.test j k

  pub ==_iff : (j k : K) → ((j == k) ≡ true) ↔ (j ≡ k)
  ==_iff = key.test_iff
