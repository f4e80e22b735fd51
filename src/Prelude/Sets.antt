-- ===== src/Prelude/Sets.antt =====
-- Hash sets, as lists of their elements.
use mathlib.Core.Bool.{Bool, true, false, ◌||◌}
use mathlib.Core.List.{List, [], ◌∷◌}
use mathlib.Core.Logic.{◌≢◌, inl, inr}
use mathlib.Core.Path.{◌≡◌, subst}
use native.Mathlib.Omega.{arith}
use vegafusion.Prelude.EqClass.{KeyEq, ◌==◌, ==_iff}
use vegafusion.Prelude.Tests.{if◌then◌else◌, Bool-cases}

module _ {ℓ} {K : Type ℓ} ⦃key : KeyEq K⦄ where
  -- `HashSet::contains` and `insert`
  unfoldable pub contains : K → List K → Bool
  contains x [] = false
  contains x (y ∷ ys) = y == x || contains x ys

  unfoldable pub insert : K → List K → List K
  insert x xs = if contains x xs then xs else x ∷ xs

  pub contains-insert_self : (x : K) (xs : List K) → contains x (insert x xs) ≡ true
  unfolding contains insert
  contains-insert_self x xs = ground (arith, ==_iff x x)

  pub contains-insert_ne :
      (x y : K) (xs : List K) → x ≢ y → contains y (insert x xs) ≡ contains y xs
  unfolding contains insert
  contains-insert_ne x y xs h = ground (arith, ==_iff x y)

  pub contains-insert :
      (x y : K) (xs : List K) → contains y (insert x xs) ≡ (contains y xs || x == y)
  unfolding contains insert
  contains-insert x y xs = elim (Bool-cases (x == y)) [
    | inl same ↦
        subst (λ z. contains z (insert x xs) ≡ (contains z xs || x == z)) ((==_iff x y).0 same)
          (ground (arith, ==_iff x x))
    | inr differ ↦ ground arith
  ]
