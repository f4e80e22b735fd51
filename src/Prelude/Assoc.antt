-- ===== src/Prelude/Assoc.antt =====
-- Association lists: the maps and sets of the source, and the recency order of its caches.
use mathlib.Core.List.{List, [], ◌∷◌, ◌++◌}
use mathlib.Core.Logic.{◌≢◌}
use mathlib.Core.Option.{Option, none, some}
use mathlib.Core.Path.{◌≡◌, refl}
use native.Mathlib.Omega.{arith}
use vegafusion.Prelude.EqClass.{KeyEq, ◌==◌, ==_iff}
use vegafusion.Prelude.Tests.{if◌then◌else◌, or_else}

module _ {ℓ κ} {K : Type ℓ} {V : Type κ} ⦃key : KeyEq K⦄ where
  unfoldable pub lookup : K → List (K × V) → Option V
  lookup k [] = none
  lookup k ((j, v) ∷ l) = if j == k then some v else lookup k l

  -- The list without its first entry at the key.
  unfoldable pub remove : K → List (K × V) → List (K × V)
  remove k [] = []
  remove k ((j, v) ∷ l) = if j == k then l else (j, v) ∷ remove k l

  -- No key twice.
  abbrev pub Distinct : List (K × V) → Type κ
  Distinct [] = Unit
  Distinct ((k, v) ∷ l) = (lookup k l ≡ none) × Distinct l

  pub lookup-append :
      (k : K) (l m : List (K × V)) → lookup k (l ++ m) ≡ or_else (lookup k l) (lookup k m)
  unfolding lookup
  lookup-append k [] m = refl
  lookup-append k ((j, v) ∷ l) m = ground (arith, lookup-append k l m)

  pub lookup-remove_ne : (k j : K) (l : List (K × V)) → k ≢ j → lookup j (remove k l) ≡ lookup j l
  unfolding lookup remove
  lookup-remove_ne k j [] h = refl
  lookup-remove_ne k j ((i, v) ∷ l) h =
      ground (arith, ==_iff i k, ==_iff i j, lookup-remove_ne k j l h)

  pub lookup-remove_self : (k : K) (l : List (K × V)) → Distinct l → lookup k (remove k l) ≡ none
  unfolding lookup remove
  lookup-remove_self k [] d = refl
  lookup-remove_self k ((i, v) ∷ l) d = ground (arith, ==_iff i k, lookup-remove_self k l d.1)

  pub remove_absent : (k : K) (l : List (K × V)) → lookup k l ≡ none → remove k l ≡ l
  unfolding lookup remove
  remove_absent k [] h = refl
  remove_absent k ((i, v) ∷ l) h = ground (arith, remove_absent k l)

  pub remove-append_left :
      (k : K) (l m : List (K × V)) (v : V)
      → lookup k l ≡ some v
      → remove k (l ++ m) ≡ remove k l ++ m
  unfolding lookup remove
  remove-append_left k [] m v h = cc
  remove-append_left k ((i, w) ∷ l) m v h = ground (arith, remove-append_left k l m v)

  pub remove-append_right :
      (k : K) (l m : List (K × V)) → lookup k l ≡ none → remove k (l ++ m) ≡ l ++ remove k m
  unfolding lookup remove
  remove-append_right k [] m h = refl
  remove-append_right k ((i, v) ∷ l) m h = ground (arith, remove-append_right k l m)
