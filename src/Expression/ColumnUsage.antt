-- ===== src/Expression/ColumnUsage.antt =====
-- `ColumnUsage` of column_usage.rs: the columns of a dataset that are known to be used, or no
-- knowledge of them.
use vegafusion.Prelude.Sets.{contains, insert, contains-insert}
use vegafusion.Prelude.{
  Bool, true, false, ◌&&◌, ◌||◌, not, List, [], ◌∷◌, ◌≡◌, refl, ◌∙◌, subst, Bool-cases, inl, inr,
  arith, String, text_key, KeyEq, if◌then◌else◌, ◌==◌, ==_iff,
}
mod Tests

pub data ColumnUsage : Type 0 where
  unknown : ColumnUsage
  known : List String → ColumnUsage

abbrev pub empty : ColumnUsage
empty = known []

-- The union and the difference of hash sets.
unfoldable pub set_union : List String → List String → List String
unfolding insert
set_union [] ys = ys
set_union (x ∷ xs) ys = insert x (set_union xs ys)

unfoldable pub set_difference : List String → List String → List String
unfolding contains
set_difference [] ys = []
set_difference (x ∷ xs) ys =
    let rest = set_difference xs ys in if contains x ys then rest else x ∷ rest

unfoldable pub union : ColumnUsage → ColumnUsage → ColumnUsage
unfolding set_union
union (known self_cols) (known other_cols) = known (set_union self_cols other_cols)
union _ _ = unknown

unfoldable pub difference : ColumnUsage → ColumnUsage → ColumnUsage
unfolding set_difference
difference (known self_cols) (known other_cols) = known (set_difference self_cols other_cols)
difference _ _ = unknown

unfoldable pub with_column : ColumnUsage → String → ColumnUsage
unfolding union
with_column self column = union self (known (column ∷ []))

-- Whether a column must be kept.
abbrev pub uses : String → ColumnUsage → Bool
uses x unknown = true
uses x (known columns) = contains x columns

contains-set_union :
    (x : String) (xs ys : List String)
    → contains x (set_union xs ys) ≡ (contains x xs || contains x ys)
unfolding set_union contains
contains-set_union x [] ys = refl
contains-set_union x (y ∷ xs) ys =
    contains-insert y x (set_union xs ys) ∙ ground (arith, contains-set_union x xs ys)

contains-set_difference :
    (x : String) (xs ys : List String)
    → contains x (set_difference xs ys) ≡ (contains x xs && not (contains x ys))
unfolding set_difference contains
contains-set_difference x [] ys = refl
contains-set_difference x (y ∷ xs) ys = elim (Bool-cases (y == x)) [
  | inl same ↦
      subst
        (λ z.
          contains z (set_difference (y ∷ xs) ys) ≡ (contains z (y ∷ xs) && not (contains z ys)))
        ((==_iff y x).0 same) (ground (arith, ==_iff y y, contains-set_difference y xs ys))
  | inr differ ↦ ground (arith, contains-set_difference x xs ys)
]

-- After a union a column must be kept if either side says so.
pub uses-union : (x : String) (a b : ColumnUsage) → uses x (union a b) ≡ (uses x a || uses x b)
unfolding union
uses-union x unknown b = refl
uses-union x (known xs) unknown = ground arith
uses-union x (known xs) (known ys) = contains-set_union x xs ys

-- A difference drops no column that the first side says must be kept and the second does not.
pub uses-difference :
    (x : String) (a b : ColumnUsage)
    → uses x a ≡ true
    → uses x b ≡ false
    → uses x (difference a b) ≡ true
unfolding difference
uses-difference x unknown b h k = refl
uses-difference x (known xs) unknown h k = refl
uses-difference x (known xs) (known ys) h k = contains-set_difference x xs ys ∙ ground (arith, h, k)
