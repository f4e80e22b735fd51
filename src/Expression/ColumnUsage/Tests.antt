-- ===== src/Expression/ColumnUsage/Tests.antt =====
-- Column usages at two small sets.
use vegafusion.Expression.ColumnUsage.{
  ColumnUsage, known, union, difference, uses, uses-union, uses-difference,
}
use vegafusion.Prelude.Sets.{contains}
use vegafusion.Prelude.{true, refl, ◌||◌, [], ◌∷◌, ◌≡◌, text_key}

abbrev a_b : ColumnUsage
a_b = known ("a" ∷ "b" ∷ [])

abbrev b_c : ColumnUsage
b_c = known ("b" ∷ "c" ∷ [])

uses-union_example : uses "c" (union a_b b_c) ≡ (uses "c" a_b || uses "c" b_c)
uses-union_example = uses-union "c" a_b b_c

uses-difference_example : uses "a" (difference a_b b_c) ≡ true
unfolding contains
uses-difference_example = uses-difference "a" a_b b_c refl refl
