-- ===== src/Expression/DatasetsUsage.antt =====
-- `DatasetsColumnUsage` of column_usage.rs: the usage of the columns of each dataset, and the datasets
-- that stand for another. Hash maps are association lists with one entry for a key; the order in
-- which the keys of one are iterated is a parameter.
use vegafusion.Expression.ColumnUsage.{
  ColumnUsage, unknown, known, empty, union, difference, uses, uses-union,
}
use vegafusion.Graph.Build.{ScopedVariable}
use vegafusion.Graph.Keys.{
  Occurs, pair_key, list_key, put, collect_onto, lookup-put_self, lookup-put_ne, test_cases,
}
use vegafusion.Prelude.Assoc.{lookup, remove, lookup-remove_ne}
use vegafusion.Prelude.{
  ℕ, Bool, true, false, ◌||◌, String, List, [], ◌∷◌, ◌++◌, Option, none, some, ◌≡◌, ◌≢◌, ◌⊎◌, inl,
  inr, refl, sym, ap, subst, ◌∙◌, arith, nat_key, Option-cases,
}
use vegafusion.Scope.Variable.{variable_key}
pub mod Union
mod Tests

abbrev pub Usages : Type 0
Usages = List (ScopedVariable × ColumnUsage)

abbrev pub Aliases : Type 0
Aliases = List (ScopedVariable × ScopedVariable)

pub record DatasetsColumnUsage : Type 0 where
  pub usages : Usages
  pub aliases : Aliases

-- `HashMap::keys`: every key, once.
abbrev pub Once : List ScopedVariable → Type 0
Once [] = Unit
Once (k ∷ ks) = (Occurs k ks → ⊥) × Once ks

pub record KeyOrder : Type 0 where
  pub keys : Usages → List ScopedVariable
  pub keys_once : (m : Usages) → Once (keys m)
  pub keys_found :
      (m : Usages) (k : ScopedVariable)
      → Occurs k (keys m)
      → (c : ColumnUsage) × (lookup k m ≡ some c)
  pub keys_all :
      (m : Usages) (k : ScopedVariable) (c : ColumnUsage) → lookup k m ≡ some c → Occurs k (keys m)

abbrev pub nothing_used : DatasetsColumnUsage
nothing_used = record { usages = []; aliases = [] }

unfoldable pub with_alias :
    ScopedVariable → ScopedVariable → DatasetsColumnUsage → DatasetsColumnUsage
unfolding put
with_alias from to self = record self { aliases = put from to self.aliases }

unfoldable pub without_column_usage :
    ScopedVariable → ColumnUsage → DatasetsColumnUsage → DatasetsColumnUsage
unfolding put difference
without_column_usage datum_var usage self = elim (lookup datum_var self.usages) [
  | none ↦ self
  | some current_usage ↦ record self {
    usages = put datum_var (difference current_usage usage) self.usages;
  }
]

-- The loop over the keys, without a result where the code panics.
unfoldable pub move_aliased : Aliases → List ScopedVariable → Usages → Option Usages
unfolding put
move_aliased aliases [] usages = some usages
move_aliased aliases (var ∷ vars) usages = elim (lookup var aliases) [
  | none ↦ move_aliased aliases vars usages
  | some target ↦ elim (lookup var usages) [
    | none ↦ none
    | some aliased ↦ move_aliased aliases vars (put target aliased (remove var usages))
  ]
]

-- `unwrap_or_else(ColumnUsage::empty)`
abbrev pub or_empty : Option ColumnUsage → ColumnUsage
or_empty none = empty
or_empty (some usage) = usage

abbrev pub usage_or_empty : ScopedVariable → Usages → ColumnUsage
usage_or_empty var usages = or_empty (lookup var usages)

-- The loop of `union` over the variables of both sides.
unfoldable pub combine : Usages → Usages → List ScopedVariable → Usages → Usages
unfolding put union
combine left right [] usages = usages
combine left right (var ∷ vars) usages =
    combine left right vars
      (put var (union (usage_or_empty var left) (usage_or_empty var right)) usages)

module _ (hash_map : KeyOrder) where
  unfoldable pub apply_aliases : Aliases → DatasetsColumnUsage → Option DatasetsColumnUsage
  unfolding move_aliased collect_onto
  apply_aliases aliases self = elim (move_aliased aliases (hash_map.keys self.usages) self.usages) [
    | none ↦ none
    | some usages ↦ some (record { usages = usages; aliases = collect_onto self.aliases aliases })
  ]

  unfoldable pub datasets_union :
      DatasetsColumnUsage → DatasetsColumnUsage → Option DatasetsColumnUsage
  unfolding apply_aliases collect_onto combine
  datasets_union self other =
      let aliases = collect_onto self.aliases other.aliases in
      elim (apply_aliases aliases self) [
        | none ↦ none
        | some left ↦ elim (apply_aliases aliases other) [
          | none ↦ none
          | some right ↦ some (record {
            usages =
                combine left.usages right.usages
                  (hash_map.keys left.usages ++ hash_map.keys right.usages) [];
            aliases = aliases;
          })
        ]
      ]

  unfoldable pub with_column_usage :
      ScopedVariable → ColumnUsage → DatasetsColumnUsage → Option DatasetsColumnUsage
  unfolding datasets_union
  with_column_usage datum_var usage self =
      datasets_union self (record { usages = (datum_var, usage) ∷ []; aliases = [] })

  unfoldable pub with_unknown_usage :
      ScopedVariable → DatasetsColumnUsage → Option DatasetsColumnUsage
  unfolding with_column_usage
  with_unknown_usage datum_var self = with_column_usage datum_var unknown self

-- Whether a column of a dataset must be kept.
abbrev pub uses_in : ScopedVariable → String → Usages → Bool
uses_in v x usages = uses x (usage_or_empty v usages)
