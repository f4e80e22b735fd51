-- ===== src/Scope/Resolve.antt =====
-- `TaskScope::resolve_scope`.
use vegafusion.Prelude.Assoc.{lookup}
use vegafusion.Prelude.Fallible.{Fallible, ok, err, ◌>>=◌}
use vegafusion.Prelude.{
  ℕ, zero, suc, String, Bool, ◌&&◌, List, [], ◌∷◌, Option, none, some, length, if◌then◌else◌, take,
  text_key,
}
use vegafusion.Scope.Tree.{TaskScope, Level, ScopeError, unresolved, get_child, level}
use vegafusion.Prelude.Sets.{contains}
use vegafusion.Scope.Variable.{Variable, signal, data_ns, scale, variable_key, same_namespace}

pub record Resolved : Type 0 where
  pub var : Variable
  pub scope : List ℕ
  pub output_var : Option Variable

-- vegafusion-core/src/expression/supported.rs
abbrev pub built_in_signals : List String
built_in_signals = "width" ∷ "height" ∷ "padding" ∷ "autosize" ∷ "background" ∷ []

unfoldable pub is_built_in : Variable → Bool
unfolding contains
is_built_in variable = same_namespace variable.ns signal && contains variable.name built_in_signals

-- `found_it`
unfoldable pub declares : Variable → Level → Bool
unfolding contains
declares variable l = elim variable.ns [
  | signal ↦ contains variable.name l.signals
  | data_ns ↦ contains variable.name l.data_names
  | scale ↦ contains variable.name l.scales
]

-- What one scope says of the variable.
unfoldable pub resolve_at : Variable → List ℕ → Level → Option Resolved
unfolding declares is_built_in
resolve_at variable curr_scope l =
    if declares variable l
    then some (record { var = variable; scope = curr_scope; output_var = none })
    else elim (lookup variable l.output_var_defs) [
      | some main_var ↦
          some (record { var = main_var; scope = curr_scope; output_var = some variable })
      | none ↦
          if is_built_in variable
          then some (record { var = variable; scope = []; output_var = none })
          else none
    ]

-- `return` out of the loop, or its next round.
abbrev pub or_outer : Option Resolved → Fallible ScopeError Resolved → Fallible ScopeError Resolved
or_outer (some resolved) rest = ok resolved
or_outer none rest = rest

-- The loop over the levels, of which `levels` are left.
unfoldable pub resolve_levels : TaskScope → Variable → List ℕ → ℕ → Fallible ScopeError Resolved
unfolding resolve_at get_child level
resolve_levels s variable usage_scope zero = err unresolved
resolve_levels s variable usage_scope (suc levels) = get_child s (take levels usage_scope) >>= λ t.
    or_outer (resolve_at variable (take levels usage_scope) (level t))
      (resolve_levels s variable usage_scope levels)

unfoldable pub resolve_scope : TaskScope → Variable → List ℕ → Fallible ScopeError Resolved
unfolding resolve_levels
resolve_scope s variable usage_scope =
    resolve_levels s variable usage_scope (suc (length usage_scope))
