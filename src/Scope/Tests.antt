-- ===== src/Scope/Tests.antt =====
-- The properties of the scopes at a chart with one group.
use vegafusion.Prelude.Assoc.{lookup}
use vegafusion.Prelude.Fallible.{ok}
use vegafusion.Prelude.Sets.{contains}
use vegafusion.Prelude.{
  ℕ, String, true, false, List, [], ◌∷◌, ◌≡◌, ◌≢◌, refl, ap, ◌==◌, text_key, none,
}
use vegafusion.Scope.Edit.{level_at}
use vegafusion.Scope.Innermost.{
  Innermost, here, around, declared, resolve_scope-Innermost, Innermost-resolve_scope,
}
use vegafusion.Scope.Lookup.{resolve_scope-add_variable, resolve_scope-add_variable_ne}
use vegafusion.Scope.Resolve.{declares, is_built_in, resolve_at, resolve_levels, resolve_scope}
use vegafusion.Scope.Tree.{
  get_child, TaskScope, task_scope, no_scopes, push_scope, Level, child_at, set_child, add_variable,
}
use vegafusion.Scope.Variable.{Variable, signal, variable_key}

abbrev empty_level : Level
empty_level = record { signals = []; data_names = []; scales = []; output_var_defs = [] }

-- The signals of the chart, and those of its one group, which has a group inside.
abbrev chart : List String → List String → TaskScope
chart outer inner =
    task_scope (record empty_level { signals = outer })
      (push_scope
        (task_scope (record empty_level { signals = inner })
          (push_scope (task_scope empty_level no_scopes) no_scopes))
        no_scopes)

abbrev width : Variable
width = record { name = "width"; ns = signal }

abbrev brush : Variable
brush = record { name = "brush"; ns = signal }

abbrev group : List ℕ
group = 0 ∷ []

abbrev inner_group : List ℕ
inner_group = 0 ∷ 0 ∷ []

abbrev brush_added : add_variable (chart [] []) brush group ≡ ok (tt, chart [] ("brush" ∷ []))
unfolding add_variable child_at set_child contains
brush_added = refl

resolve_scope-add_variable_example :
    resolve_scope (chart [] ("brush" ∷ [])) brush group
    ≡ ok (record { var = brush; scope = group; output_var = none })
resolve_scope-add_variable_example =
    resolve_scope-add_variable (chart [] []) (chart [] ("brush" ∷ [])) brush group brush_added

true_ne_false : true ≡ false → ⊥
true_ne_false h = cc

brush_not_width : brush ≢ width
brush_not_width e =
    let differ : true ≡ false = ap (λ v. v.name == "brush") e in absurd (true_ne_false differ)

resolve_scope-add_variable_ne_example :
    resolve_scope (chart [] ("brush" ∷ [])) width inner_group
    ≡ resolve_scope (chart [] []) width inner_group
resolve_scope-add_variable_ne_example =
    resolve_scope-add_variable_ne (chart [] []) (chart [] ("brush" ∷ [])) brush width group
      inner_group brush_added brush_not_width

-- The group declares a `width` of its own, which the group inside does not see.
inner_width :
    resolve_scope (chart [] ("width" ∷ [])) width inner_group
    ≡ ok (record { var = width; scope = []; output_var = none })
unfolding resolve_scope resolve_levels resolve_at is_built_in declares lookup get_child child_at
inner_width = refl

resolve_scope-Innermost_example :
    Innermost
      (chart [] ("width" ∷ []))
      width
      inner_group
      3
      (record { var = width; scope = []; output_var = none })
resolve_scope-Innermost_example =
    resolve_scope-Innermost (chart [] ("width" ∷ [])) width inner_group
      (record { var = width; scope = []; output_var = none }) inner_width

-- `brush` is not a signal of the innermost group, but of the group around it.
brush_around :
    Innermost
      (chart [] ("brush" ∷ []))
      brush
      inner_group
      3
      (record { var = brush; scope = group; output_var = none })
unfolding is_built_in level_at child_at declares lookup
brush_around =
    around 2 empty_level _ refl
      (record { undeclared = refl; not_put_out = refl; not_built_in = refl })
      (here 1 (record empty_level { signals = "brush" ∷ [] }) _ refl (declared refl))

Innermost-resolve_scope_example :
    resolve_scope (chart [] ("brush" ∷ [])) brush inner_group
    ≡ ok (record { var = brush; scope = group; output_var = none })
Innermost-resolve_scope_example =
    Innermost-resolve_scope (chart [] ("brush" ∷ [])) brush inner_group
      (record { var = brush; scope = group; output_var = none }) brush_around
