-- ===== src/Scope/Tree.antt =====
-- `TaskScope`: a scope with the names that it declares, and the scopes of its groups.
use vegafusion.Prelude.Assoc.{lookup, remove}
use vegafusion.Prelude.Fallible.{Fallible, ok, err, ◌>>=◌}
use vegafusion.Prelude.Sets.{insert}
use vegafusion.Prelude.{ℕ, zero, suc, String, List, [], ◌∷◌, Option, none, some, text_key}
use vegafusion.Scope.Variable.{Variable, signal, data_ns, scale, new_signal, new_data, variable_key}

pub data ScopeError : Type 0 where
  no_group no_data_signal unresolved : ScopeError

-- The fields of a `TaskScope` but its children: sets of names, and a map.
pub record Level : Type 0 where
  pub signals : List String
  pub data_names : List String
  pub scales : List String
  pub output_var_defs : List (Variable × Variable)

mutual
  pub data TaskScope : Type 0 where
    task_scope : Level → Scopes → TaskScope

  pub data Scopes : Type 0 where
    no_scopes : Scopes
    push_scope : TaskScope → Scopes → Scopes

unfoldable pub new : TaskScope
new =
    task_scope (record { signals = []; data_names = []; scales = []; output_var_defs = [] })
      no_scopes

unfoldable pub level : TaskScope → Level
level (task_scope l _) = l

-- `children.get(index)`
unfoldable pub child_at : Scopes → ℕ → Option TaskScope
child_at no_scopes i = none
child_at (push_scope s ss) zero = some s
child_at (push_scope s ss) (suc i) = child_at ss i

unfoldable pub set_child : Scopes → ℕ → TaskScope → Scopes
set_child no_scopes i c = no_scopes
set_child (push_scope s ss) zero c = push_scope c ss
set_child (push_scope s ss) (suc i) c = push_scope s (set_child ss i c)

unfoldable pub get_child : TaskScope → List ℕ → Fallible ScopeError TaskScope
get_child s [] = ok s
get_child (task_scope l cs) (i ∷ is) = elim (child_at cs i) [
  | none ↦ err no_group
  | some c ↦ get_child c is
]

-- `get_child_mut`, and what its caller does to the fields of the scope that it returns.
unfoldable pub modify :
    {A : Type 0}
    → (Level → Fallible ScopeError (A × Level))
    → TaskScope
    → List ℕ
    → Fallible ScopeError (A × TaskScope)
modify f (task_scope l cs) [] = f l >>= λ (a, l'). ok (a, task_scope l' cs)
modify f (task_scope l cs) (i ∷ is) = elim (child_at cs i) [
  | none ↦ err no_group
  | some c ↦ modify f c is >>= λ (a, c'). ok (a, task_scope l (set_child cs i c'))
]

unfoldable pub declare : Variable → Level → Level
unfolding insert
declare variable l = elim variable.ns [
  | signal ↦ record l { signals = insert variable.name l.signals }
  | data_ns ↦ record l { data_names = insert variable.name l.data_names }
  | scale ↦ record l { scales = insert variable.name l.scales }
]

unfoldable pub add_variable :
    TaskScope → Variable → List ℕ → Fallible ScopeError (Unit {0} × TaskScope)
unfolding modify declare
add_variable s variable scope = modify (λ l. ok (tt, declare variable l)) s scope

-- `HashMap::insert` and `remove` on `output_var_defs`.
unfoldable pub define_output : Variable → Variable → Level → Level
define_output output main l = record l {
  output_var_defs = (output, main) ∷ remove output l.output_var_defs;
}

unfoldable pub add_data_signal :
    TaskScope → String → String → List ℕ → Fallible ScopeError (Unit {0} × TaskScope)
unfolding modify define_output new_signal new_data
add_data_signal s d signal_name scope =
    modify (λ l. ok (tt, define_output (new_signal signal_name) (new_data d) l)) s scope

unfoldable pub undefine_output : Variable → Level → Fallible ScopeError (Variable × Level)
undefine_output output l = elim (lookup output l.output_var_defs) [
  | none ↦ err no_data_signal
  | some main ↦ ok (main, record l { output_var_defs = remove output l.output_var_defs })
]

unfoldable pub remove_data_signal :
    TaskScope → String → List ℕ → Fallible ScopeError (Variable × TaskScope)
unfolding modify undefine_output new_signal
remove_data_signal s signal_name scope = modify (undefine_output (new_signal signal_name)) s scope
