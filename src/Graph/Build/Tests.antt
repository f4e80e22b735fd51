-- ===== src/Graph/Build/Tests.antt =====
-- The graph of three tasks: a value, a signal that reads it, and one that reads both and itself.
use vegafusion.Graph.Build.{
  Graphs, TasksMap, ScopedVariable, InputVariable, Iteration, new, linear_graph, add_tasks,
}
use vegafusion.Graph.Build.ListGraph.{list_graph, link, sort, targets, sources, forward, count_up}
use vegafusion.Graph.Build.Made.{new-ne-panic, new-IsSorted, new-update_state_fingerprints}
use vegafusion.Graph.Fingerprints.{
  Piece, fingerprint, init_identity_fingerprints, update_state_fingerprints,
}
use vegafusion.Graph.Keys.{Occurs, pair_key, list_key, option_key}
use vegafusion.Graph.Mapping.{
  build_mapping, map_nodes, value_index, IsBrought, build_mapping-IsBrought,
}
use vegafusion.Graph.State.{output_vars}
use vegafusion.Graph.Sorted.{IsSorted}
use vegafusion.Graph.State.{
  Attempt, ok, panic, Messages, scalar, TaskKind, value, signal_task, Task, TaskGraph,
}
use vegafusion.Prelude.Assoc.{lookup, remove, Distinct}
use vegafusion.Prelude.{
  ℕ, ◌+◌, false, List, [], ◌∷◌, ◌≡◌, ◌≢◌, inl, inr, refl, arith, Option, none, some, map, nat_key,
  ==_iff, String,
}
use vegafusion.Scope.Resolve.{resolve_scope}
use vegafusion.Scope.Tree.{TaskScope, task_scope, no_scopes}
use vegafusion.Scope.Variable.{Variable, signal, variable_key}

-- A signal is what it reads.
abbrev plain : Messages
plain = record {
  DataValuesTask = Unit;
  DataUrlTask = Unit;
  DataSourceTask = Unit;
  SignalTask = List InputVariable;
  TzConfig = Unit;
  values_output_vars = λ _. [];
  url_output_vars = λ _. [];
  source_output_vars = λ _. [];
}

abbrev reads : Task plain → List InputVariable
reads t = elim t.task_kind [ signal_task vs ↦ vs | _ ↦ [] ]

-- The map's values in the order of its list.
entries_found :
    (m : TasksMap plain) (x : ℕ × Task plain)
    → Distinct m
    → Occurs x (map (λ e. e.1) m)
    → (k : ScopedVariable) × (lookup k m ≡ some x)
unfolding lookup
entries_found [] x d h = elim h [ ]
entries_found ((k, y) ∷ m) x d (inl here) = (k, ground (arith, ==_iff k k))
entries_found ((k, y) ∷ m) x d (inr there) =
    let (j, e) = entries_found m x d.1 there in (j, ground (arith, ==_iff k j))

entries_all :
    (m : TasksMap plain) (k : ScopedVariable) (x : ℕ × Task plain)
    → lookup k m ≡ some x
    → Occurs x (map (λ e. e.1) m)
unfolding lookup
entries_all [] k x h = cc
entries_all ((j, y) ∷ m) k x h = ground (arith, entries_all m k x)

abbrev in_list_order : Iteration plain
in_list_order = record {
  values = map (λ e. e.1);
  values_found = entries_found;
  values_all = λ m k x _ h. entries_all m k x h;
}

abbrev lists : Graphs
lists = list_graph ScopedVariable (Option Variable)

abbrev weight : Piece plain → ℕ
weight (fingerprint f) = f + 1
weight _ = 1

abbrev add_up : List (Piece plain) → ℕ
add_up [] = 0
add_up (x ∷ xs) = weight x + add_up xs

abbrev variable : String → Variable
variable name = record { name = name; ns = signal }

abbrev read : String → InputVariable
read name = record { var = variable name; propagate = false }

abbrev task : String → TaskKind plain → Task plain
task name kind = record { variable = variable name; scope = []; task_kind = kind; tz_config = none }

abbrev three_tasks : List (Task plain)
three_tasks =
    task "x" (value (scalar (5 ∷ [])))
    ∷ task "y" (signal_task (read "x" ∷ []))
    ∷ task "z" (signal_task (read "z" ∷ read "y" ∷ read "x" ∷ []))
    ∷ []

abbrev chart : TaskScope
chart =
    task_scope
      (record {
        signals = "x" ∷ "y" ∷ "z" ∷ [];
        data_names = [];
        scales = [];
        output_var_defs = [];
      })
      no_scopes

abbrev graph_of : Attempt (TaskGraph plain) → TaskGraph plain
graph_of (ok g) = g
graph_of _ = record { nodes = [] }

abbrev made : TaskGraph plain
made = graph_of (new lists add_up in_list_order reads three_tasks chart)

made_ran : new lists add_up in_list_order reads three_tasks chart ≡ ok made
unfolding new linear_graph add_tasks resolve_scope lookup remove link sort forward count_up targets
    sources
made_ran = refl

-- The last task's edges come in the order in which it reads, less the one to itself.
made_edges :
    map (λ n. map (λ e. e.source) n.incoming) made.nodes ≡ [] ∷ (0 ∷ []) ∷ (1 ∷ 0 ∷ []) ∷ []
unfolding new linear_graph add_tasks resolve_scope lookup remove link sort forward count_up targets
    sources
made_edges = refl

new-ne-panic_example : new lists add_up in_list_order reads three_tasks chart ≢ panic
new-ne-panic_example = new-ne-panic lists add_up in_list_order reads three_tasks chart

new-IsSorted_example : IsSorted 0 made.nodes
new-IsSorted_example = new-IsSorted lists add_up in_list_order reads three_tasks chart made made_ran

new-update_state_fingerprints_example :
    (init_identity_fingerprints add_up made ≡ ok made)
    × (update_state_fingerprints add_up made ≡ ok (made, []))
new-update_state_fingerprints_example =
    new-update_state_fingerprints lists add_up in_list_order reads three_tasks chart made made_ran

y_mapped : lookup (variable "y", []) (build_mapping made) ≡ some (value_index 1 none)
unfolding new linear_graph add_tasks resolve_scope lookup remove link sort forward count_up targets
    sources build_mapping map_nodes output_vars
y_mapped = refl

build_mapping-IsBrought_example : IsBrought made.nodes (variable "y", []) (value_index 1 none)
build_mapping-IsBrought_example =
    build_mapping-IsBrought made (variable "y", []) (value_index 1 none) y_mapped
