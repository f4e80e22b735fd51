-- ===== src/Graph/Build.antt =====
-- `TaskGraph::new`. The crate petgraph, the order in which a hash map is iterated, and the variables
-- that a task reads are parameters.
pub use vegafusion.Expression.Visitors.Variables.{InputVariable}
use vegafusion.Graph.Fingerprints.{Piece, init_identity_fingerprints, update_state_fingerprints}
use vegafusion.Graph.Keys.{Occurs, pair_key, list_key, option_key, put, collect_onto}
use vegafusion.Graph.Petgraph.{Petgraph}
use vegafusion.Graph.State.{
  GraphError, unresolved, missing_variable, cycle, missing_output, Attempt, ok, err, panic, ◌>>=◌,
  Messages, Task, IncomingEdge, OutgoingEdge, TaskNode, TaskGraph, output_vars,
}
use vegafusion.Prelude.Assoc.{lookup, Distinct}
use vegafusion.Prelude.Fallible.{Fallible, ok as resolved, err as unresolved_error}
use vegafusion.Prelude.{
  ℕ, suc, ◌+◌, ◌%◌, ◌^◌, Bool, true, false, List, [], ◌∷◌, Option, none, some, nat_key, nat_beq,
  if◌then◌else◌, map, ◌==◌, KeyEq, ◌≡◌, ◌<◌,
}
use vegafusion.Scope.Resolve.{Resolved, resolve_scope}
use vegafusion.Scope.Tree.{TaskScope, ScopeError}
use vegafusion.Scope.Variable.{Variable, variable_key}
pub mod Tasks
pub mod Edges
pub mod Links
pub mod Incoming
pub mod Nodes
pub mod Order
pub mod Made
pub mod ListGraph
mod Tests

abbrev pub ScopedVariable : Type 0
ScopedVariable = Variable × List ℕ

-- The weights of the edges, `PetgraphEdge`, are the variables that a task puts out.
abbrev pub Graphs : Type 1
Graphs = Petgraph ScopedVariable (Option Variable)

abbrev pub TasksMap : Messages → Type 0
TasksMap m = List (ScopedVariable × (ℕ × Task m))

-- `HashMap::values`: every value that is in the map, in some order.
pub record Iteration (m : Messages) : Type 0 where
  pub values : TasksMap m → List (ℕ × Task m)
  pub values_found :
      (tasks : TasksMap m) (x : ℕ × Task m)
      → Distinct tasks
      → Occurs x (values tasks)
      → (k : ScopedVariable) × (lookup k tasks ≡ some x)
  pub values_all :
      (tasks : TasksMap m) (k : ScopedVariable) (x : ℕ × Task m)
      → Distinct tasks
      → lookup k tasks ≡ some x
      → Occurs x (values tasks)

-- `Vec::position`
unfoldable pub position : {A : Type 0} ⦃key : KeyEq A⦄ → A → List A → Option ℕ
position a [] = none
position a (x ∷ xs) =
    let rest = position a xs in
    if x == a then some 0 else elim rest [ none ↦ none | some i ↦ some (suc i) ]

abbrev pub as_u32 : ℕ → ℕ
as_u32 n = n % 2 ^ 32

-- `unwrap`, or an error in its place.
abbrev pub unwrap : {A : Type 0} → Option A → Attempt A
unwrap none = panic
unwrap (some a) = ok a

abbrev pub or_err : {A : Type 0} → GraphError → Option A → Attempt A
or_err e none = err e
or_err e (some a) = ok a

-- `?` on the result of another component, and its `unwrap`.
abbrev pub try_resolved : Fallible ScopeError Resolved → Attempt Resolved
try_resolved (resolved r) = ok r
try_resolved (unresolved_error e) = err unresolved

abbrev pub unwrap_resolved : Fallible ScopeError Resolved → Attempt Resolved
unwrap_resolved (resolved r) = ok r
unwrap_resolved (unresolved_error e) = panic

-- The pairs of a node and its place in the order, from a place on.
unfoldable pub enumerate : ℕ → List ℕ → List (ℕ × ℕ)
enumerate i [] = []
enumerate i (n ∷ ns) = (n, i) ∷ enumerate (suc i) ns

unfoldable pub sorted_indexes : List ℕ → List (ℕ × ℕ)
unfolding enumerate collect_onto
sorted_indexes toposorted = collect_onto [] (enumerate 0 toposorted)

unfoldable pub outgoing_edges : List (ℕ × ℕ) → List ℕ → Attempt (List OutgoingEdge)
outgoing_edges indexes [] = ok []
outgoing_edges indexes (target ∷ targets) = unwrap (lookup target indexes) >>= λ sorted_index.
    outgoing_edges indexes targets >>= λ rest.
    ok (record { target = as_u32 sorted_index; propagate = true } ∷ rest)

module _ (p : Graphs) where
  -- The pairs from which `incoming_vars` is collected.
  unfoldable pub incoming_pairs :
      p.DiGraph → List (ℕ × Option Variable) → Attempt (List ((Variable × Option Variable) × ℕ))
  incoming_pairs g [] = ok []
  incoming_pairs g ((node_index, output_var) ∷ ids) =
      unwrap (p.node_weight node_index g) >>= λ weight.
      incoming_pairs g ids >>= λ rest. ok (((weight.0, output_var), node_index) ∷ rest)

module _ {m : Messages} (p : Graphs) where
  -- Add graph nodes.
  unfoldable pub add_tasks : List (Task m) → p.DiGraph → TasksMap m → p.DiGraph × TasksMap m
  unfolding put
  add_tasks [] g tasks = (g, tasks)
  add_tasks (task ∷ ts) g tasks =
      let scoped_var : ScopedVariable = (task.variable, task.scope) in
      let added = p.add_node scoped_var g in
      add_tasks ts added.1 (put scoped_var (added.0, task) tasks)

  module _ (input_vars : Task m → List InputVariable) (scopes : TaskScope)
      (tasks : TasksMap m) where
    -- One edge to a task, unless it reads what it makes.
    unfoldable pub add_input : ℕ → List ℕ → InputVariable → p.DiGraph → Attempt p.DiGraph
    add_input node_index usage_scope input_var g =
        try_resolved (resolve_scope scopes input_var.var usage_scope) >>= λ r.
        or_err missing_variable (lookup (r.var, r.scope) tasks) >>= λ input.
        if nat_beq input.0 node_index
        then ok g
        else unwrap (p.add_edge input.0 node_index r.output_var g)

    unfoldable pub add_inputs : ℕ → List ℕ → List InputVariable → p.DiGraph → Attempt p.DiGraph
    unfolding add_input
    add_inputs node_index usage_scope [] g = ok g
    add_inputs node_index usage_scope (v ∷ vs) g =
        add_input node_index usage_scope v g >>= add_inputs node_index usage_scope vs

    -- Resolve and add edges.
    unfoldable pub add_edges : List (ℕ × Task m) → p.DiGraph → Attempt p.DiGraph
    unfolding add_inputs
    add_edges [] g = ok g
    add_edges ((node_index, task) ∷ values) g =
        add_inputs node_index task.scope (input_vars task) g >>= add_edges values

  module _ (input_vars : Task m → List InputVariable) (scopes : TaskScope) (tasks : TasksMap m)
      (g : p.DiGraph) (indexes : List (ℕ × ℕ)) where
    -- The place of the variable in what the source of the edge puts out.
    unfoldable pub output_index : ℕ → Option Variable → Attempt (Option ℕ)
    unfolding position
    output_index node_index none = ok none
    output_index node_index (some output_var) = unwrap (p.node_weight node_index g) >>= λ weight.
        unwrap (lookup weight tasks) >>= λ input.
        or_err missing_output (position output_var (output_vars input.1)) >>= λ i.
        ok (some (as_u32 i))

    -- The edge for a variable, or none if no other node brings it.
    unfoldable pub incoming_edge :
        List ((Variable × Option Variable) × ℕ)
        → List ℕ
        → InputVariable
        → Attempt (Option IncomingEdge)
    unfolding output_index
    incoming_edge incoming_vars scope var =
        unwrap_resolved (resolve_scope scopes var.var scope) >>= λ r.
        elim (lookup (r.var, r.output_var) incoming_vars) [
          | none ↦ ok none
          | some node_index ↦ unwrap (lookup node_index indexes) >>= λ sorted_index.
              output_index node_index r.output_var >>= λ output.
              ok (some (record { source = as_u32 sorted_index; output = output }))
        ]

    unfoldable pub incoming_edges :
        List ((Variable × Option Variable) × ℕ)
        → List ℕ
        → List InputVariable
        → Attempt (List IncomingEdge)
    unfolding incoming_edge
    incoming_edges incoming_vars scope [] = ok []
    incoming_edges incoming_vars scope (v ∷ vs) = incoming_edge incoming_vars scope v >>= λ edge.
        incoming_edges incoming_vars scope vs >>= λ rest.
        ok (elim edge [ none ↦ rest | some e ↦ e ∷ rest ])

    unfoldable pub task_node : ℕ → Attempt (TaskNode m)
    unfolding outgoing_edges incoming_pairs incoming_edges
    task_node node_index = unwrap (p.node_weight node_index g) >>= λ scoped_var.
        unwrap (lookup scoped_var tasks) >>= λ found.
        outgoing_edges indexes (p.outgoing node_index g) >>= λ outgoing.
        incoming_pairs p g (p.incoming node_index g) >>= λ pairs.
        incoming_edges (collect_onto [] pairs) scoped_var.1 (input_vars found.1) >>= λ incoming.
        ok (record {
          task = found.1;
          incoming = incoming;
          outgoing = outgoing;
          id_fingerprint = 0;
          state_fingerprint = 0;
        })

    unfoldable pub task_nodes : List ℕ → Attempt (List (TaskNode m))
    unfolding task_node
    task_nodes [] = ok []
    task_nodes (i ∷ is) = task_node i >>= λ n. task_nodes is >>= λ ns. ok (n ∷ ns)

  module _ (finish : List (Piece m) → ℕ) (hash_map : Iteration m)
      (input_vars : Task m → List InputVariable) where
    -- The graph before its fingerprints.
    unfoldable pub linear_graph : List (Task m) → TaskScope → Attempt (TaskGraph m)
    unfolding add_tasks add_edges sorted_indexes task_nodes
    linear_graph task_list scopes =
        let added = add_tasks task_list p.new [] in
        add_edges input_vars scopes added.1 (hash_map.values added.1) added.0 >>= λ g.
        or_err cycle (p.toposort g) >>= λ toposorted.
        task_nodes input_vars scopes added.1 g (sorted_indexes toposorted) toposorted >>= λ ns.
        ok (record { nodes = ns })

    unfoldable pub new : List (Task m) → TaskScope → Attempt (TaskGraph m)
    unfolding linear_graph init_identity_fingerprints update_state_fingerprints
    new task_list scopes = linear_graph task_list scopes >>= λ g.
        init_identity_fingerprints finish g >>= λ g'.
        update_state_fingerprints finish g' >>= λ r. ok r.0
