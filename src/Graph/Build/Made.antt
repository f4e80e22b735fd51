-- ===== src/Graph/Build/Made.antt =====
-- What `TaskGraph::new` makes.
use vegafusion.Graph.Build.{
  Graphs, TasksMap, ScopedVariable, InputVariable, Iteration, add_tasks, add_edges, sorted_indexes,
  task_nodes, or_err, linear_graph, new,
}
use vegafusion.Graph.Build.Edges.{InRange, Placed}
use vegafusion.Graph.Build.Links.{AtNodes, AreRead, add_edges-Extends, add_edges-ne-panic}
use vegafusion.Graph.Build.Nodes.{task_nodes-ne-panic, task_nodes-IsSorted}
use vegafusion.Graph.Build.Tasks.{IsBuilt, add_tasks-IsBuilt, new-IsBuilt, weights-IsBuilt}
use vegafusion.Graph.Chains.{ok-injective, bind-ok, bind-ne-panic, or_err-ok, or_err-ne-panic}
use vegafusion.Graph.Changes.{update_state_fingerprints_twice}
use vegafusion.Graph.Fingerprints.{
  Piece, init_identity_fingerprints, update_state_fingerprints, collect, id_hash, state_hash,
  set_states,
}
use vegafusion.Graph.Identity.{init_identity_fingerprints_again}
use vegafusion.Graph.Keys.{Occurs, pair_key, list_key, get_elem?-lt}
use vegafusion.Graph.Sorted.{IsSorted, set_ids-IsSorted, update_state_fingerprints-ok}
use vegafusion.Graph.State.{ok, panic, ◌>>=◌, cycle, Messages, Task, TaskNode, TaskGraph}
use vegafusion.Prelude.Assoc.{lookup}
use vegafusion.Prelude.{
  ℕ, nat_key, suc, ◌+◌, nat_beq, Bool, true, false, if◌then◌else◌, List, [], ◌∷◌, some, ◌≡◌, ◌≢◌,
  sym, ap, subst, ◌∙◌, arith, get_elem?,
}
use vegafusion.Scope.Tree.{TaskScope}
use vegafusion.Scope.Variable.{variable_key}

abbrev FirstSorted : {m : Messages} → ℕ → List (TaskNode m) × List ℕ → Type 0
FirstSorted k r = IsSorted k r.0

set_states-IsSorted :
    {m : Messages} (k i : ℕ) (ns : List (TaskNode m)) (fs : List ℕ)
    → IsSorted k ns
    → IsSorted k (set_states i ns fs).0
unfolding set_states
set_states-IsSorted k i [] fs h = h
set_states-IsSorted k i (n ∷ ns) [] h = h
set_states-IsSorted k i (n ∷ ns) (f ∷ fs) (h, hs) =
    by_test (nat_beq n.state_fingerprint f) (set_states-IsSorted (suc k) (suc i) ns fs hs)
  where
    by_test :
        (b : Bool)
        → IsSorted (suc k) (set_states (suc i) ns fs).0
        → FirstSorted k (
            if b then (n ∷ (set_states (suc i) ns fs).0, (set_states (suc i) ns fs).1) else (
              record n { state_fingerprint = f } ∷ (set_states (suc i) ns fs).0,
              i ∷ (set_states (suc i) ns fs).1,
            ))
    by_test true rest = (h, rest)
    by_test false rest = (h, rest)

module _ {m : Messages} (finish : List (Piece m) → ℕ) where
  init_identity_fingerprints-IsSorted :
      (g g' : TaskGraph m)
      → IsSorted 0 g.nodes
      → init_identity_fingerprints finish g ≡ ok g'
      → IsSorted 0 g'.nodes
  unfolding init_identity_fingerprints
  init_identity_fingerprints-IsSorted g g' h ran =
      let (fs, _, done) = bind-ok (collect (id_hash finish) g.nodes []) _ g' ran in
      subst (λ g. IsSorted 0 g.nodes) (ok-injective done) (set_ids-IsSorted finish 0 g.nodes fs h)

  update_state_fingerprints-IsSorted :
      (g : TaskGraph m) (r : TaskGraph m × List ℕ)
      → IsSorted 0 g.nodes
      → update_state_fingerprints finish g ≡ ok r
      → IsSorted 0 r.0.nodes
  unfolding update_state_fingerprints
  update_state_fingerprints-IsSorted g r h ran =
      let (fs, _, done) = bind-ok (collect (state_hash finish) g.nodes []) _ r ran in
      subst (λ r. IsSorted 0 r.0.nodes) (ok-injective done) (set_states-IsSorted 0 0 g.nodes fs h)

module _ {m : Messages} (p : Graphs) (finish : List (Piece m) → ℕ) (hash_map : Iteration m)
    (input_vars : Task m → List InputVariable) (task_list : List (Task m))
    (scopes : TaskScope) where
  abbrev tasks : TasksMap m
  tasks = (add_tasks p task_list p.new []).1

  abbrev unlinked : p.DiGraph
  unlinked = (add_tasks p task_list p.new []).0

  unlinked-IsBuilt : IsBuilt p unlinked tasks × (p.edges unlinked ≡ [])
  unlinked-IsBuilt = add_tasks-IsBuilt p task_list p.new [] (new-IsBuilt p) p.new_edges

  unlinked-InRange : InRange p unlinked
  unlinked-InRange a b w at_edge = elim (subst (Occurs (a, b, w)) unlinked-IsBuilt.1 at_edge) [ ]

  unlinked-Placed : Placed p input_vars scopes tasks unlinked
  unlinked-Placed k i t e =
      get_elem?-lt (p.weights unlinked) i k (unlinked-IsBuilt.0.found k i t e).1

  unlinked-AtNodes : AtNodes p input_vars scopes tasks unlinked (hash_map.values tasks)
  unlinked-AtNodes x at_x =
      let (k, e) = hash_map.values_found tasks x unlinked-IsBuilt.0.distinct at_x in
      unlinked-Placed k x.0 x.1 e

  linked :
      (g : p.DiGraph)
      → add_edges p input_vars scopes tasks (hash_map.values tasks) unlinked ≡ ok g
      → IsBuilt p g tasks
        × InRange p g
        × ((k : ScopedVariable) (x : ℕ × Task m)
            → lookup k tasks ≡ some x
            → AreRead p input_vars scopes tasks x.1.scope (input_vars x.1))
  linked g ran =
      let (extends, reads) =
        add_edges-Extends p input_vars scopes tasks (hash_map.values tasks) unlinked g
          unlinked-InRange unlinked-Placed unlinked-AtNodes ran in
      (
        weights-IsBuilt p unlinked g tasks unlinked-IsBuilt.0 extends.0,
        extends.1,
        λ k x e. reads x (hash_map.values_all tasks k x unlinked-IsBuilt.0.distinct e),
      )

  linear_graph-ne-panic : linear_graph p finish hash_map input_vars task_list scopes ≢ panic
  unfolding linear_graph
  linear_graph-ne-panic =
      bind-ne-panic (add_edges p input_vars scopes tasks (hash_map.values tasks) unlinked) _
        (add_edges-ne-panic p input_vars scopes tasks (hash_map.values tasks) unlinked
          unlinked-InRange unlinked-Placed unlinked-AtNodes)
        (λ g ran.
          let (built, range, known) = linked g ran in
          bind-ne-panic (or_err cycle (p.toposort g)) _ (or_err-ne-panic cycle (p.toposort g))
            (λ order found.
              let sorted = or_err-ok cycle (p.toposort g) order found in
              bind-ne-panic (task_nodes p input_vars scopes tasks g (sorted_indexes order) order) _
                (task_nodes-ne-panic p input_vars scopes tasks g order built range sorted order
                  known (p.toposort_nodes g order sorted))
                (λ ns _ impossible. cc)))

  linear_graph-IsSorted :
      (g : TaskGraph m)
      → linear_graph p finish hash_map input_vars task_list scopes ≡ ok g
      → IsSorted 0 g.nodes
  unfolding linear_graph
  linear_graph-IsSorted made ran =
      let (g, here, ran) =
        bind-ok (add_edges p input_vars scopes tasks (hash_map.values tasks) unlinked) _ made ran in
      let (built, range, known) = linked g here in
      let (order, found, ran) = bind-ok (or_err cycle (p.toposort g)) _ made ran in
      let sorted = or_err-ok cycle (p.toposort g) order found in
      let (ns, nodes, ran) =
        bind-ok (task_nodes p input_vars scopes tasks g (sorted_indexes order) order) _ made ran in
      subst (λ g. IsSorted 0 g.nodes) (ok-injective ran)
        (task_nodes-IsSorted p input_vars scopes tasks g order built range sorted order 0 ns
          (λ j i at_j. subst (λ q. get_elem? order q ≡ some i) (plus_zero j) at_j) nodes)
    where
      plus_zero : (j : ℕ) → j ≡ j + 0
      plus_zero j = omega arith

  -- On tasks whose messages have every optional field that is unwrapped, as the types of the model
  -- have, `TaskGraph::new` does not panic, whatever their scopes and what they read, and in whatever
  -- order the map of tasks is iterated: each key and each index that it looks up in the map, in the
  -- graph and in the order of the nodes, is there.
  pub new-ne-panic : new p finish hash_map input_vars task_list scopes ≢ panic
  unfolding new
  new-ne-panic =
      bind-ne-panic (linear_graph p finish hash_map input_vars task_list scopes) _
        linear_graph-ne-panic
        (λ g ran.
          let (g', g'', updated, ids, states) =
            update_state_fingerprints-ok finish g (linear_graph-IsSorted g ran) in
          λ impossible. fingerprinted g g' (g'', updated) ids states impossible)
    where
      fingerprinted :
          (g g' : TaskGraph m) (r : TaskGraph m × List ℕ)
          → init_identity_fingerprints finish g ≡ ok g'
          → update_state_fingerprints finish g' ≡ ok r
          → (init_identity_fingerprints finish g >>= λ g'.
              update_state_fingerprints finish g' >>= λ r. ok r.0)
            ≢ panic
      fingerprinted g g' r ids states impossible = ok_ne (
          sym (
            ap (λ a. a >>= λ g'. update_state_fingerprints finish g' >>= λ r. ok r.0) ids
            ∙ ap (λ a. a >>= λ r. ok r.0) states)
          ∙ impossible)
        where
          ok_ne : {g : TaskGraph m} → ok g ≡ panic → ⊥
          ok_ne e = cc

  -- Where `TaskGraph::new` gives a graph, its nodes are in topological order: every incoming edge
  -- comes from a node that stands before.
  pub new-IsSorted :
      (g : TaskGraph m)
      → new p finish hash_map input_vars task_list scopes ≡ ok g
      → IsSorted 0 g.nodes
  unfolding new
  new-IsSorted made ran =
      let (g, here, ran) =
        bind-ok (linear_graph p finish hash_map input_vars task_list scopes) _ made ran in
      let (g', ids, ran) = bind-ok (init_identity_fingerprints finish g) _ made ran in
      let (r, states, ran) = bind-ok (update_state_fingerprints finish g') _ made ran in
      subst (λ g. IsSorted 0 g.nodes) (ok-injective ran)
        (update_state_fingerprints-IsSorted finish g' r
          (init_identity_fingerprints-IsSorted finish g g' (linear_graph-IsSorted g here) ids)
          states)

  -- In a new graph every fingerprint is up to date: to compute the identity fingerprints again changes
  -- nothing, and to update the state fingerprints again changes nothing and reports no node.
  pub new-update_state_fingerprints :
      (g : TaskGraph m)
      → new p finish hash_map input_vars task_list scopes ≡ ok g
      → (init_identity_fingerprints finish g ≡ ok g)
        × (update_state_fingerprints finish g ≡ ok (g, []))
  unfolding new
  new-update_state_fingerprints made ran =
      let (g, here, ran) =
        bind-ok (linear_graph p finish hash_map input_vars task_list scopes) _ made ran in
      let (g', ids, ran) = bind-ok (init_identity_fingerprints finish g) _ made ran in
      let (r, states, ran) = bind-ok (update_state_fingerprints finish g') _ made ran in
      subst
        (λ g.
          (init_identity_fingerprints finish g ≡ ok g)
          × (update_state_fingerprints finish g ≡ ok (g, [])))
        (ok-injective ran)
        (
          init_identity_fingerprints_again finish g g' r ids states,
          update_state_fingerprints_twice finish g' r.0 r.1 states,
        )
