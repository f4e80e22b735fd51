-- ===== src/Graph/Build/Nodes.antt =====
-- The nodes of the linear graph: none panics, and they are in topological order.
use vegafusion.Graph.Build.{task_node, task_nodes}
use vegafusion.Graph.Build.Incoming.{
  unwrap_resolved-ne-panic, outgoing_edges-ne-panic, node_weight-some, incoming_pairs-ne-panic,
  incoming_pairs-source, index-some, IsFrom, indexed, indexed-ne-panic, indexed-Earlier,
}
use vegafusion.Graph.Keys.{collect_onto}
use vegafusion.Graph.Sorted.{IsSorted}
use vegafusion.Graph.State.{TaskNode}
use vegafusion.Prelude.{◌+◌}
use vegafusion.Graph.Build.{
  Graphs, TasksMap, ScopedVariable, InputVariable, unwrap, unwrap_resolved, sorted_indexes,
  outgoing_edges, incoming_pairs, incoming_edge, incoming_edges,
}
use vegafusion.Graph.Build.Edges.{InRange, IsRead}
use vegafusion.Graph.Build.Links.{AreRead}
use vegafusion.Graph.Build.Tasks.{IsBuilt}
use vegafusion.Graph.Chains.{ok-injective, bind-ok, bind-ne-panic, unwrap-ok, unwrap-ne-panic}
use vegafusion.Graph.Keys.{Occurs, pair_key, list_key, option_key, lookup-collect_onto}
use vegafusion.Graph.Sorted.{Earlier}
use vegafusion.Graph.State.{ok, panic, Messages, Task, IncomingEdge}
use vegafusion.Prelude.Assoc.{lookup}
use vegafusion.Prelude.{
  ℕ, suc, ◌<◌, List, [], ◌∷◌, Option, none, some, ◌≡◌, ◌≢◌, inl, inr, refl, sym, ap, subst, ◌∙◌,
  arith, get_elem?, length, nat_key,
}
use vegafusion.Scope.Resolve.{Resolved, resolve_scope}
use vegafusion.Scope.Tree.{TaskScope}
use vegafusion.Scope.Variable.{Variable, variable_key}

module _ {m : Messages} (p : Graphs) (input_vars : Task m → List InputVariable) (scopes : TaskScope)
    (tasks : TasksMap m) (g : p.DiGraph) (order : List ℕ) (built : IsBuilt p g tasks)
    (range : InRange p g) (sorted : p.toposort g ≡ some order) where
  abbrev indexes : List (ℕ × ℕ)
  indexes = sorted_indexes order

  abbrev From : ℕ → List ((Variable × Option Variable) × ℕ) → Type 0
  From i vars = IsFrom p input_vars scopes tasks g order built range sorted i vars

  incoming_edge-ne-panic :
      (i : ℕ) (vars : List ((Variable × Option Variable) × ℕ)) (usage_scope : List ℕ)
      (v : InputVariable)
      → From i vars
      → IsRead p input_vars scopes tasks usage_scope v
      → incoming_edge p input_vars scopes tasks g indexes vars usage_scope v ≢ panic
  unfolding incoming_edge
  incoming_edge-ne-panic i vars usage_scope v from (r, read) =
      bind-ne-panic (unwrap_resolved (resolve_scope scopes v.var usage_scope)) _
        (unwrap_resolved-ne-panic (resolve_scope scopes v.var usage_scope) r read)
        (λ x e. by_source x (lookup (x.var, x.output_var) vars) refl)
    where
      by_source :
          (x : Resolved) (o : Option ℕ)
          → lookup (x.var, x.output_var) vars ≡ o
          → (elim o [
            | none ↦ ok none
            | some node_index ↦
                indexed p input_vars scopes tasks g order built range sorted node_index x.output_var
          ])
            ≢ panic
      by_source x none e = λ impossible. cc
      by_source x (some s) e =
          let (w, linked) = from (x.var, x.output_var) s e in
          indexed-ne-panic p input_vars scopes tasks g order built range sorted s x.output_var
            (range s i w linked).0

  incoming_edge-Earlier :
      (i q : ℕ) (vars : List ((Variable × Option Variable) × ℕ)) (usage_scope : List ℕ)
      (v : InputVariable) (edge : IncomingEdge)
      → From i vars
      → get_elem? order q ≡ some i
      → incoming_edge p input_vars scopes tasks g indexes vars usage_scope v ≡ ok (some edge)
      → edge.source < q
  unfolding incoming_edge
  incoming_edge-Earlier i q vars usage_scope v edge from at_q ran =
      let (x, _, ran) =
        bind-ok (unwrap_resolved (resolve_scope scopes v.var usage_scope)) _ (some edge) ran in
      by_source x (lookup (x.var, x.output_var) vars) refl ran
    where
      by_source :
          (x : Resolved) (o : Option ℕ)
          → lookup (x.var, x.output_var) vars ≡ o
          → (elim o [
            | none ↦ ok none
            | some node_index ↦
                indexed p input_vars scopes tasks g order built range sorted node_index x.output_var
          ])
            ≡ ok (some edge)
          → edge.source < q
      by_source x none e ran = cc
      by_source x (some s) e ran =
          let (w, linked) = from (x.var, x.output_var) s e in
          indexed-Earlier p input_vars scopes tasks g order built range sorted i s q w x.output_var
            edge linked at_q ran

  incoming_edges-ne-panic :
      (i : ℕ) (vars : List ((Variable × Option Variable) × ℕ)) (usage_scope : List ℕ)
      (vs : List InputVariable)
      → From i vars
      → AreRead p input_vars scopes tasks usage_scope vs
      → incoming_edges p input_vars scopes tasks g indexes vars usage_scope vs ≢ panic
  unfolding incoming_edges
  incoming_edges-ne-panic i vars usage_scope [] from read = λ impossible. cc
  incoming_edges-ne-panic i vars usage_scope (v ∷ vs) from read =
      bind-ne-panic (incoming_edge p input_vars scopes tasks g indexes vars usage_scope v) _
        (incoming_edge-ne-panic i vars usage_scope v from (read v (inl refl)))
        (λ x e.
          bind-ne-panic (incoming_edges p input_vars scopes tasks g indexes vars usage_scope vs) _
            (incoming_edges-ne-panic i vars usage_scope vs from (λ u at_u. read u (inr at_u)))
            (λ rest later impossible. cc))

  incoming_edges-Earlier :
      (i q : ℕ) (vars : List ((Variable × Option Variable) × ℕ)) (usage_scope : List ℕ)
      (vs : List InputVariable) (edges : List IncomingEdge)
      → From i vars
      → get_elem? order q ≡ some i
      → incoming_edges p input_vars scopes tasks g indexes vars usage_scope vs ≡ ok edges
      → Earlier q edges
  unfolding incoming_edges
  incoming_edges-Earlier i q vars usage_scope [] edges from at_q ran =
      subst (Earlier q) (ok-injective ran) tt
  incoming_edges-Earlier i q vars usage_scope (v ∷ vs) edges from at_q ran =
      let (x, here, ran) =
        bind-ok (incoming_edge p input_vars scopes tasks g indexes vars usage_scope v) _ edges
          ran in
      let (rest, later, ran) =
        bind-ok (incoming_edges p input_vars scopes tasks g indexes vars usage_scope vs) _ edges
          ran in
      by_edge x rest here ran (incoming_edges-Earlier i q vars usage_scope vs rest from at_q later)
    where
      by_edge :
          (x : Option IncomingEdge) (rest : List IncomingEdge)
          → incoming_edge p input_vars scopes tasks g indexes vars usage_scope v ≡ ok x
          → ok (elim x [ none ↦ rest | some e ↦ e ∷ rest ]) ≡ ok edges
          → Earlier q rest
          → Earlier q edges
      by_edge none rest here e h = subst (Earlier q) (ok-injective e) h
      by_edge (some x) rest here e h =
          subst (Earlier q) (ok-injective e)
            (incoming_edge-Earlier i q vars usage_scope v x from at_q here, h)

  collected-From :
      (i : ℕ) (pairs : List ((Variable × Option Variable) × ℕ))
      → incoming_pairs p g (p.incoming i g) ≡ ok pairs
      → From i (collect_onto [] pairs)
  unfolding lookup
  collected-From i pairs ran key s e = elim (lookup-collect_onto key s pairs [] e) [
    | inl occurs ↦
        let (w, at_s) = incoming_pairs-source p g (p.incoming i g) pairs ran key s occurs in
        (w, p.incoming_law i s w g at_s)
    | inr nothing ↦ absurd (no_entry nothing)
  ]
    where
      no_entry : ◌≡◌ {A = Option ℕ} none (some s) → ⊥
      no_entry e = cc

  -- What the tasks of the map read was resolved.
  abbrev pub Known : Type 0
  Known =
      (k : ScopedVariable) (x : ℕ × Task m)
      → lookup k tasks ≡ some x
      → AreRead p input_vars scopes tasks x.1.scope (input_vars x.1)

  incoming_part-ne-panic :
      (i : ℕ) (weight : ScopedVariable) (y : ℕ × Task m)
      → Known
      → lookup weight tasks ≡ some y
      → (pairs : List ((Variable × Option Variable) × ℕ))
      → incoming_pairs p g (p.incoming i g) ≡ ok pairs
      → incoming_edges p input_vars scopes tasks g indexes
          (collect_onto [] pairs)
          weight.1
          (input_vars y.1)
        ≢ panic
  incoming_part-ne-panic i weight y known found pairs ran =
      incoming_edges-ne-panic i (collect_onto [] pairs) weight.1 (input_vars y.1)
        (collected-From i pairs ran)
        (subst (λ s. AreRead p input_vars scopes tasks s (input_vars y.1))
          (sym (ap (λ w. w.1) (built.found weight y.0 y.1 found).0)) (known weight y found))

  task_node-ne-panic :
      (i : ℕ)
      → Known
      → i < length (p.weights g)
      → task_node p input_vars scopes tasks g indexes i ≢ panic
  unfolding task_node
  task_node-ne-panic i known below =
      let (k, at_i) = node_weight-some p g i below in
      bind-ne-panic (unwrap (p.node_weight i g)) _ (unwrap-ne-panic (p.node_weight i g) k at_i)
        (λ weight e.
          let (x, found) =
            built.weighted i weight
              (sym (p.node_weight_law i g) ∙ unwrap-ok (p.node_weight i g) weight e) in
          bind-ne-panic (unwrap (lookup weight tasks)) _
            (unwrap-ne-panic (lookup weight tasks) x found)
            (λ y at_y.
              bind-ne-panic (outgoing_edges indexes (p.outgoing i g)) _
                (outgoing_edges-ne-panic indexes (p.outgoing i g) (λ t at_t.
                  let (w, linked) = p.outgoing_law i t g at_t in
                  index-some p input_vars scopes tasks g order built range sorted t
                    (range i t w linked).1))
                (λ out _.
                  bind-ne-panic (incoming_pairs p g (p.incoming i g)) _
                    (incoming_pairs-ne-panic p g (p.incoming i g)
                      (λ s w at_s. (range s i w (p.incoming_law i s w g at_s)).0))
                    (λ pairs ran.
                      bind-ne-panic
                        (incoming_edges p input_vars scopes tasks g indexes (collect_onto [] pairs)
                          weight.1 (input_vars y.1))
                        _
                        (incoming_part-ne-panic i weight y known
                          (unwrap-ok (lookup weight tasks) y at_y) pairs ran)
                        (λ edges _ impossible. cc)))))

  task_node-Earlier :
      (i q : ℕ) (n : TaskNode m)
      → get_elem? order q ≡ some i
      → task_node p input_vars scopes tasks g indexes i ≡ ok n
      → Earlier q n.incoming
  unfolding task_node
  task_node-Earlier i q n at_q ran =
      let (weight, _, ran) = bind-ok (unwrap (p.node_weight i g)) _ n ran in
      let (x, _, ran) = bind-ok (unwrap (lookup weight tasks)) _ n ran in
      let (out, _, ran) = bind-ok (outgoing_edges indexes (p.outgoing i g)) _ n ran in
      let (pairs, paired, ran) = bind-ok (incoming_pairs p g (p.incoming i g)) _ n ran in
      let (edges, linked, ran) =
        bind-ok
          (incoming_edges p input_vars scopes tasks g indexes (collect_onto [] pairs) weight.1
            (input_vars x.1))
          _ n ran in
      subst (λ n. Earlier q n.incoming) (ok-injective ran)
        (incoming_edges-Earlier i q (collect_onto [] pairs) weight.1 (input_vars x.1) edges
          (collected-From i pairs paired) at_q linked)

  pub task_nodes-ne-panic :
      (is : List ℕ)
      → Known
      → ((i : ℕ) → Occurs i is → i < length (p.weights g))
      → task_nodes p input_vars scopes tasks g indexes is ≢ panic
  unfolding task_nodes
  task_nodes-ne-panic [] known below = λ impossible. cc
  task_nodes-ne-panic (i ∷ is) known below =
      bind-ne-panic (task_node p input_vars scopes tasks g indexes i) _
        (task_node-ne-panic i known (below i (inl refl)))
        (λ n _.
          bind-ne-panic (task_nodes p input_vars scopes tasks g indexes is) _
            (task_nodes-ne-panic is known (λ j at_j. below j (inr at_j))) (λ ns _ impossible. cc))

  pub task_nodes-IsSorted :
      (is : List ℕ) (k : ℕ) (ns : List (TaskNode m))
      → ((j i : ℕ) → get_elem? is j ≡ some i → get_elem? order (j + k) ≡ some i)
      → task_nodes p input_vars scopes tasks g indexes is ≡ ok ns
      → IsSorted k ns
  unfolding task_nodes
  task_nodes-IsSorted [] k ns placed ran = subst (IsSorted k) (ok-injective ran) tt
  task_nodes-IsSorted (i ∷ is) k ns placed ran =
      let (n, here, ran) = bind-ok (task_node p input_vars scopes tasks g indexes i) _ ns ran in
      let (rest, later, ran) =
        bind-ok (task_nodes p input_vars scopes tasks g indexes is) _ ns ran in
      subst (IsSorted k) (ok-injective ran) (
        task_node-Earlier i k n
            (subst (λ q. get_elem? order q ≡ some i) zero_plus (placed 0 i refl)) here,
        task_nodes-IsSorted is (suc k) rest
            (λ j x at_j.
              subst (λ q. get_elem? order q ≡ some x) (suc_plus j) (placed (suc j) x at_j))
            later,
      )
    where
      zero_plus : 0 + k ≡ k
      zero_plus = omega arith

      suc_plus : (j : ℕ) → suc j + k ≡ j + suc k
      suc_plus j = omega arith
