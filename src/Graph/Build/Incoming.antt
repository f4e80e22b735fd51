-- ===== src/Graph/Build/Incoming.antt =====
-- The edges of a node in the linear graph: nothing that is unwrapped is missing, and every source
-- stands before the node.
use vegafusion.Graph.Build.{
  Graphs, TasksMap, ScopedVariable, InputVariable, as_u32, unwrap, or_err, unwrap_resolved,
  position, sorted_indexes, outgoing_edges, incoming_pairs, output_index,
}
use vegafusion.Graph.Build.Edges.{InRange}
use vegafusion.Graph.Build.Order.{sorted_indexes-place, sorted_indexes-some}
use vegafusion.Graph.Build.Tasks.{IsBuilt}
use vegafusion.Graph.Chains.{bind-ok, bind-ne-panic, unwrap-ok, unwrap-ne-panic, or_err-ne-panic}
use vegafusion.Graph.Keys.{Occurs, pair_key, list_key, option_key}
use vegafusion.Graph.State.{
  Attempt, ok, panic, ◌>>=◌, missing_output, Messages, Task, IncomingEdge, output_vars,
}
use vegafusion.Prelude.Assoc.{lookup}
use vegafusion.Prelude.Fallible.{Fallible, ok as resolved, err as unresolved_error}
use vegafusion.Prelude.{
  ℕ, ◌<◌, ◌≤◌, List, [], ◌∷◌, Option, none, some, ◌≡◌, ◌≢◌, inl, inr, refl, sym, ap, subst, ◌∙◌,
  arith, get_elem?, get_elem?_lt, length, nat_key,
}
use vegafusion.Scope.Resolve.{Resolved}
use vegafusion.Scope.Tree.{TaskScope, ScopeError}
use vegafusion.Scope.Variable.{Variable, variable_key}

as_u32-le : (n : ℕ) → as_u32 n ≤ n
as_u32-le n = grind arith

pub unwrap_resolved-ne-panic :
    (f : Fallible ScopeError Resolved) (r : Resolved) → f ≡ resolved r → unwrap_resolved f ≢ panic
unwrap_resolved-ne-panic (resolved r') r h e = cc
unwrap_resolved-ne-panic (unresolved_error x) r h e = cc

pub outgoing_edges-ne-panic :
    (indexes : List (ℕ × ℕ)) (targets : List ℕ)
    → ((t : ℕ) → Occurs t targets → (q : ℕ) × (lookup t indexes ≡ some q))
    → outgoing_edges indexes targets ≢ panic
unfolding outgoing_edges
outgoing_edges-ne-panic indexes [] h = λ e. cc
outgoing_edges-ne-panic indexes (t ∷ ts) h =
    let (q, at_q) = h t (inl refl) in
    bind-ne-panic (unwrap (lookup t indexes)) _ (unwrap-ne-panic (lookup t indexes) q at_q) (λ x e.
      bind-ne-panic (outgoing_edges indexes ts) _
        (outgoing_edges-ne-panic indexes ts (λ u at_u. h u (inr at_u))) (λ rest e' e''. cc))

module _ (p : Graphs) (g : p.DiGraph) where
  pub node_weight-some :
      (i : ℕ) → i < length (p.weights g) → (k : ScopedVariable) × (p.node_weight i g ≡ some k)
  node_weight-some i below =
      let (k, at_i) = get_elem?_lt (p.weights g) i below in (k, p.node_weight_law i g ∙ at_i)

  pub incoming_pairs-ne-panic :
      (ids : List (ℕ × Option Variable))
      → ((s : ℕ) (w : Option Variable) → Occurs (s, w) ids → s < length (p.weights g))
      → incoming_pairs p g ids ≢ panic
  unfolding incoming_pairs
  incoming_pairs-ne-panic [] h = λ e. cc
  incoming_pairs-ne-panic ((s, w) ∷ ids) h =
      let (k, at_s) = node_weight-some s (h s w (inl refl)) in
      bind-ne-panic (unwrap (p.node_weight s g)) _ (unwrap-ne-panic (p.node_weight s g) k at_s)
        (λ x e.
          bind-ne-panic (incoming_pairs p g ids) _
            (incoming_pairs-ne-panic ids (λ t u at_t. h t u (inr at_t))) (λ rest e' e''. cc))

  -- The values of the pairs are sources.
  pub incoming_pairs-source :
      (ids : List (ℕ × Option Variable)) (pairs : List ((Variable × Option Variable) × ℕ))
      → incoming_pairs p g ids ≡ ok pairs
      → (key : Variable × Option Variable) (s : ℕ) → Occurs (key, s) pairs
      → (w : Option Variable) × Occurs (s, w) ids
  unfolding incoming_pairs
  incoming_pairs-source [] pairs ran key s h = elim (subst (Occurs (key, s)) (ok_pairs ran) h) [ ]
    where
      ok_pairs : ok [] ≡ ok pairs → pairs ≡ []
      ok_pairs e = cc
  incoming_pairs-source ((t, w) ∷ ids) pairs ran key s h =
      let (weight, _, ran) = bind-ok (unwrap (p.node_weight t g)) _ pairs ran in
      let (rest, later, ran) = bind-ok (incoming_pairs p g ids) _ pairs ran in
      by_pair weight rest (subst (Occurs (key, s)) (ok_pairs weight rest ran) h)
        (incoming_pairs-source ids rest later key s)
    where
      ok_pairs :
          (weight : ScopedVariable) (rest : List ((Variable × Option Variable) × ℕ))
          → ok (((weight.0, w), t) ∷ rest) ≡ ok pairs
          → pairs ≡ ((weight.0, w), t) ∷ rest
      ok_pairs weight rest e = cc

      by_pair :
          (weight : ScopedVariable) (rest : List ((Variable × Option Variable) × ℕ))
          → Occurs (key, s) (((weight.0, w), t) ∷ rest)
          → (Occurs (key, s) rest → (w' : Option Variable) × Occurs (s, w') ids)
          → (w' : Option Variable) × Occurs (s, w') ((t, w) ∷ ids)
      by_pair weight rest (inl here) later = (w, inl (ap (λ x. (x.1, w)) here))
      by_pair weight rest (inr there) later = let (w', at_s) = later there in (w', inr at_s)

module _ {m : Messages} (p : Graphs) (input_vars : Task m → List InputVariable) (scopes : TaskScope)
    (tasks : TasksMap m) (g : p.DiGraph) (order : List ℕ) (built : IsBuilt p g tasks)
    (range : InRange p g) (sorted : p.toposort g ≡ some order) where
  pub index-some :
      (i : ℕ) → i < length (p.weights g) → (q : ℕ) × (lookup i (sorted_indexes order) ≡ some q)
  index-some i below = sorted_indexes-some order i (p.toposort_all g order sorted i below)

  -- The edges into the node are those that the map of its inputs names.
  abbrev pub IsFrom : ℕ → List ((Variable × Option Variable) × ℕ) → Type 0
  IsFrom i incoming_vars =
      (key : Variable × Option Variable) (s : ℕ)
      → lookup key incoming_vars ≡ some s
      → (w : Option Variable) × Occurs (s, i, w) (p.edges g)

  output_index-ne-panic :
      (i : ℕ) (o : Option Variable)
      → i < length (p.weights g)
      → output_index p input_vars scopes tasks g (sorted_indexes order) i o ≢ panic
  unfolding output_index
  output_index-ne-panic i none below = λ e. cc
  output_index-ne-panic i (some out) below =
      let (k, at_i) = node_weight-some p g i below in
      bind-ne-panic (unwrap (p.node_weight i g)) _ (unwrap-ne-panic (p.node_weight i g) k at_i)
        (λ weight e.
          let (x, found) =
            built.weighted i weight
              (sym (p.node_weight_law i g) ∙ unwrap-ok (p.node_weight i g) weight e) in
          bind-ne-panic (unwrap (lookup weight tasks)) _
            (unwrap-ne-panic (lookup weight tasks) x found)
            (λ input e'.
              bind-ne-panic (or_err missing_output (position out (output_vars input.1))) _
                (or_err-ne-panic missing_output (position out (output_vars input.1)))
                (λ n e'' e'''. cc)))

  abbrev pub indexed : ℕ → Option Variable → Attempt (Option IncomingEdge)
  indexed s out = unwrap (lookup s (sorted_indexes order)) >>= λ sorted_index.
      output_index p input_vars scopes tasks g (sorted_indexes order) s out >>= λ output.
      ok (some (record { source = as_u32 sorted_index; output = output }))

  pub indexed-ne-panic :
      (s : ℕ) (out : Option Variable) → s < length (p.weights g) → indexed s out ≢ panic
  indexed-ne-panic s out below =
      let (q, at_q) = index-some s below in
      bind-ne-panic (unwrap (lookup s (sorted_indexes order))) _
        (unwrap-ne-panic (lookup s (sorted_indexes order)) q at_q)
        (λ x e.
          bind-ne-panic (output_index p input_vars scopes tasks g (sorted_indexes order) s out) _
            (output_index-ne-panic s out below) (λ o e' e''. cc))

  -- A source of an edge to the node at a place stands before it.
  pub indexed-Earlier :
      (i s q : ℕ) (w out : Option Variable) (edge : IncomingEdge)
      → Occurs (s, i, w) (p.edges g)
      → get_elem? order q ≡ some i
      → indexed s out ≡ ok (some edge)
      → edge.source < q
  indexed-Earlier i s q w out edge linked at_q ran =
      let (n, e, ran) = bind-ok (unwrap (lookup s (sorted_indexes order))) _ (some edge) ran in
      let (o, _, ran) =
        bind-ok (output_index p input_vars scopes tasks g (sorted_indexes order) s out) _
          (some edge) ran in
      let at_n = sorted_indexes-place order s n (unwrap-ok (lookup s (sorted_indexes order)) n e) in
      let before : n < q = p.toposort_before g order sorted s i n q w linked at_n at_q in
      subst (λ x. x < q) (source_eq n o ran) (smaller n before)
    where
      source_eq :
          (n : ℕ) (o : Option ℕ)
          → ◌≡◌ {A = Attempt (Option IncomingEdge)}
              (ok (some (record { source = as_u32 n; output = o })))
              (ok (some edge))
          → as_u32 n ≡ edge.source
      source_eq n o e = cc

      smaller : (n : ℕ) → n < q → as_u32 n < q
      smaller n h = omega (arith, as_u32-le n)
