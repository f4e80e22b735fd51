-- ===== src/Graph/Mapping.antt =====
-- `TaskGraph::build_mapping`: where the value of a variable is found.
use vegafusion.Graph.Build.{ScopedVariable, as_u32}
use vegafusion.Graph.Keys.{pair_key, list_key, put, lookup-put}
use vegafusion.Graph.State.{Messages, TaskNode, TaskGraph, NodeValueIndex, output_vars}
use vegafusion.Prelude.Assoc.{lookup}
use vegafusion.Prelude.{
  ℕ, suc, ◌+◌, List, [], ◌∷◌, Option, none, some, ◌≡◌, ◌⊎◌, inl, inr, refl, sym, ap, ◌∙◌, arith,
  get_elem?, nat_key,
}
use vegafusion.Scope.Variable.{Variable, variable_key}

abbrev pub Mapping : Type 0
Mapping = List (ScopedVariable × NodeValueIndex)

-- `NodeValueIndex::new`, with the casts of its arguments.
abbrev pub value_index : ℕ → Option ℕ → NodeValueIndex
value_index i none = record { node_index = as_u32 i; output_index = none }
value_index i (some j) = record { node_index = as_u32 i; output_index = some (as_u32 j) }

-- The loop over the variables that a task puts out, from a place on.
unfoldable pub map_outputs : ℕ → List ℕ → ℕ → List Variable → Mapping → Mapping
unfolding put
map_outputs i scope j [] mapping = mapping
map_outputs i scope j (v ∷ vs) mapping =
    map_outputs i scope (suc j) vs (put (v, scope) (value_index i (some j)) mapping)

outputs_found :
    (k : ScopedVariable) (ix : NodeValueIndex) (i : ℕ) (scope : List ℕ) (j : ℕ) (vs : List Variable)
    (mapping : Mapping)
    → lookup k (map_outputs i scope j vs mapping) ≡ some ix
    → ((p : ℕ) × (ix ≡ value_index i (some (p + j))) × (k.1 ≡ scope) × (get_elem? vs p ≡ some k.0))
      ⊎ (lookup k mapping ≡ some ix)
unfolding map_outputs
outputs_found k ix i scope j [] mapping h = inr h
outputs_found k ix i scope j (v ∷ vs) mapping h =
    elim (outputs_found k ix i scope (suc j) vs (put (v, scope) (value_index i (some j)) mapping)
      h) [
        | inl (p, e, at_scope, at_p) ↦
            inl (suc p, e ∙ ap (λ q. value_index i (some q)) (later p), at_scope, at_p)
        | inr before ↦ elim (lookup-put (v, scope) k (value_index i (some j)) ix mapping before) [
          | inl (same, here) ↦ inl (
            0,
            here ∙ ap (λ q. value_index i (some q)) first,
            ap (λ x. x.1) same,
            ap (λ x. some x.0) (sym same),
          )
          | inr old ↦ inr old
        ]
      ]
  where
    later : (p : ℕ) → p + suc j ≡ suc p + j
    later p = omega arith

    first : j ≡ 0 + j
    first = omega arith

module _ {m : Messages} where
  -- The loop over the nodes, from an index on.
  unfoldable pub map_nodes : ℕ → List (TaskNode m) → Mapping → Mapping
  unfolding put map_outputs
  map_nodes i [] mapping = mapping
  map_nodes i (n ∷ ns) mapping = map_nodes (suc i) ns (
      map_outputs i n.task.scope 0 (output_vars n.task)
        (put (n.task.variable, n.task.scope) (value_index i none) mapping))

  unfoldable pub build_mapping : TaskGraph m → Mapping
  unfolding map_nodes
  build_mapping g = map_nodes 0 g.nodes []

  -- The node at the index brings the variable, as its own or as one that it puts out.
  abbrev pub Brings : TaskNode m → ScopedVariable → Option ℕ → Type 0
  Brings n k none = k ≡ (n.task.variable, n.task.scope)
  Brings n k (some j) = (k.1 ≡ n.task.scope) × (get_elem? (output_vars n.task) j ≡ some k.0)

  abbrev pub IsBrought : List (TaskNode m) → ScopedVariable → NodeValueIndex → Type 0
  IsBrought ns k ix =
      (i : ℕ) × (o : Option ℕ) × (n : TaskNode m) × (ix ≡ value_index i o)
      × (get_elem? ns i ≡ some n)
      × Brings n k o

  nodes_found :
      (k : ScopedVariable) (ix : NodeValueIndex) (i : ℕ) (ns : List (TaskNode m))
      (mapping : Mapping)
      → lookup k (map_nodes i ns mapping) ≡ some ix
      → ((p : ℕ) × (o : Option ℕ) × (n : TaskNode m) × (ix ≡ value_index (p + i) o)
          × (get_elem? ns p ≡ some n)
          × Brings n k o)
        ⊎ (lookup k mapping ≡ some ix)
  unfolding map_nodes
  nodes_found k ix i [] mapping h = inr h
  nodes_found k ix i (n ∷ ns) mapping h =
      let own = put (n.task.variable, n.task.scope) (value_index i none) mapping in
      elim (nodes_found k ix (suc i) ns (map_outputs i n.task.scope 0 (output_vars n.task) own) h) [
        | inl (p, o, x, e, at_p, brings) ↦
            inl (suc p, o, x, e ∙ ap (λ q. value_index q o) (later p), at_p, brings)
        | inr before ↦ elim (outputs_found k ix i n.task.scope 0 (output_vars n.task) own before) [
          | inl (p, e, at_scope, at_p) ↦ inl (
            0,
            some p,
            n,
            e
                ∙ ap (λ q. value_index i (some q)) (plus_zero p)
                ∙ ap (λ q. value_index q (some p)) first,
            refl,
            (at_scope, at_p),
          )
          | inr mine ↦
              elim (lookup-put (n.task.variable, n.task.scope) k (value_index i none) ix mapping
                mine) [
                  | inl (same, here) ↦
                      inl (0, none, n, here ∙ ap (λ q. value_index q none) first, refl, same)
                  | inr old ↦ inr old
                ]
        ]
      ]
    where
      later : (p : ℕ) → p + suc i ≡ suc p + i
      later p = omega arith

      first : i ≡ 0 + i
      first = omega arith

      plus_zero : (p : ℕ) → p + 0 ≡ p
      plus_zero p = omega arith

  -- Every entry of the mapping points to a node of the graph that brings its variable: the node's
  -- own variable in the node's scope, or the one that the node puts out at the index given.
  pub build_mapping-IsBrought :
      (g : TaskGraph m) (k : ScopedVariable) (ix : NodeValueIndex)
      → lookup k (build_mapping g) ≡ some ix
      → IsBrought g.nodes k ix
  unfolding build_mapping lookup
  build_mapping-IsBrought g k ix h = elim (nodes_found k ix 0 g.nodes [] h) [
    | inl (p, o, n, e, at_p, brings) ↦
        (p, o, n, e ∙ ap (λ q. value_index q o) (plus_zero p), at_p, brings)
    | inr nothing ↦ absurd (no_entry nothing)
  ]
    where
      plus_zero : (p : ℕ) → p + 0 ≡ p
      plus_zero p = omega arith

      no_entry : ◌≡◌ {A = Option NodeValueIndex} none (some ix) → ⊥
      no_entry e = cc
