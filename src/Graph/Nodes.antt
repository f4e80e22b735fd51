-- ===== src/Graph/Nodes.antt =====
-- The neighbours of a node.
use vegafusion.Graph.State.{
  missing_node, Attempt, ok, err, panic, ◌>>=◌, Messages, TaskNode, TaskGraph,
}
use vegafusion.Prelude.{ℕ, List, [], ◌∷◌, none, some, get_elem?, map}

-- `self.nodes.get(index).unwrap()` for each of the indices.
unfoldable pub nodes_at : {m : Messages} → TaskGraph m → List ℕ → Attempt (List (TaskNode m))
nodes_at g [] = ok []
nodes_at g (i ∷ is) = elim (get_elem? g.nodes i) [
  | none ↦ panic
  | some n ↦ nodes_at g is >>= λ ns. ok (n ∷ ns)
]

module _ {m : Messages} (g : TaskGraph m) where
  unfoldable pub node : ℕ → Attempt (TaskNode m)
  node node_index = elim (get_elem? g.nodes node_index) [ none ↦ err missing_node | some n ↦ ok n ]

  unfoldable pub parent_indices : ℕ → Attempt (List ℕ)
  unfolding node
  parent_indices node_index = node node_index >>= λ n. ok (map (λ e. e.source) n.incoming)

  unfoldable pub child_indices : ℕ → Attempt (List ℕ)
  unfolding node
  child_indices node_index = node node_index >>= λ n. ok (map (λ e. e.target) n.outgoing)

  unfoldable pub parent_nodes : ℕ → Attempt (List (TaskNode m))
  unfolding node nodes_at
  parent_nodes node_index = node node_index >>= λ n. nodes_at g (map (λ e. e.source) n.incoming)

  unfoldable pub child_nodes : ℕ → Attempt (List (TaskNode m))
  unfolding node nodes_at
  child_nodes node_index = node node_index >>= λ n. nodes_at g (map (λ e. e.target) n.outgoing)
