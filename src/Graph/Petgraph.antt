-- ===== src/Graph/Petgraph.antt =====
-- What `TaskGraph::new` uses of the crate petgraph: directed graphs with weights on the nodes and on
-- the edges. A node's index is its number in the order of the additions. The limit of the crate, of
-- 2^32 - 1 nodes and as many edges, is left out.
use vegafusion.Graph.Keys.{Occurs}
use vegafusion.Prelude.{ℕ, ◌<◌, List, [], ◌∷◌, ◌++◌, Option, some, ◌≡◌, length, get_elem?}

pub record Petgraph (N W : Type 0) : Type 1 where
  pub DiGraph : Type 0
  -- The weights of the nodes, and the edges with their source, their target and their weight.
  pub weights : DiGraph → List N
  pub edges : DiGraph → List (ℕ × ℕ × W)
  pub new : DiGraph
  pub new_weights : weights new ≡ []
  pub new_edges : edges new ≡ []
  pub add_node : N → DiGraph → ℕ × DiGraph
  pub add_node_index : (n : N) (g : DiGraph) → (add_node n g).0 ≡ length (weights g)
  pub add_node_weights : (n : N) (g : DiGraph) → weights (add_node n g).1 ≡ weights g ++ n ∷ []
  pub add_node_edges : (n : N) (g : DiGraph) → edges (add_node n g).1 ≡ edges g
  -- A panic, if there is no such node.
  pub add_edge : ℕ → ℕ → W → DiGraph → Option DiGraph
  pub add_edge_law :
      (a b : ℕ) (w : W) (g : DiGraph)
      → a < length (weights g)
      → b < length (weights g)
      → (g' : DiGraph) × (add_edge a b w g ≡ some g')
        × (weights g' ≡ weights g)
        × (edges g' ≡ (a, b, w) ∷ edges g)
  pub node_weight : ℕ → DiGraph → Option N
  pub node_weight_law : (i : ℕ) (g : DiGraph) → node_weight i g ≡ get_elem? (weights g) i
  -- `edges_directed(i, Outgoing)` by their targets, and `edges_directed(i, Incoming)` by their
  -- sources and weights
  pub outgoing : ℕ → DiGraph → List ℕ
  pub outgoing_law :
      (i t : ℕ) (g : DiGraph) → Occurs t (outgoing i g) → (w : W) × Occurs (i, t, w) (edges g)
  pub incoming : ℕ → DiGraph → List (ℕ × W)
  pub incoming_law :
      (i s : ℕ) (w : W) (g : DiGraph) → Occurs (s, w) (incoming i g) → Occurs (s, i, w) (edges g)
  -- The indices of all nodes, each edge's source before its target; nothing, if there is a cycle.
  pub toposort : DiGraph → Option (List ℕ)
  pub toposort_all :
      (g : DiGraph) (order : List ℕ)
      → toposort g ≡ some order
      → (i : ℕ) → i < length (weights g)
      → Occurs i order
  pub toposort_nodes :
      (g : DiGraph) (order : List ℕ)
      → toposort g ≡ some order
      → (i : ℕ) → Occurs i order
      → i < length (weights g)
  pub toposort_before :
      (g : DiGraph) (order : List ℕ)
      → toposort g ≡ some order
      → (a b p q : ℕ) (w : W) → Occurs (a, b, w) (edges g)
      → get_elem? order p ≡ some a
      → get_elem? order q ≡ some b
      → p < q
