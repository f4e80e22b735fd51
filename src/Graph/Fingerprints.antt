-- ===== src/Graph/Fingerprints.antt =====
-- The identity and the state fingerprints. A hasher is what was written to it; `finish`, a
-- parameter, makes the 64-bit word of it.
use vegafusion.Graph.State.{
  Attempt, ok, panic, ◌>>=◌, Messages, scalar, table, value, Task, IncomingEdge, TaskNode,
  TaskGraph,
}
use vegafusion.Prelude.{
  ℕ, suc, String, List, [], ◌∷◌, ◌++◌, none, some, get_elem?, nat_beq, if◌then◌else◌,
}
use vegafusion.Scope.Variable.{Variable}

-- What is written to a hasher.
pub data Piece (m : Messages) : Type 0 where
  fingerprint : ℕ → Piece m
  task_piece : Task m → Piece m
  variable_piece : Variable → Piece m
  scope_piece : List ℕ → Piece m
  name_piece : String → Piece m

-- The fingerprints of the parents, out of those that are computed so far.
unfoldable pub parent_pieces :
    {m : Messages} → List ℕ → List IncomingEdge → Attempt (List (Piece m))
parent_pieces done [] = ok []
parent_pieces done (edge ∷ edges) = elim (get_elem? done edge.source) [
  | none ↦ panic
  | some f ↦ parent_pieces done edges >>= λ pieces. ok (fingerprint f ∷ pieces)
]

-- The loops over the nodes, with the vector that they fill.
unfoldable pub collect :
    {m : Messages}
    → (List ℕ → TaskNode m → Attempt ℕ)
    → List (TaskNode m)
    → List ℕ
    → Attempt (List ℕ)
collect hash [] done = ok done
collect hash (n ∷ ns) done = hash done n >>= λ f. collect hash ns (done ++ f ∷ [])

unfoldable pub set_ids : {m : Messages} → List (TaskNode m) → List ℕ → List (TaskNode m)
set_ids (n ∷ ns) (f ∷ fs) = record n { id_fingerprint = f } ∷ set_ids ns fs
set_ids ns _ = ns

-- The nodes with the new fingerprints, and the indices of those that changed; the first node has
-- the index given.
unfoldable pub set_states :
    {m : Messages} → ℕ → List (TaskNode m) → List ℕ → List (TaskNode m) × List ℕ
set_states i (n ∷ ns) (f ∷ fs) =
    let rest = set_states (suc i) ns fs in
    if nat_beq n.state_fingerprint f
    then (n ∷ rest.0, rest.1)
    else (record n { state_fingerprint = f } ∷ rest.0, i ∷ rest.1)
set_states i ns _ = (ns, [])

module _ {m : Messages} (finish : List (Piece m) → ℕ) where
  unfoldable pub id_hash : List ℕ → TaskNode m → Attempt ℕ
  unfolding parent_pieces
  id_hash done n = elim n.task.task_kind [
    | value (scalar _) ↦ ok (
        finish
          (variable_piece n.task.variable ∷ scope_piece n.task.scope ∷ name_piece "scalar" ∷ []))
    | value (table _) ↦ ok (
        finish (variable_piece n.task.variable ∷ scope_piece n.task.scope ∷ name_piece "data" ∷ []))
    | _ ↦ parent_pieces done n.incoming >>= λ pieces. ok (finish (pieces ++ task_piece n.task ∷ []))
  ]

  unfoldable pub state_hash : List ℕ → TaskNode m → Attempt ℕ
  unfolding parent_pieces
  state_hash done n = elim n.task.task_kind [
    | value _ ↦ ok (finish (task_piece n.task ∷ []))
    | _ ↦ parent_pieces done n.incoming >>= λ pieces.
        ok (finish (pieces ++ fingerprint n.id_fingerprint ∷ []))
  ]

  unfoldable pub init_identity_fingerprints : TaskGraph m → Attempt (TaskGraph m)
  unfolding collect id_hash set_ids
  init_identity_fingerprints g =
      collect id_hash g.nodes [] >>= λ fs. ok (record g { nodes = set_ids g.nodes fs })

  unfoldable pub update_state_fingerprints : TaskGraph m → Attempt (TaskGraph m × List ℕ)
  unfolding collect state_hash set_states
  update_state_fingerprints g = collect state_hash g.nodes [] >>= λ fs.
      ok (record g { nodes = (set_states 0 g.nodes fs).0 }, (set_states 0 g.nodes fs).1)
