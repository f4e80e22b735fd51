-- ===== src/Graph/Update.antt =====
-- `update_value`. The conversion of a value to its message, which arrow does, is a parameter.
use vegafusion.Graph.Fingerprints.{Piece, update_state_fingerprints}
use vegafusion.Graph.State.{
  missing_node, not_a_value, conversion, Attempt, ok, err, panic, ◌>>=◌, Messages, Data, TaskKind,
  value, TaskNode, TaskGraph, NodeValueIndex, output_vars,
}
use vegafusion.Prelude.{
  ℕ, zero, suc, ◌%◌, ◌^◌, List, [], ◌∷◌, ◌++◌, Option, none, some, get_elem?, length, set,
}

-- `NodeValueIndex::new(node_index as u32, …)` for an output index from `from` on.
unfoldable pub output_indexes : ℕ → ℕ → ℕ → List NodeValueIndex
output_indexes node_index from zero = []
output_indexes node_index from (suc n) =
    record { node_index = node_index % 2 ^ 32; output_index = some (from % 2 ^ 32) }
    ∷ output_indexes node_index (suc from) n

-- The loop over the nodes that were updated.
unfoldable pub value_indexes : {m : Messages} → TaskGraph m → List ℕ → Attempt (List NodeValueIndex)
unfolding output_indexes output_vars
value_indexes g [] = ok []
value_indexes g (i ∷ is) = elim (get_elem? g.nodes i) [
  | none ↦ panic
  | some n ↦ value_indexes g is >>= λ rest. ok (
      record { node_index = i % 2 ^ 32; output_index = none }
      ∷ (output_indexes i 0 (length (output_vars n.task)) ++ rest))
]

-- The guards: the task must be a value, and the new value convert to a message.
abbrev pub update_task :
    {m : Messages} {R : Type 0} → TaskKind m → Option Data → (Data → Attempt R) → Attempt R
update_task (value _) none replace = err conversion
update_task (value _) (some d) replace = replace d
update_task _ _ replace = err not_a_value

-- The node with another value.
abbrev pub with_value : {m : Messages} → Data → TaskNode m → TaskNode m
with_value v n = record n {
  task = record {
    variable = n.task.variable;
    scope = n.task.scope;
    task_kind = value v;
    tz_config = none;
  };
}

module _ {m : Messages} (finish : List (Piece m) → ℕ) {TaskValue : Type 0}
    (try_from : TaskValue → Option Data) where
  unfoldable pub update_value :
      ℕ → TaskValue → TaskGraph m → Attempt (TaskGraph m × List NodeValueIndex)
  unfolding update_state_fingerprints value_indexes
  update_value node_index v g = elim (get_elem? g.nodes node_index) [
    | none ↦ err missing_node
    | some n ↦ update_task n.task.task_kind (try_from v) (λ d.
        update_state_fingerprints finish
          (record g { nodes = set g.nodes node_index (with_value d n) })
        >>= λ (g', updated). value_indexes g' updated >>= λ indexes. ok (g', indexes))
  ]
