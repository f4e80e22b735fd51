-- ===== src/Graph/Tests.antt =====
-- The properties of the graph on two values, each with a signal that reads it. The hasher adds up.
use vegafusion.Graph.Changes.{update_state_fingerprints_twice}
use vegafusion.Graph.Ends.{update_value-ne-panic}
use vegafusion.Graph.Fingerprints.{
  Piece, fingerprint, task_piece, parent_pieces, collect, state_hash, init_identity_fingerprints,
  update_state_fingerprints, set_states,
}
use vegafusion.Graph.Reports.{member, differ, update_state_fingerprints-member}
use vegafusion.Graph.Sorted.{IsSorted, update_state_fingerprints-ok}
use vegafusion.Graph.State.{
  ok, panic, Messages, Data, scalar, TaskKind, value, signal_task, Task, TaskNode, TaskGraph,
  NodeValueIndex, output_vars,
}
use vegafusion.Graph.Unaffected.{IsClosed, update_value_unaffected}
use vegafusion.Graph.Update.{update_value, value_indexes, output_indexes}
use vegafusion.Prelude.{
  ℕ, ◌+◌, Bool, List, [], ◌∷◌, ◌≡◌, ◌≢◌, refl, arith, Option, none, some, get_elem?, leb,
}
use vegafusion.Scope.Variable.{signal}

abbrev messages : Messages
messages = record {
  DataValuesTask = Unit;
  DataUrlTask = Unit;
  DataSourceTask = Unit;
  SignalTask = Unit;
  TzConfig = Unit;
  values_output_vars = λ _. [];
  url_output_vars = λ _. [];
  source_output_vars = λ _. [];
}

abbrev weight : Piece messages → ℕ
weight (fingerprint f) = f + 1
weight (task_piece t) = elim t.task_kind [ value (scalar (b ∷ _)) ↦ b | _ ↦ 1 ]
weight _ = 1

abbrev add_up : List (Piece messages) → ℕ
add_up [] = 0
add_up (x ∷ xs) = weight x + add_up xs

abbrev as_scalar : ℕ → Option Data
as_scalar b = some (scalar (b ∷ []))

abbrev task : TaskKind messages → Task messages
task kind = record {
  variable = record { name = "x"; ns = signal };
  scope = [];
  task_kind = kind;
  tz_config = none;
}

abbrev value_node : ℕ → ℕ → TaskNode messages
value_node b state = record {
  task = task (value (scalar (b ∷ [])));
  incoming = [];
  outgoing = [];
  id_fingerprint = 1;
  state_fingerprint = state;
}

abbrev signal_node : ℕ → ℕ → TaskNode messages
signal_node from state = record {
  task = task (signal_task tt);
  incoming = record { source = from; output = none } ∷ [];
  outgoing = [];
  id_fingerprint = 1;
  state_fingerprint = state;
}

-- The state fingerprints of the first value and of its signal.
abbrev graph : ℕ → ℕ → ℕ → TaskGraph messages
graph b s t = record {
  nodes = value_node b s ∷ signal_node 0 t ∷ value_node 9 9 ∷ signal_node 2 12 ∷ [];
}

abbrev first_two : List ℕ
first_two = 0 ∷ 1 ∷ []

abbrev graph-IsSorted : IsSorted 0 (graph 5 5 8).nodes
graph-IsSorted = (tt, ((ground arith, tt), (tt, ((ground arith, tt), tt))))

abbrev graph_update : update_state_fingerprints add_up (graph 5 0 0) ≡ ok (graph 5 5 8, first_two)
unfolding update_state_fingerprints collect state_hash parent_pieces set_states
graph_update = refl

abbrev graph_fresh : update_state_fingerprints add_up (graph 5 5 8) ≡ ok (graph 5 5 8, [])
unfolding update_state_fingerprints collect state_hash parent_pieces set_states
graph_fresh = refl

update_state_fingerprints_twice_example :
    update_state_fingerprints add_up (graph 5 5 8) ≡ ok (graph 5 5 8, [])
update_state_fingerprints_twice_example =
    update_state_fingerprints_twice add_up (graph 5 0 0) (graph 5 5 8) first_two graph_update

update_state_fingerprints-member_example :
    member 1 first_two ≡ differ (get_elem? (graph 5 0 0).nodes 1) (get_elem? (graph 5 5 8).nodes 1)
update_state_fingerprints-member_example =
    update_state_fingerprints-member add_up (graph 5 0 0) (graph 5 5 8) first_two 1 graph_update

update_state_fingerprints-ok_example :
    (g' : TaskGraph messages) × (g'' : TaskGraph messages) × (updated : List ℕ)
    × (init_identity_fingerprints add_up (graph 5 5 8) ≡ ok g')
    × (update_state_fingerprints add_up g' ≡ ok (g'', updated))
update_state_fingerprints-ok_example =
    update_state_fingerprints-ok add_up (graph 5 5 8) graph-IsSorted

update_value-ne-panic_example : update_value add_up as_scalar 0 6 (graph 5 5 8) ≢ panic
update_value-ne-panic_example =
    update_value-ne-panic add_up as_scalar 0 6 (graph 5 5 8) graph-IsSorted

-- The other value and its signal.
abbrev others : ℕ → Bool
others i = leb 2 i

abbrev updated_indexes : List NodeValueIndex
updated_indexes =
    record { node_index = 0; output_index = none }
    ∷ record { node_index = 1; output_index = none }
    ∷ []

abbrev graph_with_six :
    update_value add_up as_scalar 0 6 (graph 5 5 8) ≡ ok (graph 6 6 9, updated_indexes)
unfolding update_value update_state_fingerprints collect state_hash parent_pieces set_states
    value_indexes output_indexes output_vars
graph_with_six = refl

abbrev others-IsClosed : IsClosed others 0 (graph 5 5 8).nodes
others-IsClosed = ((λ _. tt), ((λ h. cc), ((λ _. tt), ((λ _. (refl, tt)), tt))))

update_value_unaffected_example : get_elem? (graph 6 6 9).nodes 3 ≡ get_elem? (graph 5 5 8).nodes 3
update_value_unaffected_example =
    update_value_unaffected add_up others as_scalar 0 3 6 (graph 5 5 8) (graph 6 6 9)
      updated_indexes graph_fresh others-IsClosed refl refl graph_with_six
