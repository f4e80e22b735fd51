-- ===== src/Graph/State.antt =====
-- The messages of proto/tasks.proto that the graph consists of. The code unwraps the optional
-- messages `TaskNode.task`, `Task.variable`, `Task.task_kind` and `TaskValue.data`, and the conversion
-- of `Variable.namespace` from a number. Here they are there, so that a message without one of
-- them, on which the code panics, is left out. The tasks of the transforms are a parameter, with
-- the variables that they put out.
use vegafusion.Prelude.{ℕ, Bool, List, [], Option}
use vegafusion.Scope.Variable.{Variable}

pub data GraphError : Type 0 where
  missing_node not_a_value conversion : GraphError
  -- of `TaskGraph::new`
  unresolved missing_variable cycle missing_output : GraphError

-- `Result<T>`, or a panic of an index out of range.
pub data Attempt (A : Type 0) : Type 0 where
  ok : A → Attempt A
  err : GraphError → Attempt A
  panic : Attempt A

infixl 5 ◌>>=◌
abbrev pub ◌>>=◌ : {A B : Type 0} → Attempt A → (A → Attempt B) → Attempt B
ok a >>= f = f a
err e >>= f = err e
panic >>= f = panic

-- The kinds of tasks with a message of their own.
pub record Messages : Type 1 where
  pub DataValuesTask : Type 0
  pub DataUrlTask : Type 0
  pub DataSourceTask : Type 0
  pub SignalTask : Type 0
  pub TzConfig : Type 0
  pub values_output_vars : DataValuesTask → List Variable
  pub url_output_vars : DataUrlTask → List Variable
  pub source_output_vars : DataSourceTask → List Variable

-- `Data`, in its serialized form.
pub data Data : Type 0 where
  scalar table : List ℕ → Data

pub data TaskKind (m : Messages) : Type 0 where
  value : Data → TaskKind m
  data_values : m.DataValuesTask → TaskKind m
  data_url : m.DataUrlTask → TaskKind m
  data_source : m.DataSourceTask → TaskKind m
  signal_task : m.SignalTask → TaskKind m

pub record Task (m : Messages) : Type 0 where
  pub variable : Variable
  pub scope : List ℕ
  pub task_kind : TaskKind m
  pub tz_config : Option m.TzConfig

pub record IncomingEdge : Type 0 where
  pub source : ℕ
  pub output : Option ℕ

pub record OutgoingEdge : Type 0 where
  pub target : ℕ
  pub propagate : Bool

pub record TaskNode (m : Messages) : Type 0 where
  pub task : Task m
  pub incoming : List IncomingEdge
  pub outgoing : List OutgoingEdge
  pub id_fingerprint : ℕ
  pub state_fingerprint : ℕ

pub record TaskGraph (m : Messages) : Type 0 where
  pub nodes : List (TaskNode m)

pub record NodeValueIndex : Type 0 where
  pub node_index : ℕ
  pub output_index : Option ℕ

unfoldable pub output_vars : {m : Messages} → Task m → List Variable
output_vars {m} t = elim t.task_kind [
  | value _ ↦ []
  | data_url task ↦ m.url_output_vars task
  | data_source task ↦ m.source_output_vars task
  | data_values task ↦ m.values_output_vars task
  | signal_task _ ↦ []
]
