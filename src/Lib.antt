-- ===== src/Lib.antt =====
-- Verification of VegaFusion, which evaluates the data part of Vega charts on a server.
--
-- Five parts of the program are modelled, each by a module tree of its own.
--
-- Cache: vegafusion-runtime/src/task_graph/cache.rs, the cache of task values that all requests of
-- a runtime share. `VegaFusionCache` (Cache/State) has the fields of the struct: two LRU caches, the
-- counters, the limits and the initializers. Cache/Methods has one function for each method: `new`,
-- `clear`, `get`, `pop_protected_lru`, `pop_probationary_lru`, `balance`, `set_value`,
-- `remove_initializer`. Every one that reads or writes entries holds both locks throughout, so a call is
-- one step, and concurrent use is a list of calls (Cache/Runs); `clear` takes the locks in turn and
-- resets the counters after them, and is taken for one step here. The crate `lru` is a parameter, the record
-- `LruCache` (Cache/Lru): its operations and the laws on the list of entries, most recent first, that
-- its documentation gives; Cache/Tests instantiates it with a list. The memory counters are 64-bit
-- words with the wrap-around of `fetch_add` and `fetch_sub` (Cache/Words). `balance` loops on fuel, one
-- unit more than the entries of the cache that it pops from; a loop that ends by its test never uses
-- it up. Half of a limit is computed in the source by way of `f64`, which is exact below 2 ^ 53.
-- Cache/Flight is `get_or_try_insert_with` with `spawn_initializer`: callers that share the values, the
-- map of initializers and one lock for each, a state machine from await to await (Cache/Flight/System).
-- The end of a spawned future is an event from outside, and so are a call, the cancellation of a caller
-- at an await, and `clear`. A caller that waits for a lock of async_lock takes its step when the lock is
-- free. The values are behind the record `ValueStore` (Cache/Store), which Cache/StoreImpl fills with
-- the methods of the cache.
--
-- Expression: vegafusion-core/src/expression, the language of Vega expressions. Expression/Syntax is
-- the message `Expression` of vegafusion-core/src/proto/expression.proto, Expression/Power the binding
-- powers of ast/, in tenths, Expression/Token the tokens of lexer.rs with the operators of ops.rs, and
-- Expression/Parser the functions of parser.rs, under their names. The tokens are passed on in the
-- place of the mutable vector. A result is a value, an error without its text, a panic (of an
-- `unwrap`), or fuel that ran out. `perform_parse` takes fuel, and the loops inside take what is left;
-- `parse` gives it the number of tokens and one. The `f64` values of number literals are a type
-- parameter. Expression/Visitors is the traversal `walk` of ast/expression.rs with the visitors of
-- visitors.rs that collect variables or check for support; a visitor is a record of functions on its
-- state, and the sets are lists. Expression/Visitors/Change
-- is `walk_mut` with the visitor that clears the spans. Expression/Print is the
-- `Display` instances of ast/ and of the tokens, with the printing of an `f64` as a parameter. The
-- tokenizer of lexer.rs is not modelled. Expression/ColumnUsage is the type `ColumnUsage` of column_usage.rs, with
-- its sets of columns as lists, and Expression/DatasetsUsage its `DatasetsColumnUsage`; the order in which
-- the keys of a hash map are iterated is a parameter there.
--
-- Scope: vegafusion-core/src/task_graph/scope.rs, where variables of a chart are resolved to the scopes
-- that declare them. `TaskScope` (Scope/Tree) is the tree of scopes with its operations, and
-- Scope/Resolve is `resolve_scope`, of which Scope/Innermost gives the specification. Hash sets are lists of names, and the hash map is an association
-- list with one entry for a key. `get_child_mut` and the change that its caller makes are one function,
-- `modify`.
--
-- Graph: vegafusion-core/src/task_graph/graph.rs, the graph of tasks, with the fingerprints that key
-- the cache. Graph/State is the messages of vegafusion-core/src/proto/tasks.proto; Graph/Nodes the
-- neighbours of a node, Graph/Fingerprints `init_identity_fingerprints` and
-- `update_state_fingerprints`, Graph/Update `update_value`. The hasher is a parameter, a function of
-- what was written to it, and so are the tasks that load and transform data, by their output
-- variables, and the conversion of a value to its message. An index out of range is a
-- panic. Graph/Build is `TaskGraph::new`, with the crate petgraph behind the record `Petgraph`
-- (Graph/Petgraph) and the order in which a hash map is iterated behind `Iteration`; what a task reads
-- is a parameter. An `unwrap` of what is looked up in a map or a list is a panic of the model.
-- Not so for the optional fields of messages: `TaskNode.task`, `Task.variable`, `Task.task_kind` and
-- `TaskValue.data` are there in the model, and a namespace is one of its enumeration, so a message
-- that lacks one of them, on which the source panics, is left out. The limits of the crate on the
-- number of nodes and edges are left out. Graph/Mapping is `build_mapping`. Hash maps are association
-- lists with one entry for a key (Graph/Keys).
--
-- Common: vegafusion-common/src/escape.rs, `escape_field` and `unescape_field` (Common/Escape), with
-- `str::replace` written out for the patterns of two characters that they use.
pub mod Prelude
pub mod Cache
pub mod Expression
pub mod Scope
pub mod Graph
pub mod Common
