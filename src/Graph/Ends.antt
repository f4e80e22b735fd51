-- ===== src/Graph/Ends.antt =====
-- `update_value` on a graph in topological order.
use vegafusion.Graph.Changes.{set_states-cons}
use vegafusion.Graph.Fingerprints.{Piece, state_hash, set_states, update_state_fingerprints}
use vegafusion.Graph.Sorted.{Earlier, IsSorted, collect-ok, state_hash-ok}
use vegafusion.Graph.State.{
  Attempt, ok, err, panic, Messages, Data, TaskKind, value, data_values, data_url, data_source,
  signal_task, TaskNode, TaskGraph, NodeValueIndex, output_vars,
}
use vegafusion.Graph.Update.{update_task, with_value, update_value, value_indexes, output_indexes}
use vegafusion.Prelude.{
  ℕ, zero, suc, ◌+◌, ◌<◌, ◌%◌, ◌^◌, Bool, true, false, List, [], ◌∷◌, ◌++◌, ◌≡◌, ◌≢◌, refl, ap, sym,
  ◌∙◌, subst, arith, nat_beq, if◌then◌else◌, Option-cases, inl, inr, get_elem?, get_elem?_lt,
  length, set, Option, none, some,
}

abbrev pub Below : ℕ → List ℕ → Type 0
Below k [] = Unit
Below k (i ∷ is) = (i < k) × Below k is

IsSorted-set :
    {m : Messages} (k i : ℕ) (d : Data) (n : TaskNode m) (ns : List (TaskNode m))
    → get_elem? ns i ≡ some n
    → IsSorted k ns
    → IsSorted k (set ns i (with_value d n))
IsSorted-set k i d n [] h s = tt
IsSorted-set k zero d n (x ∷ ns) h (s, ss) =
    (subst (λ y. Earlier k y.incoming) (some_injective h) s, ss)
  where
    some_injective : {A : Type 0} {a b : A} → some a ≡ some b → a ≡ b
    some_injective h = cc
IsSorted-set k (suc i) d n (x ∷ ns) h (s, ss) = (s, IsSorted-set (suc k) i d n ns h ss)

module _ {m : Messages} where
  length-set_states :
      (k : ℕ) (ns : List (TaskNode m)) (fs : List ℕ) → length (set_states k ns fs).0 ≡ length ns
  unfolding set_states
  length-set_states k [] fs = refl
  length-set_states k (n ∷ ns) [] = refl
  length-set_states k (n ∷ ns) (f ∷ fs) =
      ap (λ r. length r.0) (set_states-cons k n ns f fs) ∙ ap suc (length-set_states (suc k) ns fs)

  -- The reported indices are in range.
  set_states-Below :
      (k b : ℕ) (ns : List (TaskNode m)) (fs : List ℕ)
      → k + length ns ≡ b
      → Below b (set_states k ns fs).1
  unfolding set_states
  set_states-Below k b [] fs e = tt
  set_states-Below k b (n ∷ ns) [] e = tt
  set_states-Below k b (n ∷ ns) (f ∷ fs) e =
      subst (λ r. Below b r.1) (sym (set_states-cons k n ns f fs))
        (by_test (nat_beq n.state_fingerprint f) (set_states-Below (suc k) b ns fs (omega arith)))
    where
      by_test :
          (same : Bool)
          → Below b (set_states (suc k) ns fs).1
          → Below b
              (if same then (set_states (suc k) ns fs).1 else k ∷ (set_states (suc k) ns fs).1)
      by_test true h = h
      by_test false h = (omega arith, h)

  value_indexes-ok :
      (g : TaskGraph m) (is : List ℕ)
      → Below (length g.nodes) is
      → (ix : List NodeValueIndex) × (value_indexes g is ≡ ok ix)
  unfolding value_indexes
  value_indexes-ok g [] h = ([], refl)
  value_indexes-ok g (i ∷ is) (h, hs) =
      let (n, here) = get_elem?_lt g.nodes i h in
      let (ix, rest) = value_indexes-ok g is hs in
      (
        record { node_index = i % 2 ^ 32; output_index = none }
            ∷ (output_indexes i 0 (length (output_vars n.task)) ++ ix),
        rw (here, rest, value_indexes),
      )

  update_task-ne-panic :
      {R : Type 0} (k : TaskKind m) (o : Option Data) (replace : Data → Attempt R)
      → ((d : Data) → (r : R) × (replace d ≡ ok r))
      → update_task k o replace ≢ panic
  update_task-ne-panic (value _) none replace h e = cc
  update_task-ne-panic (value _) (some d) replace h e = let (r, ran) = h d in cc
  update_task-ne-panic (data_values _) o replace h e = cc
  update_task-ne-panic (data_url _) o replace h e = cc
  update_task-ne-panic (data_source _) o replace h e = cc
  update_task-ne-panic (signal_task _) o replace h e = cc

  -- On a graph in topological order whose messages have every optional field that is unwrapped, as the
  -- types of the model have, `update_value` does not panic, whatever the index and the value: each
  -- index that it looks up is in range.
  pub update_value-ne-panic :
      (finish : List (Piece m) → ℕ) {TaskValue : Type 0} (try_from : TaskValue → Option Data)
      (i : ℕ) (v : TaskValue) (g : TaskGraph m)
      → IsSorted 0 g.nodes
      → update_value finish try_from i v g ≢ panic
  unfolding update_value update_state_fingerprints
  update_value-ne-panic finish try_from i v g sorted e = elim (Option-cases (get_elem? g.nodes i)) [
    | inl missing ↦ err_ne (rw (missing, update_value) at e)
    | inr (n, here) ↦
        update_task-ne-panic n.task.task_kind (try_from v) _
          (λ d.
            let (fs, states) =
              collect-ok (state_hash finish) (state_hash-ok finish) (set g.nodes i (with_value d n))
                [] (IsSorted-set 0 i d n g.nodes here sorted) in
            let ns = set g.nodes i (with_value d n) in
            let g' : TaskGraph m = record { nodes = (set_states 0 ns fs).0 } in
            let in_range : Below (length g'.nodes) (set_states 0 ns fs).1 =
              subst (λ b. Below b (set_states 0 ns fs).1) (sym (length-set_states 0 ns fs))
                (set_states-Below 0 (length ns) ns fs (omega arith)) in
            let (ix, indexes) = value_indexes-ok g' (set_states 0 ns fs).1 in_range in
            ((g', ix), rw (states, indexes)))
          (rw (here, update_value) at e)
  ]
    where
      err_ne : {A : Type 0} {e : _} → ◌≡◌ {A = Attempt A} (err e) panic → ⊥
      err_ne h = cc
