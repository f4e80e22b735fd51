-- ===== src/Graph/Sorted.antt =====
-- In a graph in topological order, every edge comes from an earlier node. There the fingerprints
-- are computed without an index out of range.
use vegafusion.Graph.Fingerprints.{
  Piece, fingerprint, task_piece, parent_pieces, collect, id_hash, state_hash,
  init_identity_fingerprints, update_state_fingerprints, set_ids, set_states,
}
use vegafusion.Graph.State.{
  Attempt, ok, ◌>>=◌, Messages, scalar, table, TaskKind, value, data_values, data_url, data_source,
  signal_task, IncomingEdge, TaskNode, TaskGraph,
}
use vegafusion.Prelude.{
  ℕ, suc, ◌<◌, List, [], ◌∷◌, ◌++◌, ◌≡◌, refl, ap, ◌∙◌, arith, length, length-append, get_elem?_lt,
  subst,
}

abbrev pub Earlier : ℕ → List IncomingEdge → Type 0
Earlier k [] = Unit
Earlier k (edge ∷ edges) = (edge.source < k) × Earlier k edges

abbrev pub IsSorted : {m : Messages} → ℕ → List (TaskNode m) → Type 0
IsSorted k [] = Unit
IsSorted k (n ∷ ns) = Earlier k n.incoming × IsSorted (suc k) ns

parent_pieces-ok :
    {m : Messages} (done : List ℕ) (es : List IncomingEdge)
    → Earlier (length done) es
    → (ps : List (Piece m)) × (parent_pieces done es ≡ ok ps)
unfolding parent_pieces
parent_pieces-ok {m} done [] h = ([], refl)
parent_pieces-ok {m} done (e ∷ es) (h, hs) =
    let (f, here) = get_elem?_lt done e.source h in
    let (ps, rest) = parent_pieces-ok {m = m} done es hs in
    (fingerprint f ∷ ps, rw (here, rest, parent_pieces))

-- Every node has its fingerprint.
pub collect-ok :
    {m : Messages} (hash : List ℕ → TaskNode m → Attempt ℕ)
    → ((done : List ℕ) (n : TaskNode m)
        → Earlier (length done) n.incoming
        → (f : ℕ) × (hash done n ≡ ok f))
    → (ns : List (TaskNode m)) (done : List ℕ) → IsSorted (length done) ns
    → (fs : List ℕ) × (collect hash ns done ≡ ok fs)
unfolding collect
collect-ok hash each [] done h = (done, refl)
collect-ok hash each (n ∷ ns) done (h, hs) =
    let (f, here) = each done n h in
    let longer : suc (length done) ≡ length (done ++ f ∷ []) =
      omega (arith, length-append done (f ∷ [])) in
    let (fs, rest) =
      collect-ok hash each ns (done ++ f ∷ []) (subst (λ k. IsSorted k ns) longer hs) in
    (fs, ap (λ r. r >>= λ f. collect hash ns (done ++ f ∷ [])) here ∙ rest)

module _ {m : Messages} (finish : List (Piece m) → ℕ) where
  pub state_hash-ok :
      (done : List ℕ) (n : TaskNode m)
      → Earlier (length done) n.incoming
      → (f : ℕ) × (state_hash finish done n ≡ ok f)
  unfolding state_hash
  state_hash-ok done n h =
      let (ps, here) = parent_pieces-ok done n.incoming h in by_kind n.task.task_kind ps here
    where
      by_kind :
          (k : TaskKind m) (ps : List (Piece m))
          → parent_pieces done n.incoming ≡ ok ps
          → (f : ℕ) × (state_hash finish done (record n { task = record n.task { task_kind = k } })
              ≡ ok f)
      by_kind (value d) ps h = (_, refl)
      by_kind (data_values t) ps h = (finish (ps ++ fingerprint n.id_fingerprint ∷ []), rw h)
      by_kind (data_url t) ps h = (finish (ps ++ fingerprint n.id_fingerprint ∷ []), rw h)
      by_kind (data_source t) ps h = (finish (ps ++ fingerprint n.id_fingerprint ∷ []), rw h)
      by_kind (signal_task t) ps h = (finish (ps ++ fingerprint n.id_fingerprint ∷ []), rw h)

  id_hash-ok :
      (done : List ℕ) (n : TaskNode m)
      → Earlier (length done) n.incoming
      → (f : ℕ) × (id_hash finish done n ≡ ok f)
  unfolding id_hash
  id_hash-ok done n h =
      let (ps, here) = parent_pieces-ok done n.incoming h in by_kind n.task.task_kind ps here
    where
      by_kind :
          (k : TaskKind m) (ps : List (Piece m))
          → parent_pieces done n.incoming ≡ ok ps
          → (f : ℕ) × (id_hash finish done (record n { task = record n.task { task_kind = k } })
              ≡ ok f)
      by_kind (value (scalar d)) ps h = (_, refl)
      by_kind (value (table d)) ps h = (_, refl)
      by_kind (data_values t) ps h =
          (finish (ps ++ task_piece (record n.task { task_kind = data_values t }) ∷ []), rw h)
      by_kind (data_url t) ps h =
          (finish (ps ++ task_piece (record n.task { task_kind = data_url t }) ∷ []), rw h)
      by_kind (data_source t) ps h =
          (finish (ps ++ task_piece (record n.task { task_kind = data_source t }) ∷ []), rw h)
      by_kind (signal_task t) ps h =
          (finish (ps ++ task_piece (record n.task { task_kind = signal_task t }) ∷ []), rw h)

  pub set_ids-IsSorted :
      (k : ℕ) (ns : List (TaskNode m)) (fs : List ℕ) → IsSorted k ns → IsSorted k (set_ids ns fs)
  unfolding set_ids
  set_ids-IsSorted k [] fs h = h
  set_ids-IsSorted k (n ∷ ns) [] h = h
  set_ids-IsSorted k (n ∷ ns) (f ∷ fs) (h, hs) = (h, set_ids-IsSorted (suc k) ns fs hs)

  -- On a graph in topological order whose messages have every optional field that is unwrapped, as the
  -- types of the model have, the identity fingerprints and then the state fingerprints are computed
  -- without an index out of range or an error, as `TaskGraph::new` does.
  pub update_state_fingerprints-ok :
      (g : TaskGraph m)
      → IsSorted 0 g.nodes
      → (g' : TaskGraph m) × (g'' : TaskGraph m) × (updated : List ℕ) × (init_identity_fingerprints
            finish g
          ≡ ok g')
        × (update_state_fingerprints finish g' ≡ ok (g'', updated))
  unfolding init_identity_fingerprints update_state_fingerprints
  update_state_fingerprints-ok g h =
      let (fs, ids) = collect-ok (id_hash finish) id_hash-ok g.nodes [] h in
      let (hs, states) =
        collect-ok (state_hash finish) state_hash-ok (set_ids g.nodes fs) []
          (set_ids-IsSorted 0 g.nodes fs h) in
      (
        _,
        _,
        _,
        ap (λ r. r >>= λ fs. ok (record g { nodes = set_ids g.nodes fs })) ids,
        ap
            (λ r. r >>= λ hs. ok (
              record g { nodes = (set_states 0 (set_ids g.nodes fs) hs).0 },
              (set_states 0 (set_ids g.nodes fs) hs).1,
            ))
            states,
      )
