-- ===== src/Graph/Unaffected.antt =====
-- An update of a value leaves the nodes that do not depend on it as they are.
use vegafusion.Graph.Agree.{Agree, Agree-get, Agree-append, Agree-set}
use vegafusion.Graph.Chains.{bind-ok, ok-injective}
use vegafusion.Graph.Changes.{set_states-cons, at_index}
use vegafusion.Graph.Fingerprints.{
  Piece, fingerprint, task_piece, parent_pieces, collect, state_hash, set_states,
  update_state_fingerprints,
}
use vegafusion.Graph.State.{
  GraphError, Attempt, ok, err, panic, ◌>>=◌, Messages, Data, TaskKind, value, data_values,
  data_url, data_source, signal_task, IncomingEdge, TaskNode, TaskGraph, NodeValueIndex,
}
use vegafusion.Graph.Update.{update_task, with_value, update_value, value_indexes}
use vegafusion.Prelude.{
  ℕ, suc, ◌+◌, Bool, true, false, List, [], ◌∷◌, ◌++◌, ◌≡◌, refl, ap, sym, ◌∙◌, subst, arith,
  nat_beq, nat_beq_iff, if◌then◌else◌, Option-cases, inl, inr, get_elem?, length, length-append,
  set, map, Option, none, some,
}

-- The parents of a node are all in a set of indices.
abbrev pub Within : (ℕ → Bool) → List IncomingEdge → Type 0
Within p [] = Unit
Within p (edge ∷ edges) = (p edge.source ≡ true) × Within p edges

-- A set of indices that has, with a node, its parents.
abbrev pub IsClosed : {m : Messages} → (ℕ → Bool) → ℕ → List (TaskNode m) → Type 0
IsClosed p k [] = Unit
IsClosed p k (n ∷ ns) = (p k ≡ true → Within p n.incoming) × IsClosed p (suc k) ns

parent_pieces-Agree :
    {m : Messages} (p : ℕ → Bool) (done done' : List ℕ) (es : List IncomingEdge)
    → Agree p 0 done done'
    → Within p es
    → parent_pieces {m = m} done es ≡ parent_pieces done' es
unfolding parent_pieces
parent_pieces-Agree p done done' [] a w = refl
parent_pieces-Agree {m} p done done' (e ∷ es) a (w, ws) =
    ap
      (λ o. elim o [
        | none ↦ panic
        | some f ↦ parent_pieces {m = m} done es >>= λ pieces. ok (fingerprint f ∷ pieces)
      ])
      (Agree-get p 0 e.source done done' a
        (at_index (λ j. p j ≡ true) e.source (0 + e.source) (omega arith) w))
    ∙ ap
        (λ r. elim (get_elem? done' e.source) [
          | none ↦ panic
          | some f ↦ r >>= λ pieces. ok (fingerprint f ∷ pieces)
        ])
        (parent_pieces-Agree p done done' es a ws)

abbrev with_state : {m : Messages} → TaskNode m → ℕ → TaskNode m
with_state n f = record n { state_fingerprint = f }

no_ok : {A : Type 0} {e : GraphError} {a : A} → ◌≡◌ {A = Attempt A} (err e) (ok a) → ⊥
no_ok h = cc

module _ {m : Messages} (finish : List (Piece m) → ℕ) (p : ℕ → Bool) where
  state_hash-Agree :
      (done done' : List ℕ) (n : TaskNode m)
      → Agree p 0 done done'
      → Within p n.incoming
      → state_hash finish done n ≡ state_hash finish done' n
  unfolding state_hash
  state_hash-Agree done done' n a w =
      ap
        (λ r. elim n.task.task_kind [
          | value _ ↦ ok (finish (task_piece n.task ∷ []))
          | _ ↦ r >>= λ pieces. ok (finish (pieces ++ fingerprint n.id_fingerprint ∷ []))
        ])
        (parent_pieces-Agree p done done' n.incoming a w)

  collect-Agree :
      (k : ℕ) (ns ms : List (TaskNode m)) (done done' fs fs' : List ℕ)
      → length done ≡ k
      → IsClosed p k ns
      → Agree p k ns ms
      → Agree p 0 done done'
      → collect (state_hash finish) ns done ≡ ok fs
      → collect (state_hash finish) ms done' ≡ ok fs'
      → Agree p 0 fs fs'
  unfolding collect
  collect-Agree k [] [] done done' fs fs' e c a d h h' =
      subst (Agree p 0 fs) (ok-injective h') (subst (λ xs. Agree p 0 xs done') (ok-injective h) d)
  collect-Agree k [] (_ ∷ _) done done' fs fs' e c a d h h' = elim a [ ]
  collect-Agree k (_ ∷ _) [] done done' fs fs' e c a d h h' = elim a [ ]
  collect-Agree k (n ∷ ns) (n' ∷ ms) done done' fs fs' e (c, cs) (a, us) d h h' =
      let (f, here, rest) = bind-ok (state_hash finish done n) _ fs h in
      let (f', here', rest') = bind-ok (state_hash finish done' n') _ fs' h' in
      collect-Agree (suc k) ns ms (done ++ f ∷ []) (done' ++ f' ∷ []) fs fs'
        (omega (arith, length-append done (f ∷ []))) cs us
        (Agree-append p 0 done done' f f' d (λ q.
          let q' = at_index (λ j. p j ≡ true) (0 + length done) k (omega arith) q in
          ok-injective (
            sym here
            ∙ state_hash-Agree done done' n d (c q')
            ∙ ap (state_hash finish done') (a q')
            ∙ here')))
        rest rest'

  set_states-Agree :
      (k : ℕ) (ns ms : List (TaskNode m)) (fs : List ℕ)
      → Agree p k ns ms
      → Agree p k (map (λ n. n.state_fingerprint) ns) fs
      → Agree p k ns (set_states k ms fs).0
  unfolding set_states
  set_states-Agree k [] [] fs a b = tt
  set_states-Agree k [] (_ ∷ _) fs a b = elim a [ ]
  set_states-Agree k (_ ∷ _) [] fs a b = elim a [ ]
  set_states-Agree k (n ∷ ns) (n' ∷ ms) [] a b = elim b [ ]
  set_states-Agree k (n ∷ ns) (n' ∷ ms) (f ∷ fs) (a, us) (b, bs) =
      subst (λ r. Agree p k (n ∷ ns) r.0) (sym (set_states-cons k n' ms f fs))
        (
          (λ q. ap (with_state n) (b q) ∙ ap (λ x. with_state x f) (a q)),
          set_states-Agree (suc k) ns ms fs us bs,
        )

  collect-length :
      (ns : List (TaskNode m)) (done fs : List ℕ)
      → collect (state_hash finish) ns done ≡ ok fs
      → length fs ≡ length done + length ns
  unfolding collect
  collect-length [] done fs h = omega (arith, ap length (ok-injective h))
  collect-length (n ∷ ns) done fs h =
      let (f, here, rest) = bind-ok (state_hash finish done n) _ fs h in
      omega (arith, collect-length ns (done ++ f ∷ []) fs rest, length-append done (f ∷ []))

  -- Where nothing is reported, the fingerprints are those of the nodes.
  set_states-nil :
      (k : ℕ) (ns : List (TaskNode m)) (fs : List ℕ)
      → length fs ≡ length ns
      → (set_states k ns fs).1 ≡ []
      → map (λ n. n.state_fingerprint) ns ≡ fs
  set_states-nil k [] [] e h = refl
  set_states-nil k [] (_ ∷ _) e h = absurd (omega arith)
  set_states-nil k (n ∷ ns) [] e h = absurd (omega arith)
  set_states-nil k (n ∷ ns) (f ∷ fs) e h =
      by_test (nat_beq n.state_fingerprint f) (λ same. (nat_beq_iff n.state_fingerprint f).0 same)
        (set_states-nil (suc k) ns fs (omega arith))
        (ap (λ r. r.1) (sym (set_states-cons k n ns f fs)) ∙ h)
    where
      by_test :
          (same : Bool)
          → (same ≡ true → n.state_fingerprint ≡ f)
          → ((set_states (suc k) ns fs).1 ≡ [] → map (λ n. n.state_fingerprint) ns ≡ fs)
          → (if same then (set_states (suc k) ns fs).1 else k ∷ (set_states (suc k) ns fs).1) ≡ []
          → map (λ n. n.state_fingerprint) (n ∷ ns) ≡ f ∷ fs
      by_test true equal rest h =
          ap (λ x. x ∷ map (λ n. n.state_fingerprint) ns) (equal refl) ∙ ap (◌∷◌ f) (rest h)
      by_test false equal rest h = cc

  update_task-ok :
      {R : Type 0} (k : TaskKind m) (o : Option Data) (replace : Data → Attempt R) (r : R)
      → update_task k o replace ≡ ok r
      → (d : Data) × (replace d ≡ ok r)
  update_task-ok (value _) none replace r h = cc
  update_task-ok (value _) (some d) replace r h = (d, h)
  update_task-ok (data_values _) o replace r h = cc
  update_task-ok (data_url _) o replace r h = cc
  update_task-ok (data_source _) o replace r h = cc
  update_task-ok (signal_task _) o replace r h = cc

  -- What an update that succeeded went through.
  update_value-ok :
      {TaskValue : Type 0} (try_from : TaskValue → Option Data) (i : ℕ) (v : TaskValue)
      (g g' : TaskGraph m) (indexes : List NodeValueIndex)
      → update_value finish try_from i v g ≡ ok (g', indexes)
      → (x : TaskNode m) × (updated : List ℕ) × (update_state_fingerprints finish
            (record g { nodes = set g.nodes i x })
          ≡ ok (g', updated))
  unfolding update_value
  update_value-ok try_from i v g g' indexes h = elim (Option-cases (get_elem? g.nodes i)) [
    | inl missing ↦ absurd (no_ok (rw (missing, update_value) at h))
    | inr (n, here) ↦
        let (d, ran) =
          update_task-ok n.task.task_kind (try_from v) _ (g', indexes)
            (rw (here, update_value) at h) in
        let ((g₁, updated), states, rest) =
          bind-ok
            (update_state_fingerprints finish (record g { nodes = set g.nodes i (with_value d n) }))
            _ (g', indexes) ran in
        let (ix, _, e) = bind-ok (value_indexes g₁ updated) _ (g', indexes) rest in
        (
          with_value d n,
          updated,
          states ∙ ap (λ x. ok (x, updated)) (ap (λ r. r.0) (ok-injective e)),
        )
  ]

  -- In a graph whose state fingerprints are up to date, take a set of nodes that has with a node
  -- also its parents. If a node outside of it gets another value, the nodes of the set stay as they
  -- are, with their fingerprints.
  pub update_value_unaffected :
      {TaskValue : Type 0} (try_from : TaskValue → Option Data) (i j : ℕ) (v : TaskValue)
      (g g' : TaskGraph m) (indexes : List NodeValueIndex)
      → update_state_fingerprints finish g ≡ ok (g, [])
      → IsClosed p 0 g.nodes
      → p i ≡ false
      → p j ≡ true
      → update_value finish try_from i v g ≡ ok (g', indexes)
      → get_elem? g'.nodes j ≡ get_elem? g.nodes j
  unfolding update_state_fingerprints
  update_value_unaffected try_from i j v g g' indexes fresh closed outside inside h =
      let (x, updated, states') = update_value-ok try_from i v g g' indexes h in
      let (fs, states, e) = bind-ok (collect (state_hash finish) g.nodes []) _ (g, []) fresh in
      let (fs', states₁, e₁) =
        bind-ok (collect (state_hash finish) (set g.nodes i x) []) _ (g', updated) states' in
      let changed =
        Agree-set p 0 i g.nodes x (at_index (λ k. p k ≡ false) i (0 + i) (omega arith) outside) in
      let fingerprints =
        collect-Agree 0 g.nodes (set g.nodes i x) [] [] fs fs' refl closed changed tt states
          states₁ in
      let before =
        set_states-nil 0 g.nodes fs (omega (arith, collect-length g.nodes [] fs states))
          (ap (λ r. r.1) (ok-injective e)) in
      let after =
        set_states-Agree 0 g.nodes (set g.nodes i x) fs' changed
          (subst (λ xs. Agree p 0 xs fs') (sym before) fingerprints) in
      sym (
        Agree-get p 0 j g.nodes g'.nodes
          (subst (λ r. Agree p 0 g.nodes r.0.nodes) (ok-injective e₁) after)
          (at_index (λ k. p k ≡ true) j (0 + j) (omega arith) inside))
