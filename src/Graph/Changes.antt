-- ===== src/Graph/Changes.antt =====
-- What an update of the state fingerprints changes, and what it reports.
use vegafusion.Graph.Chains.{bind-ok, ok-injective}
use vegafusion.Graph.Fingerprints.{
  Piece, collect, state_hash, set_states, update_state_fingerprints,
}
use vegafusion.Graph.State.{Attempt, ok, err, panic, ◌>>=◌, Messages, TaskNode, TaskGraph}
use vegafusion.Prelude.{
  ℕ, suc, Bool, true, false, List, [], ◌∷◌, ◌++◌, ◌≡◌, refl, ap, ◌∙◌, subst, arith, nat_beq,
  nat_beq_iff, if◌then◌else◌,
}

pub at_index : (P : ℕ → Type 0) (i j : ℕ) → i ≡ j → P i → P j
at_index P i j e x = subst P e x

pub nat_beq_self : (n : ℕ) → nat_beq n n ≡ true
nat_beq_self n = ground arith

-- The step of `set_states`: the node has the new fingerprint in either case.
module _ {m : Messages} where
  pick :
      (same : Bool) (k : ℕ) (n n' : TaskNode m) (r : List (TaskNode m) × List ℕ)
      → (same ≡ true → n ≡ n')
      → ◌≡◌ {A = List (TaskNode m) × List ℕ}
          (if same then (n ∷ r.0, r.1) else (n' ∷ r.0, k ∷ r.1))
          (n' ∷ r.0, if same then r.1 else k ∷ r.1)
  pick true k n n' r h = ap (λ x. (x ∷ r.0, r.1)) (h refl)
  pick false k n n' r h = refl

  pub set_states-cons :
      (k : ℕ) (n : TaskNode m) (ns : List (TaskNode m)) (f : ℕ) (fs : List ℕ)
      → set_states k (n ∷ ns) (f ∷ fs) ≡ (
        record n { state_fingerprint = f } ∷ (set_states (suc k) ns fs).0,
        if nat_beq n.state_fingerprint f
            then (set_states (suc k) ns fs).1
            else k ∷ (set_states (suc k) ns fs).1,
      )
  unfolding set_states
  set_states-cons k n ns f fs =
      pick (nat_beq n.state_fingerprint f) k n (record n { state_fingerprint = f })
        (set_states (suc k) ns fs)
        (λ same.
          ap (λ s. record n { state_fingerprint = s }) ((nat_beq_iff n.state_fingerprint f).0 same))

  set_states_twice :
      (k : ℕ) (ns : List (TaskNode m)) (fs : List ℕ)
      → set_states k (set_states k ns fs).0 fs ≡ ((set_states k ns fs).0, [])
  unfolding set_states
  set_states_twice k [] fs = refl
  set_states_twice k (n ∷ ns) [] = refl
  set_states_twice k (n ∷ ns) (f ∷ fs) = rw (
    set_states-cons k n ns f fs,
    set_states-cons k (record n { state_fingerprint = f }) (set_states (suc k) ns fs).0 f fs,
    nat_beq_self f,
    set_states_twice (suc k) ns fs,
  )

-- A hash that does not read the state fingerprint of its node.
abbrev pub IgnoresState : {m : Messages} → (List ℕ → TaskNode m → Attempt ℕ) → Type 0
IgnoresState {m} hash =
    (done : List ℕ) (n : TaskNode m) (f : ℕ)
    → hash done (record n { state_fingerprint = f }) ≡ hash done n

module _ {m : Messages} (hash : List ℕ → TaskNode m → Attempt ℕ) where
  pub bind_collect :
      (ns ns' : List (TaskNode m)) (done : List ℕ) (r : Attempt ℕ)
      → ((done' : List ℕ) → collect hash ns done' ≡ collect hash ns' done')
      → (r >>= λ f. collect hash ns (done ++ f ∷ []))
        ≡ (r >>= λ f. collect hash ns' (done ++ f ∷ []))
  bind_collect ns ns' done (ok f) same = same (done ++ f ∷ [])
  bind_collect ns ns' done (err e) same = refl
  bind_collect ns ns' done panic same = refl

  -- Its fingerprints do not depend on those that are there.
  pub collect-set_states :
      IgnoresState hash
      → (k : ℕ) (ns : List (TaskNode m)) (fs done : List ℕ)
      → collect hash (set_states k ns fs).0 done ≡ collect hash ns done
  unfolding collect set_states
  collect-set_states ignores k [] fs done = refl
  collect-set_states ignores k (n ∷ ns) [] done = refl
  collect-set_states ignores k (n ∷ ns) (f ∷ fs) done =
      ap (λ r. collect hash r.0 done) (set_states-cons k n ns f fs)
      ∙ ap (λ r. r >>= λ f'. collect hash (set_states (suc k) ns fs).0 (done ++ f' ∷ []))
          (ignores done n f)
      ∙ bind_collect (set_states (suc k) ns fs).0 ns done (hash done n)
          (collect-set_states ignores (suc k) ns fs)

module _ {m : Messages} (finish : List (Piece m) → ℕ) where
  state_hash-IgnoresState : IgnoresState (state_hash finish)
  unfolding state_hash
  state_hash-IgnoresState done n f = refl

  -- A second update finds every fingerprint up to date.
  pub update_state_fingerprints_twice :
      (g g' : TaskGraph m) (updated : List ℕ)
      → update_state_fingerprints finish g ≡ ok (g', updated)
      → update_state_fingerprints finish g' ≡ ok (g', [])
  unfolding update_state_fingerprints
  update_state_fingerprints_twice g g' updated h =
      let (gs, states, e) = bind-ok (collect (state_hash finish) g.nodes []) _ (g', updated) h in
      subst (λ x. update_state_fingerprints finish x ≡ ok (x, [])) (ap (λ p. p.0) (ok-injective e))
        (ap
            (λ r. r >>= λ fs. ok (
              record { nodes = (set_states 0 (set_states 0 g.nodes gs).0 fs).0 },
              (set_states 0 (set_states 0 g.nodes gs).0 fs).1,
            ))
            (collect-set_states (state_hash finish) state_hash-IgnoresState 0 g.nodes gs []
              ∙ states)
          ∙ ap (λ r. ok (record { nodes = r.0 }, r.1)) (set_states_twice 0 g.nodes gs))
