-- ===== src/Graph/Identity.antt =====
-- The identity fingerprints, once they are computed.
use vegafusion.Graph.Chains.{bind-ok, ok-injective}
use vegafusion.Graph.Changes.{IgnoresState, bind_collect, collect-set_states, set_states-cons}
use vegafusion.Graph.Fingerprints.{
  Piece, collect, id_hash, state_hash, set_ids, set_states, init_identity_fingerprints,
  update_state_fingerprints,
}
use vegafusion.Graph.State.{Attempt, ok, ◌>>=◌, Messages, TaskNode, TaskGraph}
use vegafusion.Prelude.{ℕ, suc, List, [], ◌∷◌, ◌≡◌, refl, ap, sym, ◌∙◌, subst}

module _ {m : Messages} where
  set_ids-nil : (ns : List (TaskNode m)) → set_ids ns [] ≡ ns
  unfolding set_ids
  set_ids-nil [] = refl
  set_ids-nil (n ∷ ns) = refl

  set_ids_twice :
      (ns : List (TaskNode m)) (fs : List ℕ) → set_ids (set_ids ns fs) fs ≡ set_ids ns fs
  unfolding set_ids
  set_ids_twice [] fs = refl
  set_ids_twice (n ∷ ns) [] = refl
  set_ids_twice (n ∷ ns) (f ∷ fs) = ap (◌∷◌ (record n { id_fingerprint = f })) (set_ids_twice ns fs)

  -- The nodes keep their identity fingerprints in an update of the others.
  set_ids-set_states :
      (k : ℕ) (ns : List (TaskNode m)) (fs hs : List ℕ)
      → set_ids (set_states k (set_ids ns fs) hs).0 fs ≡ (set_states k (set_ids ns fs) hs).0
  unfolding set_ids set_states
  set_ids-set_states k [] fs hs = refl
  set_ids-set_states k (n ∷ ns) [] hs = set_ids-nil (set_states k (n ∷ ns) hs).0
  set_ids-set_states k (n ∷ ns) (f ∷ fs) [] = set_ids_twice (n ∷ ns) (f ∷ fs)
  set_ids-set_states k (n ∷ ns) (f ∷ fs) (h ∷ hs) =
      let made = set_states-cons k (record n { id_fingerprint = f }) (set_ids ns fs) h hs in
      ap (λ r. set_ids r.0 (f ∷ fs)) made
      ∙ ap (◌∷◌ (record n { id_fingerprint = f; state_fingerprint = h }))
          (set_ids-set_states (suc k) ns fs hs)
      ∙ sym (ap (λ r. r.0) made)

module _ {m : Messages} (finish : List (Piece m) → ℕ) where
  id_hash-IgnoresState : IgnoresState (id_hash finish)
  unfolding id_hash
  id_hash-IgnoresState done n f = refl

  -- The identity fingerprints do not depend on those that are there.
  collect-set_ids :
      (ns : List (TaskNode m)) (fs done : List ℕ)
      → collect (id_hash finish) (set_ids ns fs) done ≡ collect (id_hash finish) ns done
  unfolding collect id_hash set_ids
  collect-set_ids [] fs done = refl
  collect-set_ids (n ∷ ns) [] done = refl
  collect-set_ids (n ∷ ns) (f ∷ fs) done =
      bind_collect (id_hash finish) (set_ids ns fs) ns done (id_hash finish done n)
        (collect-set_ids ns fs)

  abbrev graph_of : List (TaskNode m) → Attempt (TaskGraph m)
  graph_of ns = ok (record { nodes = ns })

  abbrev recompute : List (TaskNode m) → List ℕ → Attempt (TaskGraph m)
  recompute ns fs = graph_of (set_ids ns fs)

  -- In a graph whose identity fingerprints and then state fingerprints were computed, to compute the
  -- identity fingerprints again changes nothing.
  pub init_identity_fingerprints_again :
      (g g' : TaskGraph m) (r : TaskGraph m × List ℕ)
      → init_identity_fingerprints finish g ≡ ok g'
      → update_state_fingerprints finish g' ≡ ok r
      → init_identity_fingerprints finish r.0 ≡ ok r.0
  unfolding init_identity_fingerprints update_state_fingerprints
  init_identity_fingerprints_again g g' r ids states =
      let (fs, collected, first) = bind-ok (collect (id_hash finish) g.nodes []) _ g' ids in
      let (hs, _, second) = bind-ok (collect (state_hash finish) g'.nodes []) _ r states in
      let with_ids : set_ids g.nodes fs ≡ g'.nodes = ap (λ g. g.nodes) (ok-injective first) in
      let with_states : (set_states 0 (set_ids g.nodes fs) hs).0 ≡ r.0.nodes =
        ap (λ ns. (set_states 0 ns hs).0) with_ids ∙ ap (λ r. r.0.nodes) (ok-injective second) in
      subst (λ ns. (collect (id_hash finish) ns [] >>= recompute ns) ≡ graph_of ns) with_states
        (ap (λ a. a >>= recompute (set_states 0 (set_ids g.nodes fs) hs).0)
            (collect-set_states (id_hash finish) id_hash-IgnoresState 0 (set_ids g.nodes fs) hs []
              ∙ collect-set_ids g.nodes fs []
              ∙ collected)
          ∙ ap graph_of (set_ids-set_states 0 g.nodes fs hs))
