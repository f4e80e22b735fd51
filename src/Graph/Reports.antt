-- ===== src/Graph/Reports.antt =====
-- Which nodes `update_state_fingerprints` reports.
use vegafusion.Graph.Chains.{bind-ok, ok-injective}
use vegafusion.Graph.Changes.{set_states-cons, at_index}
use vegafusion.Graph.Fingerprints.{
  Piece, collect, state_hash, set_states, update_state_fingerprints,
}
use vegafusion.Graph.State.{ok, Messages, TaskNode, TaskGraph}
use vegafusion.Prelude.{
  ℕ, zero, suc, ◌+◌, ◌<◌, Bool, false, not, ◌&&◌, ◌||◌, List, [], ◌∷◌, ◌≡◌, refl, ap, sym, ◌∙◌,
  subst, arith, nat_beq, if◌then◌else◌, get_elem?, Option, none, some,
}

abbrev pub member : ℕ → List ℕ → Bool
member i [] = false
member i (j ∷ js) = nat_beq j i || member i js

-- Two nodes at one place, with different state fingerprints.
abbrev pub differ : {m : Messages} → Option (TaskNode m) → Option (TaskNode m) → Bool
differ (some n) (some n') = not (nat_beq n.state_fingerprint n'.state_fingerprint)
differ _ _ = false

member-if :
    (same : Bool) (k j : ℕ) (r : List ℕ)
    → member j (if same then r else k ∷ r) ≡ (not same && nat_beq k j || member j r)
member-if same k j r = ground arith

module _ {m : Messages} where
  member-set_states_below :
      (k j : ℕ) (ns : List (TaskNode m)) (fs : List ℕ)
      → j < k
      → member j (set_states k ns fs).1 ≡ false
  unfolding set_states
  member-set_states_below k j [] fs h = refl
  member-set_states_below k j (n ∷ ns) [] h = refl
  member-set_states_below k j (n ∷ ns) (f ∷ fs) h =
      ap (λ r. member j r.1) (set_states-cons k n ns f fs)
      ∙ member-if (nat_beq n.state_fingerprint f) k j (set_states (suc k) ns fs).1
      ∙ ground (arith, member-set_states_below (suc k) j ns fs)

  differ_self : (o : Option (TaskNode m)) → differ o o ≡ false
  differ_self none = refl
  differ_self (some n) = ground arith

  member-set_states :
      (k i : ℕ) (ns : List (TaskNode m)) (fs : List ℕ)
      → member (k + i) (set_states k ns fs).1
        ≡ differ (get_elem? ns i) (get_elem? (set_states k ns fs).0 i)
  unfolding set_states
  member-set_states k i [] fs = refl
  member-set_states k i (n ∷ ns) [] = sym (differ_self (get_elem? (n ∷ ns) i))
  member-set_states k zero (n ∷ ns) (f ∷ fs) =
      ap (λ r. member (k + 0) r.1) (set_states-cons k n ns f fs)
      ∙ member-if (nat_beq n.state_fingerprint f) k (k + 0) (set_states (suc k) ns fs).1
      ∙ ground (arith, member-set_states_below (suc k) (k + 0) ns fs)
      ∙ ap (λ r. differ (some n) (get_elem? r.0 0)) (sym (set_states-cons k n ns f fs))
  member-set_states k (suc i) (n ∷ ns) (f ∷ fs) =
      ap (λ r. member (k + suc i) r.1) (set_states-cons k n ns f fs)
      ∙ member-if (nat_beq n.state_fingerprint f) k (k + suc i) (set_states (suc k) ns fs).1
      ∙ ground arith
      ∙ member-set_states (suc k) i ns fs
      ∙ ap (λ r. differ (get_elem? ns i) (get_elem? r.0 (suc i)))
          (sym (set_states-cons k n ns f fs))

  -- An update reports exactly the nodes whose state fingerprint it changed.
  pub update_state_fingerprints-member :
      (finish : List (Piece m) → ℕ) (g g' : TaskGraph m) (updated : List ℕ) (i : ℕ)
      → update_state_fingerprints finish g ≡ ok (g', updated)
      → member i updated ≡ differ (get_elem? g.nodes i) (get_elem? g'.nodes i)
  unfolding update_state_fingerprints
  update_state_fingerprints-member finish g g' updated i h =
      let (fs, states, e) = bind-ok (collect (state_hash finish) g.nodes []) _ (g', updated) h in
      subst (λ p. member i p.1 ≡ differ (get_elem? g.nodes i) (get_elem? p.0.nodes i))
        (ok-injective e)
        (at_index
          (λ j.
            member j (set_states 0 g.nodes fs).1
            ≡ differ (get_elem? g.nodes i) (get_elem? (set_states 0 g.nodes fs).0 i))
          (0 + i) i (omega arith) (member-set_states 0 i g.nodes fs))
