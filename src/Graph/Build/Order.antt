-- ===== src/Graph/Build/Order.antt =====
-- The places of the nodes in the topological order.
use vegafusion.Graph.Build.{enumerate, sorted_indexes}
use vegafusion.Graph.Keys.{Occurs, lookup-collect_onto, collect_onto-some}
use vegafusion.Prelude.Assoc.{lookup}
use vegafusion.Prelude.{
  ℕ, suc, ◌+◌, List, [], ◌∷◌, some, ◌≡◌, inl, inr, sym, ap, subst, ◌∙◌, arith, get_elem?, nat_key,
}

enumerate_place :
    (i n q : ℕ) (ns : List ℕ)
    → Occurs (n, q) (enumerate i ns)
    → (p : ℕ) × (q ≡ p + i) × (get_elem? ns p ≡ some n)
unfolding enumerate
enumerate_place i n q [] h = elim h [ ]
enumerate_place i n q (x ∷ ns) (inl h) =
    (0, ap (λ y. y.1) h ∙ omega arith, ap some (sym (ap (λ y. y.0) h)))
enumerate_place i n q (x ∷ ns) (inr h) =
    let (p, e, at_p) = enumerate_place (suc i) n q ns h in (suc p, omega arith, at_p)

enumerate-some : (i n : ℕ) (ns : List ℕ) → Occurs n ns → (q : ℕ) × Occurs (n, q) (enumerate i ns)
unfolding enumerate
enumerate-some i n [] h = elim h [ ]
enumerate-some i n (x ∷ ns) (inl h) = (i, inl (ap (λ x. (x, i)) h))
enumerate-some i n (x ∷ ns) (inr h) = let (q, at_q) = enumerate-some (suc i) n ns h in (q, inr at_q)

-- The index of a node is a place where it stands, and every node of the order has one.
pub sorted_indexes-place :
    (order : List ℕ) (n q : ℕ)
    → lookup n (sorted_indexes order) ≡ some q
    → get_elem? order q ≡ some n
unfolding sorted_indexes lookup
sorted_indexes-place order n q h = elim (lookup-collect_onto n q (enumerate 0 order) [] h) [
  | inl found ↦
      let (p, e, at_p) = enumerate_place 0 n q order found in
      subst (λ q. get_elem? order q ≡ some n) (sym (e ∙ omega arith)) at_p
  | inr nothing ↦ cc
]

pub sorted_indexes-some :
    (order : List ℕ) (n : ℕ) → Occurs n order → (q : ℕ) × (lookup n (sorted_indexes order) ≡ some q)
unfolding sorted_indexes
sorted_indexes-some order n h =
    let (q, at_q) = enumerate-some 0 n order h in
    collect_onto-some n q (enumerate 0 order) [] (inl at_q)
