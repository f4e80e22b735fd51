-- ===== src/Graph/Build/ListGraph.antt =====
-- A directed graph as two lists, with the laws of `Petgraph`. Its order is that of the additions,
-- where every edge agrees with it.
use vegafusion.Graph.Keys.{Occurs}
use vegafusion.Graph.Petgraph.{Petgraph}
use vegafusion.Prelude.{
  ℕ, zero, suc, ◌+◌, ◌<◌, ltb, Bool, true, false, ◌&&◌, List, [], ◌∷◌, ◌++◌, Option, none, some,
  ◌≡◌, inl, inr, refl, sym, ap, subst, arith, get_elem?, length, nat_beq, nat_beq_iff,
  if◌then◌else◌,
}

module _ {W : Type 0} where
  unfoldable pub targets : ℕ → List (ℕ × ℕ × W) → List ℕ
  targets i [] = []
  targets i ((a, b, w) ∷ es) = let rest = targets i es in if nat_beq a i then b ∷ rest else rest

  unfoldable pub sources : ℕ → List (ℕ × ℕ × W) → List (ℕ × W)
  sources i [] = []
  sources i ((a, b, w) ∷ es) =
      let rest = sources i es in if nat_beq b i then (a, w) ∷ rest else rest

  unfoldable pub forward : List (ℕ × ℕ × W) → Bool
  forward [] = true
  forward ((a, b, w) ∷ es) = ltb a b && forward es

  pub targets-Occurs :
      (i t : ℕ) (es : List (ℕ × ℕ × W)) → Occurs t (targets i es) → (w : W) × Occurs (i, t, w) es
  unfolding targets
  targets-Occurs i t [] h = elim h [ ]
  targets-Occurs i t ((a, b, w) ∷ es) h = by_test (nat_beq a i) refl h (targets-Occurs i t es)
    where
      by_test :
          (x : Bool)
          → nat_beq a i ≡ x
          → Occurs t (if x then b ∷ targets i es else targets i es)
          → (Occurs t (targets i es) → (w : W) × Occurs (i, t, w) es)
          → (w' : W) × Occurs (i, t, w') ((a, b, w) ∷ es)
      by_test true e (inl here) rest = (w, inl (same ((nat_beq_iff a i).0 e) here))
        where
          same : a ≡ i → t ≡ b → ◌≡◌ {A = ℕ × ℕ × W} (i, t, w) (a, b, w)
          same p q = cc
      by_test true e (inr there) rest = let (w', at_t) = rest there in (w', inr at_t)
      by_test false e there rest = let (w', at_t) = rest there in (w', inr at_t)

  pub sources-Occurs :
      (i s : ℕ) (w : W) (es : List (ℕ × ℕ × W)) → Occurs (s, w) (sources i es) → Occurs (s, i, w) es
  unfolding sources
  sources-Occurs i s w [] h = elim h [ ]
  sources-Occurs i s w ((a, b, u) ∷ es) h = by_test (nat_beq b i) refl h (sources-Occurs i s w es)
    where
      by_test :
          (x : Bool)
          → nat_beq b i ≡ x
          → Occurs (s, w) (if x then (a, u) ∷ sources i es else sources i es)
          → (Occurs (s, w) (sources i es) → Occurs (s, i, w) es)
          → Occurs (s, i, w) ((a, b, u) ∷ es)
      by_test true e (inl here) rest =
          inl (same ((nat_beq_iff b i).0 e) (ap (λ x. x.0) here) (ap (λ x. x.1) here))
        where
          same : b ≡ i → s ≡ a → w ≡ u → ◌≡◌ {A = ℕ × ℕ × W} (s, i, w) (a, b, u)
          same p q r = cc
      by_test true e (inr there) rest = inr (rest there)
      by_test false e there rest = inr (rest there)

  pub forward-lt :
      (a b : ℕ) (w : W) (es : List (ℕ × ℕ × W)) → forward es ≡ true → Occurs (a, b, w) es → a < b
  unfolding forward
  forward-lt a b w [] h o = elim o [ ]
  forward-lt a b w ((c, d, u) ∷ es) h (inl here) = ordered (ap (λ x. x.0) here) (ap (λ x. x.1) here)
    where
      ordered : a ≡ c → b ≡ d → a < b
      ordered p q = ground arith
  forward-lt a b w ((c, d, u) ∷ es) h (inr there) =
      forward-lt a b w es (tail_true (ltb c d) (forward es) h) there
    where
      tail_true : (x y : Bool) → x && y ≡ true → y ≡ true
      tail_true true y e = e
      tail_true false y e = cc

unfoldable pub count_up : ℕ → ℕ → List ℕ
count_up i zero = []
count_up i (suc n) = i ∷ count_up (suc i) n

pub count_up_all : (i n j : ℕ) → i < suc j → j < i + n → Occurs j (count_up i n)
unfolding count_up
count_up_all i zero j h k = absurd (omega arith)
count_up_all i (suc n) j h k =
    by_test (nat_beq j i) refl (λ above. count_up_all (suc i) n j above (omega arith))
  where
    by_test :
        (b : Bool)
        → nat_beq j i ≡ b
        → (suc i < suc j → Occurs j (count_up (suc i) n))
        → Occurs j (i ∷ count_up (suc i) n)
    by_test true e rest = inl ((nat_beq_iff j i).0 e)
    by_test false e rest = inr (rest (ground arith))

pub count_up_lt : (i n j : ℕ) → Occurs j (count_up i n) → j < i + n
unfolding count_up
count_up_lt i zero j h = elim h [ ]
count_up_lt i (suc n) j (inl h) = omega arith
count_up_lt i (suc n) j (inr h) = omega (arith, count_up_lt (suc i) n j h)

pub count_up_place : (i n p a : ℕ) → get_elem? (count_up i n) p ≡ some a → a ≡ i + p
unfolding count_up
count_up_place i zero p a h = cc
count_up_place i (suc n) zero a h = omega (arith, some_eq h)
  where
    some_eq : some i ≡ some a → i ≡ a
    some_eq e = cc
count_up_place i (suc n) (suc p) a h = omega (arith, count_up_place (suc i) n p a h)

module _ (N W : Type 0) where
  abbrev pub Lists : Type 0
  Lists = List N × List (ℕ × ℕ × W)

  unfoldable pub link : ℕ → ℕ → W → Lists → Option Lists
  link a b w g =
      if ltb a (length g.0) && ltb b (length g.0) then some (g.0, (a, b, w) ∷ g.1) else none

  pub link_lem :
      (a b : ℕ) (w : W) (g : Lists)
      → a < length g.0
      → b < length g.0
      → (g' : Lists) × (link a b w g ≡ some g') × (g'.0 ≡ g.0) × (g'.1 ≡ (a, b, w) ∷ g.1)
  unfolding link
  link_lem a b w g h k = ((g.0, (a, b, w) ∷ g.1), ground arith, refl, refl)

  unfoldable pub sort : Lists → Option (List ℕ)
  sort g = if forward g.1 then some (count_up 0 (length g.0)) else none

  pub sort_lem :
      (g : Lists) (order : List ℕ)
      → sort g ≡ some order
      → (order ≡ count_up 0 (length g.0)) × (forward g.1 ≡ true)
  unfolding sort
  sort_lem g order h = ground arith

  pub placed_before :
      (g : Lists) (order : List ℕ)
      → sort g ≡ some order
      → (a b p q : ℕ) (w : W) → Occurs (a, b, w) g.1
      → get_elem? order p ≡ some a
      → get_elem? order q ≡ some b
      → p < q
  placed_before g order sorted a b p q w linked at_p at_q =
      let (counted, forwards) = sort_lem g order sorted in
      omega (
        arith,
        forward-lt a b w g.1 forwards linked,
        count_up_place 0 (length g.0) p a (subst (λ o. get_elem? o p ≡ some a) counted at_p),
        count_up_place 0 (length g.0) q b (subst (λ o. get_elem? o q ≡ some b) counted at_q),
      )

  abbrev pub list_graph : Petgraph N W
  list_graph = record {
    DiGraph = Lists;
    weights = λ g. g.0;
    edges = λ g. g.1;
    new = ([], []);
    new_weights = refl;
    new_edges = refl;
    add_node = λ n g. (length g.0, (g.0 ++ n ∷ [], g.1));
    add_node_index = λ n g. refl;
    add_node_weights = λ n g. refl;
    add_node_edges = λ n g. refl;
    add_edge = link;
    add_edge_law = link_lem;
    node_weight = λ i g. get_elem? g.0 i;
    node_weight_law = λ i g. refl;
    outgoing = λ i g. targets i g.1;
    outgoing_law = λ i t g h. targets-Occurs i t g.1 h;
    incoming = λ i g. sources i g.1;
    incoming_law = λ i s w g h. sources-Occurs i s w g.1 h;
    toposort = sort;
    toposort_all = λ g order sorted i below.
        subst (Occurs i) (sym (sort_lem g order sorted).0)
          (count_up_all 0 (length g.0) i (omega arith) (omega arith));
    toposort_nodes = λ g order sorted i h.
        omega
          (arith, count_up_lt 0 (length g.0) i (subst (Occurs i) (sort_lem g order sorted).0 h));
    toposort_before = placed_before;
  }
