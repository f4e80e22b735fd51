-- ===== src/Graph/Build/Edges.antt =====
-- The edges: their ends are nodes, and what a task reads was resolved on the way.
use vegafusion.Graph.Build.{
  Graphs, TasksMap, ScopedVariable, InputVariable, add_input, try_resolved, or_err, unwrap,
}
use vegafusion.Graph.Chains.{
  ok-injective, bind-ok, bind-ne-panic, unwrap-ok, unwrap-ne-panic, or_err-ok, or_err-ne-panic,
}
use vegafusion.Graph.Keys.{Occurs, pair_key, list_key}
use vegafusion.Graph.State.{missing_variable, ok, panic, Messages, Task}
use vegafusion.Prelude.Assoc.{lookup}
use vegafusion.Prelude.Fallible.{Fallible, ok as resolved, err as unresolved_error}
use vegafusion.Prelude.{
  ℕ, ◌<◌, Bool, true, false, if◌then◌else◌, nat_beq, List, ◌∷◌, some, ◌≡◌, ◌≢◌, inl, inr, refl, sym,
  ap, subst, ◌∙◌, length, nat_key,
}
use vegafusion.Scope.Resolve.{Resolved, resolve_scope}
use vegafusion.Scope.Tree.{TaskScope, ScopeError}
use vegafusion.Scope.Variable.{variable_key}

try_resolved-ok :
    (f : Fallible ScopeError Resolved) (r : Resolved) → try_resolved f ≡ ok r → f ≡ resolved r
try_resolved-ok (resolved r') r h = cc
try_resolved-ok (unresolved_error e) r h = cc

try_resolved-ne-panic : (f : Fallible ScopeError Resolved) → try_resolved f ≢ panic
try_resolved-ne-panic (resolved r) h = cc
try_resolved-ne-panic (unresolved_error e) h = cc

module _ (p : Graphs) where
  -- Both ends of every edge are nodes.
  abbrev pub InRange : p.DiGraph → Type 0
  InRange g =
      (a b : ℕ) (w : _)
      → Occurs (a, b, w) (p.edges g)
      → (a < length (p.weights g)) × (b < length (p.weights g))

  abbrev pub Extends : p.DiGraph → p.DiGraph → Type 0
  Extends g g' = (p.weights g' ≡ p.weights g) × InRange g'

  -- An edge between two nodes.
  link_lem :
      (a b : ℕ) (w : _) (g : p.DiGraph)
      → InRange g
      → a < length (p.weights g)
      → b < length (p.weights g)
      → (g' : p.DiGraph) × (p.add_edge a b w g ≡ some g') × Extends g g'
  link_lem a b w g h below_a below_b =
      let (g', added, same, edges) = p.add_edge_law a b w g below_a below_b in
      (
        g',
        added,
        (
          same,
          λ c d u at_edge.
              subst (λ ws. (c < length ws) × (d < length ws)) (sym same)
                (by_edge c d u (subst (Occurs (c, d, u)) edges at_edge)),
        ),
      )
    where
      by_edge :
          (c d : ℕ) (u : _)
          → Occurs (c, d, u) ((a, b, w) ∷ p.edges g)
          → (c < length (p.weights g)) × (d < length (p.weights g))
      by_edge c d u (inl here) = (
        subst (λ c. c < length (p.weights g)) (sym (ap (λ x. x.0) here)) below_a,
        subst (λ d. d < length (p.weights g)) (sym (ap (λ x. x.1) here)) below_b,
      )
      by_edge c d u (inr there) = h c d u there

  pub Extends-trans : (f g h : p.DiGraph) → Extends f g → Extends g h → Extends f h
  Extends-trans f g h (e, _) (e', r) = (e' ∙ e, r)

module _ {m : Messages} (p : Graphs) (input_vars : Task m → List InputVariable) (scopes : TaskScope)
    (tasks : TasksMap m) where
  abbrev pub IsRead : List ℕ → InputVariable → Type 0
  IsRead usage_scope v = (r : Resolved) × (resolve_scope scopes v.var usage_scope ≡ resolved r)

  -- The tasks of the map stand at nodes.
  abbrev pub Placed : p.DiGraph → Type 0
  Placed g =
      (k : ScopedVariable) (i : ℕ) (t : Task m)
      → lookup k tasks ≡ some (i, t)
      → i < length (p.weights g)

  pub Placed-Extends : (g g' : p.DiGraph) → Placed g → Extends p g g' → Placed g'
  Placed-Extends g g' placed (same, _) k i t e =
      subst (λ ws. i < length ws) (sym same) (placed k i t e)

  link-Extends :
      (b : Bool) (i j : ℕ) (w : _) (g g' : p.DiGraph)
      → InRange p g
      → j < length (p.weights g)
      → i < length (p.weights g)
      → (if b then ok g else unwrap (p.add_edge j i w g)) ≡ ok g'
      → Extends p g g'
  link-Extends true i j w g g' range below_j below_i ran =
      subst (Extends p g) (ok-injective ran) (refl, range)
  link-Extends false i j w g g' range below_j below_i ran =
      let (h, added, extends) = link_lem p j i w g range below_j below_i in
      subst (Extends p g) (some_injective (sym added ∙ unwrap-ok (p.add_edge j i w g) g' ran))
        extends
    where
      some_injective : {x : p.DiGraph} → some x ≡ some g' → x ≡ g'
      some_injective e = cc

  link-ne-panic :
      (b : Bool) (i j : ℕ) (w : _) (g : p.DiGraph)
      → InRange p g
      → j < length (p.weights g)
      → i < length (p.weights g)
      → (if b then ok g else unwrap (p.add_edge j i w g)) ≢ panic
  link-ne-panic true i j w g range below_j below_i ran = cc
  link-ne-panic false i j w g range below_j below_i ran =
      let (h, added, _) = link_lem p j i w g range below_j below_i in
      unwrap-ne-panic (p.add_edge j i w g) h added ran

  pub add_input-Extends :
      (i : ℕ) (usage_scope : List ℕ) (v : InputVariable) (g g' : p.DiGraph)
      → InRange p g
      → Placed g
      → i < length (p.weights g)
      → add_input p input_vars scopes tasks i usage_scope v g ≡ ok g'
      → Extends p g g' × IsRead usage_scope v
  unfolding add_input
  add_input-Extends i usage_scope v g g' range placed below ran =
      let (r, e, ran) = bind-ok (try_resolved (resolve_scope scopes v.var usage_scope)) _ g' ran in
      let ((j, t), e', ran) =
        bind-ok (or_err missing_variable (lookup (r.var, r.scope) tasks)) _ g' ran in
      let there = or_err-ok missing_variable (lookup (r.var, r.scope) tasks) (j, t) e' in
      (
        link-Extends (nat_beq j i) i j r.output_var g g' range (placed (r.var, r.scope) j t there)
            below ran,
        (r, try_resolved-ok (resolve_scope scopes v.var usage_scope) r e),
      )

  pub add_input-ne-panic :
      (i : ℕ) (usage_scope : List ℕ) (v : InputVariable) (g : p.DiGraph)
      → InRange p g
      → Placed g
      → i < length (p.weights g)
      → add_input p input_vars scopes tasks i usage_scope v g ≢ panic
  unfolding add_input
  add_input-ne-panic i usage_scope v g range placed below =
      bind-ne-panic (try_resolved (resolve_scope scopes v.var usage_scope)) _
        (try_resolved-ne-panic _)
        (λ r e.
          bind-ne-panic (or_err missing_variable (lookup (r.var, r.scope) tasks)) _
            (or_err-ne-panic missing_variable (lookup (r.var, r.scope) tasks))
            (λ x e'.
              link-ne-panic (nat_beq x.0 i) i x.0 r.output_var g range
                (placed (r.var, r.scope) x.0 x.1
                  (or_err-ok missing_variable (lookup (r.var, r.scope) tasks) x e'))
                below))
