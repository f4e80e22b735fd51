-- ===== src/Graph/Build/Links.antt =====
-- The loops that add the edges: they do not panic, and where they succeed, everything that a task
-- reads was resolved.
use vegafusion.Graph.Build.{Graphs, TasksMap, InputVariable, add_input, add_inputs, add_edges}
use vegafusion.Graph.Build.Edges.{
  InRange, Extends, Extends-trans, IsRead, Placed, Placed-Extends, add_input-Extends,
  add_input-ne-panic,
}
use vegafusion.Graph.Chains.{ok-injective, bind-ok, bind-ne-panic}
use vegafusion.Graph.Keys.{Occurs}
use vegafusion.Graph.State.{ok, panic, Messages, Task}
use vegafusion.Prelude.{ℕ, ◌<◌, List, [], ◌∷◌, ◌≡◌, ◌≢◌, inl, inr, refl, sym, subst, length}
use vegafusion.Scope.Tree.{TaskScope}

module _ {m : Messages} (p : Graphs) (input_vars : Task m → List InputVariable) (scopes : TaskScope)
    (tasks : TasksMap m) where
  abbrev pub AreRead : List ℕ → List InputVariable → Type 0
  AreRead usage_scope vs =
      (v : InputVariable) → Occurs v vs → IsRead p input_vars scopes tasks usage_scope v

  add_inputs-Extends :
      (i : ℕ) (usage_scope : List ℕ) (vs : List InputVariable) (g g' : p.DiGraph)
      → InRange p g
      → Placed p input_vars scopes tasks g
      → i < length (p.weights g)
      → add_inputs p input_vars scopes tasks i usage_scope vs g ≡ ok g'
      → Extends p g g' × AreRead usage_scope vs
  unfolding add_inputs
  add_inputs-Extends i usage_scope [] g g' range placed below ran =
      (subst (Extends p g) (ok-injective ran) (refl, range), λ v at_v. elim at_v [ ])
  add_inputs-Extends i usage_scope (v ∷ vs) g g' range placed below ran =
      let (h, here, rest) =
        bind-ok (add_input p input_vars scopes tasks i usage_scope v g) _ g' ran in
      let (extends, read) =
        add_input-Extends p input_vars scopes tasks i usage_scope v g h range placed below here in
      let (extends', reads) =
        add_inputs-Extends i usage_scope vs h g' extends.1
          (Placed-Extends p input_vars scopes tasks g h placed extends)
          (subst (λ ws. i < length ws) (sym extends.0) below) rest in
      (
        Extends-trans p g h g' extends extends',
        λ u at_u. elim at_u [
          | inl same ↦ subst (IsRead p input_vars scopes tasks usage_scope) (sym same) read
          | inr later ↦ reads u later
        ],
      )

  add_inputs-ne-panic :
      (i : ℕ) (usage_scope : List ℕ) (vs : List InputVariable) (g : p.DiGraph)
      → InRange p g
      → Placed p input_vars scopes tasks g
      → i < length (p.weights g)
      → add_inputs p input_vars scopes tasks i usage_scope vs g ≢ panic
  unfolding add_inputs
  add_inputs-ne-panic i usage_scope [] g range placed below = λ e. cc
  add_inputs-ne-panic i usage_scope (v ∷ vs) g range placed below =
      bind-ne-panic (add_input p input_vars scopes tasks i usage_scope v g) _
        (add_input-ne-panic p input_vars scopes tasks i usage_scope v g range placed below)
        (λ h here.
          let (extends, read) =
            add_input-Extends p input_vars scopes tasks i usage_scope v g h range placed below
              here in
          add_inputs-ne-panic i usage_scope vs h extends.1
            (Placed-Extends p input_vars scopes tasks g h placed extends)
            (subst (λ ws. i < length ws) (sym extends.0) below))

  -- Every value of the map stands at a node.
  abbrev pub AtNodes : p.DiGraph → List (ℕ × Task m) → Type 0
  AtNodes g values = (x : ℕ × Task m) → Occurs x values → x.0 < length (p.weights g)

  pub add_edges-Extends :
      (values : List (ℕ × Task m)) (g g' : p.DiGraph)
      → InRange p g
      → Placed p input_vars scopes tasks g
      → AtNodes g values
      → add_edges p input_vars scopes tasks values g ≡ ok g'
      → Extends p g g' × ((x : ℕ × Task m) → Occurs x values → AreRead x.1.scope (input_vars x.1))
  unfolding add_edges
  add_edges-Extends [] g g' range placed at_nodes ran =
      (subst (Extends p g) (ok-injective ran) (refl, range), λ v at_v. elim at_v [ ])
  add_edges-Extends ((i, task) ∷ values) g g' range placed at_nodes ran =
      let (h, here, rest) =
        bind-ok (add_inputs p input_vars scopes tasks i task.scope (input_vars task) g) _ g' ran in
      let (extends, read) =
        add_inputs-Extends i task.scope (input_vars task) g h range placed
          (at_nodes (i, task) (inl refl)) here in
      let (extends', reads) =
        add_edges-Extends values h g' extends.1
          (Placed-Extends p input_vars scopes tasks g h placed extends)
          (λ x at_x. subst (λ ws. x.0 < length ws) (sym extends.0) (at_nodes x (inr at_x))) rest in
      (
        Extends-trans p g h g' extends extends',
        λ x at_x. elim at_x [
          | inl same ↦ subst (λ x. AreRead x.1.scope (input_vars x.1)) (sym same) read
          | inr later ↦ reads x later
        ],
      )

  pub add_edges-ne-panic :
      (values : List (ℕ × Task m)) (g : p.DiGraph)
      → InRange p g
      → Placed p input_vars scopes tasks g
      → AtNodes g values
      → add_edges p input_vars scopes tasks values g ≢ panic
  unfolding add_edges
  add_edges-ne-panic [] g range placed at_nodes = λ e. cc
  add_edges-ne-panic ((i, task) ∷ values) g range placed at_nodes =
      bind-ne-panic (add_inputs p input_vars scopes tasks i task.scope (input_vars task) g) _
        (add_inputs-ne-panic i task.scope (input_vars task) g range placed
          (at_nodes (i, task) (inl refl)))
        (λ h here.
          let (extends, read) =
            add_inputs-Extends i task.scope (input_vars task) g h range placed
              (at_nodes (i, task) (inl refl)) here in
          add_edges-ne-panic values h extends.1
            (Placed-Extends p input_vars scopes tasks g h placed extends)
            (λ x at_x. subst (λ ws. x.0 < length ws) (sym extends.0) (at_nodes x (inr at_x))))
