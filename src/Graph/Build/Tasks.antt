-- ===== src/Graph/Build/Tasks.antt =====
-- The nodes and the map of tasks: each task of the map stands at its node, and each node is in the
-- map.
use vegafusion.Graph.Build.{Graphs, TasksMap, ScopedVariable, add_tasks}
use vegafusion.Graph.Keys.{
  pair_key, list_key, put, put-Distinct, lookup-put, lookup-put_self, lookup-put_ne, test_cases,
  get_elem?-append_left, get_elem?-append_last, get_elem?-append_cases,
}
use vegafusion.Graph.State.{Messages, Task}
use vegafusion.Prelude.Assoc.{lookup, Distinct}
use vegafusion.Prelude.{
  ℕ, List, [], ◌∷◌, ◌++◌, Option, none, some, ◌≡◌, ◌≢◌, ◌⊎◌, inl, inr, sym, ap, subst, ◌∙◌,
  get_elem?, nat_key,
}
use vegafusion.Scope.Variable.{variable_key}

module _ {m : Messages} (p : Graphs) where
  pub record IsBuilt (g : p.DiGraph) (tasks : TasksMap m) : Type 0 where
    pub distinct : Distinct tasks
    pub found :
        (k : ScopedVariable) (i : ℕ) (t : Task m)
        → lookup k tasks ≡ some (i, t)
        → (k ≡ (t.variable, t.scope)) × (get_elem? (p.weights g) i ≡ some k)
    pub weighted :
        (i : ℕ) (k : ScopedVariable)
        → get_elem? (p.weights g) i ≡ some k
        → (x : ℕ × Task m) × (lookup k tasks ≡ some x)

  put-IsBuilt :
      (task : Task m) (g : p.DiGraph) (tasks : TasksMap m)
      → IsBuilt g tasks
      → let scoped_var : ScopedVariable = (task.variable, task.scope) in
        IsBuilt
          (p.add_node scoped_var g).1
          (put scoped_var ((p.add_node scoped_var g).0, task) tasks)
  put-IsBuilt task g tasks h =
      let k : ScopedVariable = (task.variable, task.scope) in
      record {
        distinct = put-Distinct k ((p.add_node k g).0, task) tasks h.distinct;
        found = λ j i t e. elim (lookup-put k j ((p.add_node k g).0, task) (i, t) tasks e) [
          | inl (same, here) ↦ (
            same ∙ ap (λ x. (x.1.variable, x.1.scope)) (sym here),
            subst (λ ws. get_elem? ws i ≡ some j) (sym (p.add_node_weights k g))
                (subst (λ i. get_elem? (p.weights g ++ k ∷ []) i ≡ some j)
                  (sym (ap (λ x. x.0) here ∙ p.add_node_index k g))
                  (get_elem?-append_last (p.weights g) k ∙ ap some (sym same))),
          )
          | inr old ↦
              let (same, at_i) = h.found j i t old in
              (
                same,
                subst (λ ws. get_elem? ws i ≡ some j) (sym (p.add_node_weights k g))
                    (get_elem?-append_left (p.weights g) (k ∷ []) i j at_i),
              )
        ];
        weighted = λ i j e.
            weighted_by i j
              (get_elem?-append_cases (p.weights g) k j i
                (subst (λ ws. get_elem? ws i ≡ some j) (p.add_node_weights k g) e))
              (test_cases k j);
      }
    where
      weighted_by :
          (i : ℕ) (j : ScopedVariable)
          → (get_elem? (p.weights g) i ≡ some j) ⊎ (j ≡ (task.variable, task.scope))
          → (((task.variable, task.scope) ≡ j) ⊎ ((task.variable, task.scope) ≢ j))
          → (x : ℕ × Task m) × (lookup j (
                put
                  (task.variable, task.scope)
                  ((p.add_node (task.variable, task.scope) g).0, task)
                  tasks)
              ≡ some x)
      weighted_by i j old (inl same) = (
        ((p.add_node (task.variable, task.scope) g).0, task),
        subst
            (λ j.
              lookup j (
                put (task.variable, task.scope) ((p.add_node (task.variable, task.scope) g).0, task)
                  tasks)
              ≡ some ((p.add_node (task.variable, task.scope) g).0, task))
            same
            (lookup-put_self (task.variable, task.scope)
              ((p.add_node (task.variable, task.scope) g).0, task) tasks),
      )
      weighted_by i j (inl old) (inr other) =
          let (x, here) = h.weighted i j old in
          (
            x,
            lookup-put_ne (task.variable, task.scope) j
                  ((p.add_node (task.variable, task.scope) g).0, task) tasks other
                ∙ here,
          )
      weighted_by i j (inr same) (inr other) = absurd (other (sym same))

  -- In whatever graph the loop starts, it goes on without an edge.
  pub add_tasks-IsBuilt :
      (ts : List (Task m)) (g : p.DiGraph) (tasks : TasksMap m)
      → IsBuilt g tasks
      → p.edges g ≡ []
      → IsBuilt (add_tasks p ts g tasks).0 (add_tasks p ts g tasks).1
        × (p.edges (add_tasks p ts g tasks).0 ≡ [])
  unfolding add_tasks
  add_tasks-IsBuilt [] g tasks h e = (h, e)
  add_tasks-IsBuilt (task ∷ ts) g tasks h e =
      let k : ScopedVariable = (task.variable, task.scope) in
      add_tasks-IsBuilt ts (p.add_node k g).1 (put k ((p.add_node k g).0, task) tasks)
        (put-IsBuilt task g tasks h) (p.add_node_edges k g ∙ e)

  pub new-IsBuilt : IsBuilt p.new []
  unfolding lookup
  new-IsBuilt = record {
    distinct = tt;
    found = λ k i t e. absurd (no_entry k e);
    weighted = λ i k e. absurd (no_weight i k (p.weights p.new) p.new_weights e);
  }
    where
      no_entry :
          {x : ℕ × Task m} (k : ScopedVariable) → ◌≡◌ {A = Option (ℕ × Task m)} none (some x) → ⊥
      no_entry k e = cc

      some_ne : {k : ScopedVariable} → ◌≡◌ {A = Option ScopedVariable} none (some k) → ⊥
      some_ne e = cc

      no_weight :
          (i : ℕ) (k : ScopedVariable) (ws : List ScopedVariable)
          → ws ≡ []
          → get_elem? ws i ≡ some k
          → ⊥
      no_weight i k ws none_yet e = some_ne (sym (ap (λ ws. get_elem? ws i) none_yet) ∙ e)

  -- It is about the nodes alone.
  pub weights-IsBuilt :
      (g h : p.DiGraph) (tasks : TasksMap m)
      → IsBuilt g tasks
      → p.weights h ≡ p.weights g
      → IsBuilt h tasks
  weights-IsBuilt g h tasks built same = record {
    distinct = built.distinct;
    found = λ k i t e.
        let (key, at_i) = built.found k i t e in
        (key, subst (λ ws. get_elem? ws i ≡ some k) (sym same) at_i);
    weighted = λ i k e. built.weighted i k (subst (λ ws. get_elem? ws i ≡ some k) same e);
  }
