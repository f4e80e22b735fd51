-- ===== src/Scope/Lookup.antt =====
-- What `resolve_scope` finds, and how it sees the changes of a scope.
use native.Mathlib.Decide.{ℕ_discrete}
use vegafusion.Prelude.Fallible.{Fallible, ok, err, ◌>>=◌}
use vegafusion.Prelude.Sets.{contains-insert_self, contains-insert_ne}
use vegafusion.Prelude.{
  ℕ, zero, suc, true, List, ◌≡◌, ◌≢◌, refl, none, some, ap, sym, ◌∙◌, subst, arith, length, take,
  take_all, text_key,
}
use vegafusion.Scope.Edit.{level_at, modify-level_at, modify-level_at_ne}
use vegafusion.Scope.Resolve.{
  Resolved, or_outer, declares, resolve_at, resolve_levels, resolve_scope,
}
use vegafusion.Scope.Tree.{
  TaskScope, Level, ScopeError, level, get_child, declare, add_variable, modify,
}
use vegafusion.Scope.Variable.{Variable, variable_key}

-- A round of the loop sees a scope only through the fields at its path.
abbrev pub round :
    TaskScope → Variable → List ℕ → Fallible ScopeError Resolved → Fallible ScopeError Resolved
round s v path rest = level_at s path >>= λ l. or_outer (resolve_at v path l) rest

pub resolve_levels-suc :
    (s : TaskScope) (v : Variable) (u : List ℕ) (n : ℕ)
    → resolve_levels s v u (suc n) ≡ round s v (take n u) (resolve_levels s v u n)
unfolding resolve_levels level_at
resolve_levels-suc s v u n = step (get_child s (take n u))
  where
    step :
        (r : Fallible ScopeError TaskScope)
        → (r >>= λ t. or_outer (resolve_at v (take n u) (level t)) (resolve_levels s v u n)) ≡ (
            (r >>= λ t. ok (level t)) >>= λ l.
            or_outer (resolve_at v (take n u) l) (resolve_levels s v u n))
    step (ok t) = refl
    step (err e) = refl

-- A round at a scope that is there.
pub round-ok :
    (s : TaskScope) (v : Variable) (path : List ℕ) (l : Level) (rest : Fallible ScopeError Resolved)
    → level_at s path ≡ ok l
    → round s v path rest ≡ or_outer (resolve_at v path l) rest
round-ok s v path l rest h = ap (λ m. m >>= λ l. or_outer (resolve_at v path l) rest) h

declares-declare_self : (v : Variable) (l : Level) → declares v (declare v l) ≡ true
unfolding declares declare
declares-declare_self v l = ground (
  arith,
  contains-insert_self v.name l.signals,
  contains-insert_self v.name l.data_names,
  contains-insert_self v.name l.scales,
)

resolve_at-declared :
    (v : Variable) (path : List ℕ) (l : Level)
    → declares v l ≡ true
    → resolve_at v path l ≡ some (record { var = v; scope = path; output_var = none })
unfolding resolve_at
resolve_at-declared v path l h = rw h

paths_discrete : Discrete (List ℕ)
paths_discrete = hlevel ℕ_discrete

-- A declaration changes what a scope says of no other variable.
resolve_at-declare_ne :
    (v w : Variable) (path : List ℕ) (l : Level)
    → v ≢ w
    → resolve_at w path (declare v l) ≡ resolve_at w path l
unfolding resolve_at declares declare
resolve_at-declare_ne v w path l h = ground (
  arith,
  contains-insert_ne v.name w.name l.signals,
  contains-insert_ne v.name w.name l.data_names,
  contains-insert_ne v.name w.name l.scales,
)

resolve_levels-step :
    (s : TaskScope) (v : Variable) (u : List ℕ) (n : ℕ) (l : Level) (r : Resolved)
    → level_at s (take n u) ≡ ok l
    → resolve_at v (take n u) l ≡ some r
    → resolve_levels s v u (suc n) ≡ ok r
resolve_levels-step s v u n l r h k =
    resolve_levels-suc s v u n
    ∙ round-ok s v (take n u) l (resolve_levels s v u n) h
    ∙ ap (λ o. or_outer o (resolve_levels s v u n)) k

-- What the innermost scope says is the result.
resolve_scope-at :
    (s : TaskScope) (v : Variable) (u : List ℕ) (l : Level) (r : Resolved)
    → level_at s u ≡ ok l
    → resolve_at v u l ≡ some r
    → resolve_scope s v u ≡ ok r
unfolding resolve_scope
resolve_scope-at s v u l r h k =
    resolve_levels-step s v u (length u) l r (subst (λ q. level_at s q ≡ ok l) (sym (take_all u)) h)
      (subst (λ q. resolve_at v q l ≡ some r) (sym (take_all u)) k)

-- A variable that was added to a scope resolves there to that scope.
pub resolve_scope-add_variable :
    (s s' : TaskScope) (v : Variable) (path : List ℕ)
    → add_variable s v path ≡ ok (tt, s')
    → resolve_scope s' v path ≡ ok (record { var = v; scope = path; output_var = none })
unfolding add_variable
resolve_scope-add_variable s s' v path h =
    let (l, l', _, change, after) = modify-level_at (λ l. ok (tt, declare v l)) s s' path tt h in
    let declared : declare v l ≡ l' = cc change in
    resolve_scope-at s' v path l' _ after (
      subst (λ m. resolve_at v path m ≡ some (record { var = v; scope = path; output_var = none }))
        declared (resolve_at-declared v path (declare v l) (declares-declare_self v l)))

-- The rounds before and after a declaration, at any path.
round-declare :
    (s s' : TaskScope) (v w : Variable) (path other : List ℕ) (rest : Fallible ScopeError Resolved)
    → modify (λ l. ok (tt, declare v l)) s path ≡ ok (tt, s')
    → v ≢ w
    → Dec (other ≡ path)
    → round s' w other rest ≡ round s w other rest
round-declare s s' v w path other rest h ne (yes same) =
    let (l, l', before, change, after) =
      modify-level_at (λ l. ok (tt, declare v l)) s s' path tt h in
    let declared : declare v l ≡ l' = cc change in
    subst (λ q. round s' w q rest ≡ round s w q rest) (sym same)
      (round-ok s' w path l' rest after
        ∙ ap (λ o. or_outer o rest)
            (ap (resolve_at w path) (sym declared) ∙ resolve_at-declare_ne v w path l ne)
        ∙ sym (round-ok s w path l rest before))
round-declare s s' v w path other rest h ne (no differ) =
    ap (λ m. m >>= λ l. or_outer (resolve_at w other l) rest)
      (modify-level_at_ne (λ l. ok (tt, declare v l)) s s' path other tt h differ)

resolve_levels-declare :
    (s s' : TaskScope) (v w : Variable) (path u : List ℕ) (n : ℕ)
    → modify (λ l. ok (tt, declare v l)) s path ≡ ok (tt, s')
    → v ≢ w
    → resolve_levels s' w u n ≡ resolve_levels s w u n
unfolding resolve_levels
resolve_levels-declare s s' v w path u zero h ne = refl
resolve_levels-declare s s' v w path u (suc n) h ne =
    resolve_levels-suc s' w u n
    ∙ ap (round s' w (take n u)) (resolve_levels-declare s s' v w path u n h ne)
    ∙ round-declare s s' v w path (take n u) (resolve_levels s w u n) h ne
        (paths_discrete (take n u) path)
    ∙ sym (resolve_levels-suc s w u n)

-- If a variable is added to a scope, no other variable resolves to anything else than before, from
-- any scope.
pub resolve_scope-add_variable_ne :
    (s s' : TaskScope) (v w : Variable) (path usage : List ℕ)
    → add_variable s v path ≡ ok (tt, s')
    → v ≢ w
    → resolve_scope s' w usage ≡ resolve_scope s w usage
unfolding resolve_scope add_variable
resolve_scope-add_variable_ne s s' v w path usage h ne =
    resolve_levels-declare s s' v w path usage (suc (length usage)) h ne
