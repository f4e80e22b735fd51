-- ===== src/Scope/Edit.antt =====
-- What a change at one scope of the tree does to the scopes, seen from each path.
use mathlib.Core.Path.{ap₂}
use native.Mathlib.Decide.{ℕ_discrete}
use vegafusion.Prelude.Fallible.{Fallible, ok, err, ◌>>=◌, bind-eq-ok}
use vegafusion.Prelude.{
  ℕ, zero, suc, List, [], ◌∷◌, ◌≡◌, ◌≢◌, refl, some, Option-cases, inl, inr, ap, sym, ◌∙◌, subst,
}
use vegafusion.Scope.Tree.{
  TaskScope, task_scope, Scopes, no_scopes, push_scope, Level, ScopeError, level, child_at,
  set_child, get_child, modify,
}

-- The fields of the scope at a path.
unfoldable pub level_at : TaskScope → List ℕ → Fallible ScopeError Level
unfolding get_child level
level_at s path = get_child s path >>= λ t. ok (level t)

child_at-set_child_self :
    (cs : Scopes) (i : ℕ) (c d : TaskScope)
    → child_at cs i ≡ some c
    → child_at (set_child cs i d) i ≡ some d
unfolding child_at set_child
child_at-set_child_self no_scopes i c d h = cc
child_at-set_child_self (push_scope s ss) zero c d h = refl
child_at-set_child_self (push_scope s ss) (suc i) c d h = child_at-set_child_self ss i c d h

child_at-set_child_ne :
    (cs : Scopes) (i j : ℕ) (d : TaskScope) → i ≢ j → child_at (set_child cs i d) j ≡ child_at cs j
unfolding child_at set_child
child_at-set_child_ne no_scopes i j d h = refl
child_at-set_child_ne (push_scope s ss) zero zero d h = absurd (h refl)
child_at-set_child_ne (push_scope s ss) zero (suc j) d h = refl
child_at-set_child_ne (push_scope s ss) (suc i) zero d h = refl
child_at-set_child_ne (push_scope s ss) (suc i) (suc j) d h =
    child_at-set_child_ne ss i j d (λ e. h (ap suc e))

-- At a path into a group, the scope is the group's.
level_at-cons :
    (l : Level) (cs : Scopes) (i : ℕ) (is : List ℕ) (c : TaskScope)
    → child_at cs i ≡ some c
    → level_at (task_scope l cs) (i ∷ is) ≡ level_at c is
unfolding level_at
level_at-cons l cs i is c h = rw (h, get_child)

level_at-congr :
    (l l' : Level) (cs ds : Scopes) (i : ℕ) (is : List ℕ)
    → child_at cs i ≡ child_at ds i
    → level_at (task_scope l cs) (i ∷ is) ≡ level_at (task_scope l' ds) (i ∷ is)
unfolding level_at
level_at-congr l l' cs ds i is h = rw (h, get_child)

ok-injective : {E A : Type 0} {a b : A} → ◌≡◌ {A = Fallible E A} (ok a) (ok b) → a ≡ b
ok-injective h = cc

no_ok : {E A : Type 0} {e : E} {a : A} → ◌≡◌ {A = Fallible E A} (err e) (ok a) → ⊥
no_ok h = cc

module _ {A : Type 0} (f : Level → Fallible ScopeError (A × Level)) where
  modify-nil :
      (l : Level) (cs : Scopes) (s' : TaskScope) (a : A)
      → modify f (task_scope l cs) [] ≡ ok (a, s')
      → (l' : Level) × (f l ≡ ok (a, l')) × (s' ≡ task_scope l' cs)
  unfolding modify
  modify-nil l cs s' a h =
      let ((b, l'), ran, e) = bind-eq-ok (f l) _ (a, s') h in
      (
        l',
        ran ∙ ap (λ x. ok (x, l')) (ap (λ p. p.0) (ok-injective e)),
        sym (ap (λ p. p.1) (ok-injective e)),
      )

  modify-cons :
      (l : Level) (cs : Scopes) (i : ℕ) (is : List ℕ) (s' : TaskScope) (a : A)
      → modify f (task_scope l cs) (i ∷ is) ≡ ok (a, s')
      → (c : TaskScope) × (c' : TaskScope) × (child_at cs i ≡ some c)
        × (modify f c is ≡ ok (a, c'))
        × (s' ≡ task_scope l (set_child cs i c'))
  unfolding modify
  modify-cons l cs i is s' a h = elim (Option-cases (child_at cs i)) [
    | inl absent ↦ absurd (no_ok (rw (absent, modify) at h))
    | inr (c, here) ↦
        let ((b, c'), ran, e) =
          bind-eq-ok (modify f c is) (λ (b, c'). ok (b, task_scope l (set_child cs i c'))) (a, s')
            (rw (here, modify) at h) in
        (
          c,
          c',
          here,
          ran ∙ ap (λ x. ok (x, c')) (ap (λ p. p.0) (ok-injective e)),
          sym (ap (λ p. p.1) (ok-injective e)),
        )
  ]

  -- A change that succeeds found the scope, and changed its fields as asked.
  pub modify-level_at :
      (s s' : TaskScope) (path : List ℕ) (a : A)
      → modify f s path ≡ ok (a, s')
      → (l : Level) × (l' : Level) × (level_at s path ≡ ok l)
        × (f l ≡ ok (a, l'))
        × (level_at s' path ≡ ok l')
  unfolding level_at
  modify-level_at (task_scope l cs) s' [] a h =
      let (l', ran, e) = modify-nil l cs s' a h in (l, l', refl, ran, rw e)
  modify-level_at (task_scope l cs) s' (i ∷ is) a h =
      let (c, c', here, ran, e) = modify-cons l cs i is s' a h in
      let (m, m', before, change, after) = modify-level_at c c' is a ran in
      (
        m,
        m',
        level_at-cons l cs i is c here ∙ before,
        change,
        rw e (
            level_at-cons l (set_child cs i c') i is c' (child_at-set_child_self cs i c c' here)
            ∙ after),
      )

  -- It leaves the scopes at other paths as they are.
  pub modify-level_at_ne :
      (s s' : TaskScope) (path other : List ℕ) (a : A)
      → modify f s path ≡ ok (a, s')
      → other ≢ path
      → level_at s' other ≡ level_at s other
  unfolding level_at
  modify-level_at_ne (task_scope l cs) s' [] [] a h ne = absurd (ne refl)
  modify-level_at_ne (task_scope l cs) s' [] (j ∷ js) a h ne =
      let (l', ran, e) = modify-nil l cs s' a h in rw e (level_at-congr l' l cs cs j js refl)
  modify-level_at_ne (task_scope l cs) s' (i ∷ is) [] a h ne =
      let (c, c', here, ran, e) = modify-cons l cs i is s' a h in rw e refl
  modify-level_at_ne (task_scope l cs) s' (i ∷ is) (j ∷ js) a h ne =
      let (c, c', here, ran, e) = modify-cons l cs i is s' a h in
      elim (ℕ_discrete i j) [
        | yes same ↦
            let inner =
              modify-level_at_ne c c' is js a ran
                (λ same_tail. ne (ap₂ ◌∷◌ (sym same) same_tail)) in
            let there : child_at (set_child cs i c') j ≡ some c' =
              subst (λ k. child_at (set_child cs i c') k ≡ some c') same
                (child_at-set_child_self cs i c c' here) in
            rw e (
              level_at-cons l (set_child cs i c') j js c' there
              ∙ inner
              ∙ sym (level_at-cons l cs j js c (subst (λ k. child_at cs k ≡ some c) same here)))
        | no differ ↦ rw e (
            level_at-congr l l (set_child cs i c') cs j js (child_at-set_child_ne cs i j c' differ))
      ]
