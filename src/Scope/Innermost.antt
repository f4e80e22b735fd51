-- ===== src/Scope/Innermost.antt =====
-- What `resolve_scope` finds: the innermost scope that says something of the variable.
use vegafusion.Prelude.Assoc.{lookup}
use vegafusion.Prelude.Fallible.{Fallible, ok, bind-eq-ok}
use vegafusion.Prelude.{
  ℕ, zero, suc, true, false, List, [], ◌≡◌, ◌⊎◌, none, some, ap, sym, ◌∙◌, subst, length, take,
  text_key, Option-cases, Bool-cases, inl, inr,
}
use vegafusion.Scope.Edit.{level_at}
use vegafusion.Scope.Lookup.{resolve_levels-suc, round-ok}
use vegafusion.Scope.Resolve.{
  Resolved, or_outer, declares, is_built_in, resolve_at, resolve_levels, resolve_scope,
}
use vegafusion.Scope.Tree.{TaskScope, Level, ScopeError}
use vegafusion.Scope.Variable.{Variable, variable_key}

-- What a scope at a path says of a variable: it declares it, or else a task of it puts it out with
-- another variable, or else the variable is a signal that is built in, of the root scope.
pub data Says (v : Variable) (path : List ℕ) (l : Level) : Resolved → Type 0 where
  declared :
      declares v l ≡ true → Says v path l (record { var = v; scope = path; output_var = none })
  put_out :
      (main : Variable)
      → declares v l ≡ false
      → lookup v l.output_var_defs ≡ some main
      → Says v path l (record { var = main; scope = path; output_var = some v })
  built_in :
      declares v l ≡ false
      → lookup v l.output_var_defs ≡ none
      → is_built_in v ≡ true
      → Says v path l (record { var = v; scope = []; output_var = none })

-- A scope that says nothing of a variable.
pub record IsSilent (v : Variable) (l : Level) : Type 0 where
  pub undeclared : declares v l ≡ false
  pub not_put_out : lookup v l.output_var_defs ≡ none
  pub not_built_in : is_built_in v ≡ false

-- Of the scopes on the way to `usage` with fewer than `n` levels, the innermost one that says
-- something of the variable says this, and those inside it are there and silent.
pub data Innermost (s : TaskScope) (v : Variable) (usage : List ℕ) : ℕ → Resolved → Type 0 where
  here :
      (n : ℕ) (l : Level) (r : Resolved)
      → level_at s (take n usage) ≡ ok l
      → Says v (take n usage) l r
      → Innermost s v usage (suc n) r
  around :
      (n : ℕ) (l : Level) (r : Resolved)
      → level_at s (take n usage) ≡ ok l
      → IsSilent v l
      → Innermost s v usage n r
      → Innermost s v usage (suc n) r

resolve_at-Says :
    (v : Variable) (path : List ℕ) (l : Level) (r : Resolved)
    → Says v path l r
    → resolve_at v path l ≡ some r
unfolding resolve_at
resolve_at-Says v path l _ (declared h) = rw h
resolve_at-Says v path l _ (put_out main h k) = rw (h, k)
resolve_at-Says v path l _ (built_in h k b) = rw (h, k, b)

resolve_at-IsSilent :
    (v : Variable) (path : List ℕ) (l : Level) → IsSilent v l → resolve_at v path l ≡ none
unfolding resolve_at
resolve_at-IsSilent v path l h = rw (h.undeclared, h.not_put_out, h.not_built_in)

-- A scope says something or nothing.
say_cases :
    (v : Variable) (path : List ℕ) (l : Level) → ((r : Resolved) × Says v path l r) ⊎ IsSilent v l
say_cases v path l = elim (Bool-cases (declares v l)) [
  | inl h ↦ inl (_, declared h)
  | inr h ↦ elim (Option-cases (lookup v l.output_var_defs)) [
    | inr (main, k) ↦ inl (_, put_out main h k)
    | inl k ↦ elim (Bool-cases (is_built_in v)) [
      | inl b ↦ inl (_, built_in h k b)
      | inr b ↦ inr (record { undeclared = h; not_put_out = k; not_built_in = b })
    ]
  ]
]

ok-injective : {a b : Resolved} → ◌≡◌ {A = Fallible ScopeError Resolved} (ok a) (ok b) → a ≡ b
ok-injective h = cc

resolve_levels-Innermost :
    (s : TaskScope) (v : Variable) (u : List ℕ) (n : ℕ) (r : Resolved)
    → resolve_levels s v u n ≡ ok r
    → Innermost s v u n r
unfolding resolve_levels
resolve_levels-Innermost s v u zero r h = cc
resolve_levels-Innermost s v u (suc n) r h =
    let (l, there, found) =
      bind-eq-ok (level_at s (take n u)) _ r (sym (resolve_levels-suc s v u n) ∙ h) in
    elim (say_cases v (take n u) l) [
      | inl (q, says) ↦
          let same : q ≡ r = ok-injective (
            sym (
              ap (λ o. or_outer o (resolve_levels s v u n)) (resolve_at-Says v (take n u) l q says))
            ∙ found) in
          here n l r there (subst (Says v (take n u) l) same says)
      | inr silent ↦ around n l r there silent (
          resolve_levels-Innermost s v u n r (
            sym (
              ap (λ o. or_outer o (resolve_levels s v u n))
                (resolve_at-IsSilent v (take n u) l silent))
            ∙ found))
    ]

Innermost-resolve_levels :
    (s : TaskScope) (v : Variable) (u : List ℕ) (n : ℕ) (r : Resolved)
    → Innermost s v u n r
    → resolve_levels s v u n ≡ ok r
Innermost-resolve_levels s v u _ _ (here n l r there says) =
    resolve_levels-suc s v u n
    ∙ round-ok s v (take n u) l (resolve_levels s v u n) there
    ∙ ap (λ o. or_outer o (resolve_levels s v u n)) (resolve_at-Says v (take n u) l r says)
Innermost-resolve_levels s v u _ _ (around n l r there silent rest) =
    resolve_levels-suc s v u n
    ∙ round-ok s v (take n u) l (resolve_levels s v u n) there
    ∙ ap (λ o. or_outer o (resolve_levels s v u n)) (resolve_at-IsSilent v (take n u) l silent)
    ∙ Innermost-resolve_levels s v u n r rest

-- What `resolve_scope` gives is what the innermost scope on the way from the scope of use to the root
-- says that says something of the variable: that scope if it declares it, or else that scope with
-- the variable of the task that puts it out, or else, for a signal that is built in, the root scope.
pub resolve_scope-Innermost :
    (s : TaskScope) (v : Variable) (usage : List ℕ) (r : Resolved)
    → resolve_scope s v usage ≡ ok r
    → Innermost s v usage (suc (length usage)) r
unfolding resolve_scope
resolve_scope-Innermost s v usage r h = resolve_levels-Innermost s v usage (suc (length usage)) r h

-- If a scope on the way from the scope of use to the root says something of the variable, and all
-- scopes inside it are there and say nothing of it, `resolve_scope` gives what it says, without an
-- error.
pub Innermost-resolve_scope :
    (s : TaskScope) (v : Variable) (usage : List ℕ) (r : Resolved)
    → Innermost s v usage (suc (length usage)) r
    → resolve_scope s v usage ≡ ok r
unfolding resolve_scope
Innermost-resolve_scope s v usage r h = Innermost-resolve_levels s v usage (suc (length usage)) r h
