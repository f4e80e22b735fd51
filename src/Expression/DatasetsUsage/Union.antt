-- ===== src/Expression/DatasetsUsage/Union.antt =====
-- What the union of two usages keeps, and what its aliases lose.
use vegafusion.Expression.ColumnUsage.{ColumnUsage, empty, union, uses, uses-union}
use vegafusion.Expression.DatasetsUsage.{
  Usages, Aliases, DatasetsColumnUsage, KeyOrder, Once, move_aliased, or_empty, usage_or_empty,
  combine, apply_aliases, datasets_union, uses_in,
}
use vegafusion.Graph.Build.{ScopedVariable}
use vegafusion.Graph.Keys.{
  Occurs, pair_key, list_key, put, collect_onto, lookup-put_self, lookup-put_ne, test_cases,
}
use vegafusion.Prelude.Assoc.{lookup, remove}
use vegafusion.Prelude.Sets.{contains}
use vegafusion.Prelude.{
  ==_iff, Bool, false, ◌||◌, String, List, [], ◌∷◌, ◌++◌, Option, none, some, ◌≡◌, ◌≢◌, ◌⊎◌, inl,
  inr, refl, sym, ap, subst, ◌∙◌, arith, nat_key, Option-cases,
}
use vegafusion.Scope.Variable.{variable_key}

move_aliased-none :
    (aliases : Aliases) (vars : List ScopedVariable) (usages : Usages)
    → ((v : ScopedVariable) → Occurs v vars → lookup v aliases ≡ none)
    → move_aliased aliases vars usages ≡ some usages
unfolding move_aliased
move_aliased-none aliases [] usages h = refl
move_aliased-none aliases (v ∷ vars) usages h =
    rw (h v (inl refl), move_aliased)
      (move_aliased-none aliases vars usages (λ u at_u. h u (inr at_u)))

lookup-combine_ne :
    (left right : Usages) (vars : List ScopedVariable) (usages : Usages) (v : ScopedVariable)
    → (Occurs v vars → ⊥)
    → lookup v (combine left right vars usages) ≡ lookup v usages
unfolding combine
lookup-combine_ne left right [] usages v h = refl
lookup-combine_ne left right (u ∷ vars) usages v h =
    lookup-combine_ne left right vars
      (put u (union (usage_or_empty u left) (usage_or_empty u right)) usages) v
      (λ at_v. h (inr at_v))
    ∙ lookup-put_ne u v (union (usage_or_empty u left) (usage_or_empty u right)) usages
        (λ same. h (inl (sym same)))

-- What is combined for a variable stays, whatever comes behind.
lookup-combine :
    (left right : Usages) (vars : List ScopedVariable) (usages : Usages) (v : ScopedVariable)
    → Occurs v vars
      ⊎ (lookup v usages ≡ some (union (usage_or_empty v left) (usage_or_empty v right)))
    → lookup v (combine left right vars usages)
      ≡ some (union (usage_or_empty v left) (usage_or_empty v right))
unfolding combine
lookup-combine left right [] usages v (inl h) = elim h [ ]
lookup-combine left right [] usages v (inr h) = h
lookup-combine left right (u ∷ vars) usages v h =
    lookup-combine left right vars
      (put u (union (usage_or_empty u left) (usage_or_empty u right)) usages) v
      (by_key (test_cases u v) h)
  where
    by_key :
        ((u ≡ v) ⊎ (u ≢ v))
        → (Occurs v (u ∷ vars)
            ⊎ (lookup v usages ≡ some (union (usage_or_empty v left) (usage_or_empty v right))))
        → Occurs v vars
          ⊎ (lookup v (put u (union (usage_or_empty u left) (usage_or_empty u right)) usages)
              ≡ some (union (usage_or_empty v left) (usage_or_empty v right)))
    by_key (inl same) h = inr (
        subst
          (λ v.
            lookup v (put u (union (usage_or_empty u left) (usage_or_empty u right)) usages)
            ≡ some (union (usage_or_empty v left) (usage_or_empty v right)))
          same (lookup-put_self u (union (usage_or_empty u left) (usage_or_empty u right)) usages))
    by_key (inr other) (inl (inl here)) = absurd (other (sym here))
    by_key (inr other) (inl (inr there)) = inl there
    by_key (inr other) (inr old) = inr (
        lookup-put_ne u v (union (usage_or_empty u left) (usage_or_empty u right)) usages other
        ∙ old)

Occurs-append :
    {A : Type 0} (a : A) (xs ys : List A) → Occurs a (xs ++ ys) → Occurs a xs ⊎ Occurs a ys
Occurs-append a [] ys h = inr h
Occurs-append a (x ∷ xs) ys (inl h) = inl (inl h)
Occurs-append a (x ∷ xs) ys (inr h) = elim (Occurs-append a xs ys h) [
  | inl left ↦ inl (inr left)
  | inr right ↦ inr right
]

Occurs-either :
    {A : Type 0} (a : A) (xs ys : List A) → Occurs a xs ⊎ Occurs a ys → Occurs a (xs ++ ys)
Occurs-either a [] ys (inl h) = elim h [ ]
Occurs-either a [] ys (inr h) = h
Occurs-either a (x ∷ xs) ys (inl (inl h)) = inl h
Occurs-either a (x ∷ xs) ys (inl (inr h)) = inr (Occurs-either a xs ys (inl h))
Occurs-either a (x ∷ xs) ys (inr h) = inr (Occurs-either a xs ys (inr h))

uses-empty : (x : String) → uses x empty ≡ false
unfolding contains
uses-empty x = refl

uses_in-some :
    (v : ScopedVariable) (x : String) (m : Usages) (c : ColumnUsage)
    → lookup v m ≡ some c
    → uses_in v x m ≡ uses x c
uses_in-some v x m c h = ap (λ o. uses x (or_empty o)) h

uses_in-none :
    (v : ScopedVariable) (x : String) (m : Usages) → lookup v m ≡ none → uses_in v x m ≡ false
uses_in-none v x m h = ap (λ o. uses x (or_empty o)) h ∙ uses-empty x

module _ (hash_map : KeyOrder) where
  abbrev all_keys : Usages → Usages → List ScopedVariable
  all_keys left right = hash_map.keys left ++ hash_map.keys right

  uses_in-combine :
      (left right : Usages) (v : ScopedVariable) (x : String)
      → uses_in v x (combine left right (all_keys left right) [])
        ≡ (uses_in v x left || uses_in v x right)
  unfolding lookup
  uses_in-combine left right v x = elim (Option-cases (lookup v left)) [
    | inr (c, e) ↦ present (
        Occurs-either v (hash_map.keys left) (hash_map.keys right)
          (inl (hash_map.keys_all left v c e)))
    | inl e ↦ elim (Option-cases (lookup v right)) [
      | inr (c, f) ↦ present (
          Occurs-either v (hash_map.keys left) (hash_map.keys right)
            (inr (hash_map.keys_all right v c f)))
      | inl f ↦
          uses_in-none v x (combine left right (all_keys left right) []) (
            lookup-combine_ne left right (all_keys left right) [] v (λ at_v.
              absent e f (Occurs-append v (hash_map.keys left) (hash_map.keys right) at_v)))
          ∙ sym (
              both_false (uses_in v x left) (uses_in v x right) (uses_in-none v x left e)
                (uses_in-none v x right f))
    ]
  ]
    where
      both_false : (a b : Bool) → a ≡ false → b ≡ false → (a || b) ≡ false
      both_false a b h k = ground (arith, h, k)

      present :
          Occurs v (all_keys left right)
          → uses_in v x (combine left right (all_keys left right) [])
            ≡ (uses_in v x left || uses_in v x right)
      present at_v =
          uses_in-some v x (combine left right (all_keys left right) [])
            (union (usage_or_empty v left) (usage_or_empty v right))
            (lookup-combine left right (all_keys left right) [] v (inl at_v))
          ∙ uses-union x (usage_or_empty v left) (usage_or_empty v right)

      none_some : {c : ColumnUsage} → ◌≡◌ {A = Option ColumnUsage} none (some c) → ⊥
      none_some e = cc

      absent :
          lookup v left ≡ none
          → lookup v right ≡ none
          → Occurs v (hash_map.keys left) ⊎ Occurs v (hash_map.keys right)
          → ⊥
      absent e f (inl at_v) =
          let (c, found) = hash_map.keys_found left v at_v in none_some (sym e ∙ found)
      absent e f (inr at_v) =
          let (c, found) = hash_map.keys_found right v at_v in none_some (sym f ∙ found)

  -- No dataset with a usage stands for another one.
  abbrev pub Unaliased : Aliases → Usages → Type 0
  Unaliased aliases m =
      (v : ScopedVariable) (c : ColumnUsage) → lookup v m ≡ some c → lookup v aliases ≡ none

  apply_aliases-none :
      (aliases : Aliases) (d : DatasetsColumnUsage)
      → Unaliased aliases d.usages
      → apply_aliases hash_map aliases d
        ≡ some (record { usages = d.usages; aliases = collect_onto d.aliases aliases })
  unfolding apply_aliases
  apply_aliases-none aliases d h =
      rw
        (
          move_aliased-none aliases (hash_map.keys d.usages) d.usages
              (λ v at_v. let (c, found) = hash_map.keys_found d.usages v at_v in h v c found),
          apply_aliases,
        )
        refl

  -- The union of the usages of two sides, where no dataset that either side says something of is an
  -- alias, does not panic, and says of every dataset that a column must be kept exactly if one of
  -- the sides does, in whatever order the hash maps are iterated.
  pub uses_in-datasets_union :
      (d e : DatasetsColumnUsage)
      → Unaliased (collect_onto d.aliases e.aliases) d.usages
      → Unaliased (collect_onto d.aliases e.aliases) e.usages
      → (u : DatasetsColumnUsage) × (datasets_union hash_map d e ≡ some u)
        × ((v : ScopedVariable) (x : String)
            → uses_in v x u.usages ≡ (uses_in v x d.usages || uses_in v x e.usages))
  unfolding datasets_union
  uses_in-datasets_union d e h k = (
    record {
      usages = combine d.usages e.usages (all_keys d.usages e.usages) [];
      aliases = collect_onto d.aliases e.aliases;
    },
    rw
        (
          apply_aliases-none (collect_onto d.aliases e.aliases) d h,
          apply_aliases-none (collect_onto d.aliases e.aliases) e k,
          datasets_union,
        )
        refl,
    λ v x. uses_in-combine d.usages e.usages v x,
  )

no_alias : (from to u : ScopedVariable) → from ≢ u → lookup u ((from, to) ∷ []) ≡ none
unfolding lookup
no_alias from to u other = ground (arith, ==_iff from u)

one_alias : (from to : ScopedVariable) → lookup from ((from, to) ∷ []) ≡ some to
unfolding lookup
one_alias from to = ground (arith, ==_iff from from)

module _ (from to : ScopedVariable) (c : ColumnUsage) where
  move_rest :
      (vars : List ScopedVariable) (m : Usages)
      → (Occurs from vars → ⊥)
      → move_aliased ((from, to) ∷ []) vars m ≡ some m
  move_rest vars m h =
      move_aliased-none ((from, to) ∷ []) vars m
        (λ v at_v. no_alias from to v (λ same. h (subst (λ v. Occurs v vars) (sym same) at_v)))

  move_aliased-cons :
      (vars : List ScopedVariable) (m : Usages)
      → (Occurs from vars → ⊥)
      → lookup from m ≡ some c
      → move_aliased ((from, to) ∷ []) (from ∷ vars) m ≡ some (put to c (remove from m))
  unfolding move_aliased
  move_aliased-cons vars m h e =
      rw (one_alias from to, move_aliased)
        (rw (e, move_aliased) (move_rest vars (put to c (remove from m)) h))

  move_aliased_one :
      (vars : List ScopedVariable) (m : Usages)
      → Once vars
      → Occurs from vars
      → lookup from m ≡ some c
      → move_aliased ((from, to) ∷ []) vars m ≡ some (put to c (remove from m))
  unfolding move_aliased
  move_aliased_one [] m once at_from e = elim at_from [ ]
  move_aliased_one (v ∷ vars) m once at_from e =
      by_key (test_cases from v) at_from (λ there. move_aliased_one vars m once.1 there e)
    where
      by_key :
          ((from ≡ v) ⊎ (from ≢ v))
          → Occurs from (v ∷ vars)
          → (Occurs from vars
              → move_aliased ((from, to) ∷ []) vars m ≡ some (put to c (remove from m)))
          → move_aliased ((from, to) ∷ []) (v ∷ vars) m ≡ some (put to c (remove from m))
      by_key (inl same) at_from rest =
          subst (λ v. move_aliased ((from, to) ∷ []) (v ∷ vars) m ≡ some (put to c (remove from m)))
            same (move_aliased-cons vars m (subst (λ v. Occurs v vars → ⊥) (sym same) once.0) e)
      by_key (inr other) (inl here) rest = absurd (other here)
      by_key (inr other) (inr there) rest = rw (no_alias from to v other, move_aliased) (rest there)

-- With one alias, and a usage of the dataset that stands for another, the usage of the other is
-- replaced by it, and what was known to be used of the other is forgotten.
pub apply_aliases-overwrites :
    (hash_map : KeyOrder) (from to : ScopedVariable) (c : ColumnUsage) (d : DatasetsColumnUsage)
    → lookup from d.usages ≡ some c
    → (u : DatasetsColumnUsage) × (apply_aliases hash_map ((from, to) ∷ []) d ≡ some u)
      × ((x : String) → uses_in to x u.usages ≡ uses x c)
unfolding apply_aliases
apply_aliases-overwrites hash_map from to c d e =
    let moved =
      move_aliased_one from to c (hash_map.keys d.usages) d.usages (hash_map.keys_once d.usages)
        (hash_map.keys_all d.usages from c e) e in
    (
      record {
        usages = put to c (remove from d.usages);
        aliases = collect_onto d.aliases ((from, to) ∷ []);
      },
      rw (moved, apply_aliases) refl,
      λ x.
          uses_in-some to x (put to c (remove from d.usages)) c
            (lookup-put_self to c (remove from d.usages)),
    )
