-- ===== src/Expression/DatasetsUsage/Tests.antt =====
-- The usages of two datasets. The keys of a map are those of its list, each once.
use vegafusion.Expression.ColumnUsage.{ColumnUsage, known, uses}
use vegafusion.Expression.DatasetsUsage.{
  Usages, DatasetsColumnUsage, KeyOrder, Once, uses_in, apply_aliases, datasets_union,
}
use vegafusion.Expression.DatasetsUsage.Union.{
  Unaliased, uses_in-datasets_union, apply_aliases-overwrites,
}
use vegafusion.Graph.Build.{ScopedVariable}
use vegafusion.Graph.Keys.{Occurs, pair_key, list_key, collect_onto, test_cases}
use vegafusion.Prelude.Assoc.{lookup}
use vegafusion.Prelude.{
  ==_iff, ◌||◌, String, List, [], ◌∷◌, some, ◌≡◌, ◌≢◌, ◌⊎◌, inl, inr, refl, sym, subst, ◌∙◌, arith,
  nat_key,
}
use vegafusion.Scope.Variable.{data_ns, variable_key}

Occurs-cases : (k : ScopedVariable) (ks : List ScopedVariable) → Occurs k ks ⊎ (Occurs k ks → ⊥)
Occurs-cases k [] = inr (λ h. h)
Occurs-cases k (j ∷ ks) = elim (test_cases k j) [
  | inl same ↦ inl (inl same)
  | inr other ↦ elim (Occurs-cases k ks) [
    | inl there ↦ inl (inr there)
    | inr absent ↦ inr (either other absent)
  ]
]
  where
    either : k ≢ j → (Occurs k ks → ⊥) → Occurs k (j ∷ ks) → ⊥
    either h l (inl e) = h e
    either h l (inr e) = l e

add_key :
    (k : ScopedVariable) (ks : List ScopedVariable)
    → Occurs k ks ⊎ (Occurs k ks → ⊥)
    → List ScopedVariable
add_key k ks (inl there) = ks
add_key k ks (inr absent) = k ∷ ks

keys_of : Usages → List ScopedVariable
keys_of [] = []
keys_of ((k, c) ∷ m) = add_key k (keys_of m) (Occurs-cases k (keys_of m))

add_key-Once :
    (k : ScopedVariable) (ks : List ScopedVariable) (o : Occurs k ks ⊎ (Occurs k ks → ⊥))
    → Once ks
    → Once (add_key k ks o)
unfolding add_key
add_key-Once k ks (inl there) once = once
add_key-Once k ks (inr absent) once = (absent, once)

keys_of-Once : (m : Usages) → Once (keys_of m)
unfolding keys_of
keys_of-Once [] = tt
keys_of-Once ((k, c) ∷ m) = add_key-Once k (keys_of m) (Occurs-cases k (keys_of m)) (keys_of-Once m)

add_key_cases :
    (k j : ScopedVariable) (ks : List ScopedVariable) (o : Occurs k ks ⊎ (Occurs k ks → ⊥))
    → Occurs j (add_key k ks o)
    → (j ≡ k) ⊎ Occurs j ks
unfolding add_key
add_key_cases k j ks (inl there) h = inr h
add_key_cases k j ks (inr absent) h = h

add_key_keeps :
    (k j : ScopedVariable) (ks : List ScopedVariable) (o : Occurs k ks ⊎ (Occurs k ks → ⊥))
    → (j ≡ k) ⊎ Occurs j ks
    → Occurs j (add_key k ks o)
unfolding add_key
add_key_keeps k j ks (inl there) (inl same) = subst (λ j. Occurs j ks) (sym same) there
add_key_keeps k j ks (inl there) (inr h) = h
add_key_keeps k j ks (inr absent) h = h

found_head : (k : ScopedVariable) (c : ColumnUsage) (m : Usages) → lookup k ((k, c) ∷ m) ≡ some c
unfolding lookup
found_head k c m = ground (arith, ==_iff k k)

found_behind :
    (k j : ScopedVariable) (c : ColumnUsage) (m : Usages)
    → k ≢ j
    → lookup j ((k, c) ∷ m) ≡ lookup j m
unfolding lookup
found_behind k j c m h = ground (arith, ==_iff k j)

keys_of_found :
    (m : Usages) (k : ScopedVariable)
    → Occurs k (keys_of m)
    → (c : ColumnUsage) × (lookup k m ≡ some c)
unfolding keys_of
keys_of_found [] k h = elim h [ ]
keys_of_found ((j, c) ∷ m) k h = elim (test_cases j k) [
  | inl same ↦ (c, subst (λ k. lookup k ((j, c) ∷ m) ≡ some c) same (found_head j c m))
  | inr other ↦ elim (add_key_cases j k (keys_of m) (Occurs-cases j (keys_of m)) h) [
    | inl same ↦ absurd (other (sym same))
    | inr there ↦ let (d, e) = keys_of_found m k there in (d, found_behind j k c m other ∙ e)
  ]
]

keys_of_all :
    (m : Usages) (k : ScopedVariable) (c : ColumnUsage) → lookup k m ≡ some c → Occurs k (keys_of m)
unfolding keys_of lookup
keys_of_all [] k c h = cc
keys_of_all ((j, d) ∷ m) k c h =
    add_key_keeps j k (keys_of m) (Occurs-cases j (keys_of m)) (elim (test_cases j k) [
      | inl same ↦ inl (sym same)
      | inr other ↦ inr (keys_of_all m k c (sym (found_behind j k d m other) ∙ h))
    ])

abbrev in_list_order : KeyOrder
unfolding keys_of add_key
in_list_order = record {
  keys = keys_of;
  keys_once = keys_of-Once;
  keys_found = keys_of_found;
  keys_all = keys_of_all;
}

abbrev dataset : String → ScopedVariable
dataset name = (record { name = name; ns = data_ns }, [])

abbrev prices : DatasetsColumnUsage
prices = record { usages = (dataset "prices", known ("open" ∷ [])) ∷ []; aliases = [] }

abbrev both : DatasetsColumnUsage
both = record {
  usages = (dataset "prices", known ("close" ∷ [])) ∷ (dataset "facet", known ("date" ∷ [])) ∷ [];
  aliases = [];
}

no_alias : (m : Usages) → Unaliased in_list_order (collect_onto [] []) m
unfolding collect_onto lookup
no_alias m v c h = refl

uses_in-datasets_union_example :
    (u : DatasetsColumnUsage) × (datasets_union in_list_order prices both ≡ some u)
    × ((v : ScopedVariable) (x : String)
        → uses_in v x u.usages ≡ (uses_in v x prices.usages || uses_in v x both.usages))
uses_in-datasets_union_example =
    uses_in-datasets_union in_list_order prices both (no_alias prices.usages) (no_alias both.usages)

apply_aliases-overwrites_example :
    (u : DatasetsColumnUsage) × (apply_aliases in_list_order
        ((dataset "facet", dataset "prices") ∷ [])
        both
      ≡ some u)
    × ((x : String) → uses_in (dataset "prices") x u.usages ≡ uses x (known ("date" ∷ [])))
unfolding lookup
apply_aliases-overwrites_example =
    apply_aliases-overwrites in_list_order (dataset "facet") (dataset "prices")
      (known ("date" ∷ [])) both refl
