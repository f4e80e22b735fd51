-- ===== src/Graph/Keys.antt =====
-- Hash maps as association lists with one entry for a key, and their keys.
use vegafusion.Prelude.Assoc.{lookup, remove, lookup-remove_ne, lookup-remove_self, Distinct}
use vegafusion.Prelude.{
  KeyEq, ◌==◌, ==_iff, ℕ, zero, suc, ◌<◌, Bool, true, false, ◌&&◌, List, [], ◌∷◌, ◌++◌, Option,
  none, some, ◌≡◌, ◌≢◌, ◌↔◌, ◌⊎◌, inl, inr, refl, sym, ap, subst, ◌∙◌, arith, get_elem?, length,
}

module _ {A B : Type 0} ⦃a : KeyEq A⦄ ⦃b : KeyEq B⦄ where
  instance abbrev pub pair_key : KeyEq (A × B)
  pair_key = record {
    test = λ p q. p.0 == q.0 && p.1 == q.1;
    test_iff = λ p q. ground (arith, ==_iff p.0 q.0, ==_iff p.1 q.1);
  }

module _ {A : Type 0} ⦃a : KeyEq A⦄ where
  abbrev pub same_list : List A → List A → Bool
  same_list [] [] = true
  same_list (x ∷ xs) (y ∷ ys) = x == y && same_list xs ys
  same_list _ _ = false

  pub same_list_iff : (xs ys : List A) → (same_list xs ys ≡ true) ↔ (xs ≡ ys)
  same_list_iff [] [] = ground arith
  same_list_iff [] (y ∷ ys) = ground arith
  same_list_iff (x ∷ xs) [] = ground arith
  same_list_iff (x ∷ xs) (y ∷ ys) = ground (arith, ==_iff x y, same_list_iff xs ys)

  instance abbrev pub list_key : KeyEq (List A)
  list_key = record { test = same_list; test_iff = same_list_iff }

  abbrev pub same_option : Option A → Option A → Bool
  same_option none none = true
  same_option (some x) (some y) = x == y
  same_option _ _ = false

  pub same_option_iff : (x y : Option A) → (same_option x y ≡ true) ↔ (x ≡ y)
  same_option_iff none none = ground arith
  same_option_iff none (some y) = ground arith
  same_option_iff (some x) none = ground arith
  same_option_iff (some x) (some y) = ground (arith, ==_iff x y)

  instance abbrev pub option_key : KeyEq (Option A)
  option_key = record { test = same_option; test_iff = same_option_iff }

module _ {A : Type 0} where
  abbrev pub Occurs : A → List A → Type 0
  Occurs a [] = ⊥
  Occurs a (x ∷ xs) = (a ≡ x) ⊎ Occurs a xs

module _ {K : Type 0} ⦃key : KeyEq K⦄ where
  pub test_cases : (k j : K) → (k ≡ j) ⊎ (k ≢ j)
  test_cases k j = by_test (k == j) refl
    where
      by_test : (b : Bool) → (k == j) ≡ b → (k ≡ j) ⊎ (k ≢ j)
      by_test true e = inl ((==_iff k j).0 e)
      by_test false e = inr (λ same. ground (arith, ==_iff k j))

module _ {K V : Type 0} ⦃key : KeyEq K⦄ where
  -- `HashMap::insert`
  unfoldable pub put : K → V → List (K × V) → List (K × V)
  put k v m = (k, v) ∷ remove k m

  -- What `collect` makes of pairs: the last one for a key stands.
  unfoldable pub collect_onto : List (K × V) → List (K × V) → List (K × V)
  unfolding put
  collect_onto m [] = m
  collect_onto m ((k, v) ∷ l) = collect_onto (put k v m) l

  lookup-remove-none :
      (k j : K) (m : List (K × V)) → lookup j m ≡ none → lookup j (remove k m) ≡ none
  unfolding lookup remove
  lookup-remove-none k j [] h = refl
  lookup-remove-none k j ((i, v) ∷ m) h = ground (arith, lookup-remove-none k j m)

  remove-Distinct : (k : K) (m : List (K × V)) → Distinct m → Distinct (remove k m)
  unfolding remove
  remove-Distinct k [] d = tt
  remove-Distinct k ((i, v) ∷ m) d =
      ground (arith, remove-Distinct k m d.1, lookup-remove-none k i m d.0)

  pub put-Distinct : (k : K) (v : V) (m : List (K × V)) → Distinct m → Distinct (put k v m)
  unfolding put
  put-Distinct k v m d = (lookup-remove_self k m d, remove-Distinct k m d)

  pub lookup-put_self : (k : K) (v : V) (m : List (K × V)) → lookup k (put k v m) ≡ some v
  unfolding put lookup
  lookup-put_self k v m = ground (arith, ==_iff k k)

  pub lookup-put_ne :
      (k j : K) (v : V) (m : List (K × V)) → k ≢ j → lookup j (put k v m) ≡ lookup j m
  unfolding put lookup
  lookup-put_ne k j v m h = ground (arith, ==_iff k j, lookup-remove_ne k j m h)

  -- A map has only what was put into it.
  pub lookup-put :
      (k j : K) (v w : V) (m : List (K × V))
      → lookup j (put k v m) ≡ some w
      → ((j ≡ k) × (w ≡ v)) ⊎ (lookup j m ≡ some w)
  lookup-put k j v w m h = elim (test_cases k j) [
    | inl same ↦ inl (
      sym same,
      some_eq
          (sym (subst (λ j. lookup j (put k v m) ≡ some w) (sym same) h) ∙ lookup-put_self k v m),
    )
    | inr other ↦ inr (sym (lookup-put_ne k j v m other) ∙ h)
  ]
    where
      some_eq : some w ≡ some v → w ≡ v
      some_eq e = cc

  pub lookup-collect_onto :
      (j : K) (w : V) (l m : List (K × V))
      → lookup j (collect_onto m l) ≡ some w
      → Occurs (j, w) l ⊎ (lookup j m ≡ some w)
  unfolding collect_onto
  lookup-collect_onto j w [] m h = inr h
  lookup-collect_onto j w ((k, v) ∷ l) m h = elim (lookup-collect_onto j w l (put k v m) h) [
    | inl later ↦ inl (inr later)
    | inr before ↦ elim (lookup-put k j v w m before) [
      | inl here ↦ inl (inl (pair_eq here.0 here.1))
      | inr old ↦ inr old
    ]
  ]
    where
      pair_eq : j ≡ k → w ≡ v → ◌≡◌ {A = K × V} (j, w) (k, v)
      pair_eq e f = cc

  -- A key that was put in stays.
  pub collect_onto-some :
      (j : K) (w : V) (l m : List (K × V))
      → Occurs (j, w) l ⊎ (lookup j m ≡ some w)
      → (v : V) × (lookup j (collect_onto m l) ≡ some v)
  unfolding collect_onto
  collect_onto-some j w [] m (inl h) = elim h [ ]
  collect_onto-some j w [] m (inr h) = (w, h)
  collect_onto-some j w ((k, v) ∷ l) m (inl (inr h)) = collect_onto-some j w l (put k v m) (inl h)
  collect_onto-some j w ((k, v) ∷ l) m (inl (inl h)) = collect_onto-some j v l (put k v m) (
      inr (
        subst (λ i. lookup i (put k v m) ≡ some v) (ap (λ p. p.0) (sym h)) (lookup-put_self k v m)))
  collect_onto-some j w ((k, v) ∷ l) m (inr h) = elim (test_cases k j) [
    | inl same ↦
        collect_onto-some j v l (put k v m)
          (inr (subst (λ i. lookup i (put k v m) ≡ some v) same (lookup-put_self k v m)))
    | inr other ↦ collect_onto-some j w l (put k v m) (inr (lookup-put_ne k j v m other ∙ h))
  ]

module _ {A : Type 0} where
  pub get_elem?-append_left :
      (xs ys : List A) (i : ℕ) (a : A) → get_elem? xs i ≡ some a → get_elem? (xs ++ ys) i ≡ some a
  get_elem?-append_left [] ys i a h = cc
  get_elem?-append_left (x ∷ xs) ys zero a h = h
  get_elem?-append_left (x ∷ xs) ys (suc i) a h = get_elem?-append_left xs ys i a h

  pub get_elem?-append_last : (xs : List A) (a : A) → get_elem? (xs ++ a ∷ []) (length xs) ≡ some a
  get_elem?-append_last [] a = refl
  get_elem?-append_last (x ∷ xs) a = get_elem?-append_last xs a

  pub get_elem?-append_cases :
      (xs : List A) (a b : A) (i : ℕ)
      → get_elem? (xs ++ a ∷ []) i ≡ some b
      → (get_elem? xs i ≡ some b) ⊎ (b ≡ a)
  get_elem?-append_cases [] a b zero h = inr (some_eq h)
    where
      some_eq : some a ≡ some b → b ≡ a
      some_eq e = cc
  get_elem?-append_cases [] a b (suc i) h = inl h
  get_elem?-append_cases (x ∷ xs) a b zero h = inl h
  get_elem?-append_cases (x ∷ xs) a b (suc i) h = get_elem?-append_cases xs a b i h

  pub get_elem?-lt : (xs : List A) (i : ℕ) (a : A) → get_elem? xs i ≡ some a → i < length xs
  get_elem?-lt [] i a h = cc
  get_elem?-lt (x ∷ xs) zero a h = omega arith
  get_elem?-lt (x ∷ xs) (suc i) a h = omega (arith, get_elem?-lt xs i a h)
