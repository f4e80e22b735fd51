-- ===== src/Cache/StoreImpl.antt =====
-- The segmented cache keeps what `get_or_try_insert_with` needs of its values.
use vegafusion.Cache.Lru.{LruCache}
use vegafusion.Cache.Methods.{new, clear, get, set_value}
use vegafusion.Cache.Promote.{touched}
use vegafusion.Cache.Reads.{get-Read}
use vegafusion.Cache.Recency.{stored}
use vegafusion.Cache.Runs.{IsSound, call-IsSound, set_call, call, clear-IsValid, new-IsValid}
use vegafusion.Cache.State.{VegaFusionCache}
use vegafusion.Cache.Store.{ValueStore, IsEmpty}
use vegafusion.Cache.Writes.{set_value_fresh, set_value_protected, set_value_probationary}
use vegafusion.Prelude.Assoc.{lookup, remove, lookup-append, lookup-remove_ne}
use vegafusion.Prelude.Outcome.{done}
use vegafusion.Prelude.{
  ℕ, Bool, true, false, List, [], ◌∷◌, ◌++◌, ◌≡◌, ◌≢◌, refl, sym, ap, subst, ◌∙◌, inl, inr, ◌⊎◌,
  Option, none, some, arith, nat_key, nat_beq, nat_beq_iff, Option-cases, Begins, or_else,
}

module _ {V : Type 0} where
  pub Begins-lookup :
      (j : ℕ) (v : V) (xs ys : List (ℕ × V))
      → Begins xs ys
      → lookup j xs ≡ some v
      → lookup j ys ≡ some v
  Begins-lookup j v xs ys (rest, e) h =
      ap (lookup j) e ∙ lookup-append j xs rest ∙ ap (λ o. or_else o (lookup j rest)) h

  pub lookup_nil : (j : ℕ) → lookup {V = V} j [] ≡ none
  unfolding lookup
  lookup_nil j = refl

  lookup_head_ne : (j k : ℕ) (w : V) (l : List (ℕ × V)) → k ≢ j → lookup j ((k, w) ∷ l) ≡ lookup j l
  unfolding lookup
  lookup_head_ne j k w l h = ground arith

  lookup_head_self : (k : ℕ) (w : V) (l : List (ℕ × V)) → lookup k ((k, w) ∷ l) ≡ some w
  unfolding lookup
  lookup_head_self k w l = ground arith

  -- A key that comes to the front brings its own value only.
  lookup_moved :
      (j k : ℕ) (v w : V) (l : List (ℕ × V))
      → lookup j ((k, w) ∷ remove k l) ≡ some v
      → (lookup j l ≡ some v) ⊎ ((j ≡ k) × (v ≡ w))
  lookup_moved j k v w l h = by_key (nat_beq k j) refl
    where
      by_key : (b : Bool) → nat_beq k j ≡ b → (lookup j l ≡ some v) ⊎ ((j ≡ k) × (v ≡ w))
      by_key true e =
          let same = (nat_beq_iff k j).0 e in
          let at_k : lookup k ((k, w) ∷ remove k l) ≡ some v =
            subst (λ j. lookup j ((k, w) ∷ remove k l) ≡ some v) (sym same) h in
          inr (sym same, grind (arith, lookup_head_self k w (remove k l)))
      by_key false e =
          let other : k ≢ j = λ same. ground arith in
          inl
            (sym (lookup-remove_ne k j l other) ∙ sym (lookup_head_ne j k w (remove k l) other) ∙ h)

  pub lookup-touched :
      (j k : ℕ) (v : V) (l : List (ℕ × V)) → lookup j (touched k l) ≡ some v → lookup j l ≡ some v
  unfolding touched
  lookup-touched j k v l h = by_value (lookup k l) refl h
    where
      by_value :
          (o : Option V)
          → lookup k l ≡ o
          → lookup j (elim o [ none ↦ l | some w ↦ (k, w) ∷ remove k l ]) ≡ some v
          → lookup j l ≡ some v
      by_value none e h = h
      by_value (some w) e h = elim (lookup_moved j k v w l h) [
        | inl old ↦ old
        | inr (same, same_value) ↦ ap (λ j. lookup j l) same ∙ e ∙ ap some (sym same_value)
      ]

  lookup_inserted :
      (j k : ℕ) (v w : V) (l m : List (ℕ × V))
      → lookup j (l ++ (k, w) ∷ m) ≡ some v
      → (lookup j (l ++ m) ≡ some v) ⊎ ((j ≡ k) × (v ≡ w))
  unfolding lookup
  lookup_inserted j k v w [] m h = ground (arith, nat_beq_iff k j)
  lookup_inserted j k v w ((i, u) ∷ l) m h = ground (arith, lookup_inserted j k v w l m)

done-injective : {A : Type 0} {a b : A} → done a ≡ done b → a ≡ b
done-injective h = cc

module _ {V : Type 0} (l : LruCache V) (Initializer : Type 0) (size_of : V → ℕ) where
  -- What the cache holds after a write, wherever the key was.
  pub set_value-stored :
      (k j : ℕ) (w v : V) (c s : VegaFusionCache l Initializer) (h : IsSound l size_of c)
      → set_value l size_of k w c ≡ done s
      → lookup j (stored l s) ≡ some v
      → (lookup j (stored l c) ≡ some v) ⊎ ((j ≡ k) × (v ≡ w))
  unfolding stored
  set_value-stored k j w v c s h ran got =
      elim (Option-cases (lookup k (l.entries c.protected_cache))) [
        | inr (old, p) ↦
            let (s', ran', _, order, _, _) =
              set_value_protected l size_of h.protected_drift h.probationary_drift k w c h.drifted
                old p in
            lookup_moved j k v w (stored l c) (
              subst (λ es. lookup j es ≡ some v) order
                (subst (λ s. lookup j (stored l s) ≡ some v) (done-injective (sym ran ∙ ran')) got))
        | inl p ↦ elim (Option-cases (lookup k (l.entries c.probationary_cache))) [
          | inr (old, q) ↦
              let (s', ran', _, begins, _, _, _, _) =
                set_value_probationary l size_of h.protected_drift h.probationary_drift k w c
                  h.drifted old p q in
              inl (
                lookup-touched j k v (stored l c) (
                  Begins-lookup j v (stored l s') (touched k (stored l c)) begins (
                    subst (λ s. lookup j (stored l s) ≡ some v) (done-injective (sym ran ∙ ran'))
                      got)))
          | inl q ↦
              let (s', ran', _, begins, _, _, _, _, _, _) =
                set_value_fresh l size_of h.protected_drift h.probationary_drift k w c h.drifted
                  h.bounded p q in
              lookup_inserted j k v w (l.entries c.protected_cache) (l.entries c.probationary_cache)
                (Begins-lookup j v (stored l s')
                  (l.entries c.protected_cache ++ (k, w) ∷ l.entries c.probationary_cache) begins
                  (subst (λ s. lookup j (stored l s) ≡ some v) (done-injective (sym ran ∙ ran'))
                    got))
        ]
      ]

  unfoldable pub segmented : ValueStore V
  unfolding call
  segmented = record {
    Store = VegaFusionCache l Initializer;
    IsSound = IsSound l size_of;
    value = λ k c. lookup k (stored l c);
    get = get l size_of;
    set_value = set_value l size_of;
    clear = clear l size_of;
    get_law = λ k c h.
        let (s, ran, r) = get-Read l size_of h.protected_drift h.probationary_drift k c h.drifted in
        (
          s,
          ran,
          record {
            protected_drift = h.protected_drift;
            probationary_drift = h.probationary_drift;
            drifted = r.drifted;
            bounded = r.bounded h.bounded;
          },
          λ j v got.
              lookup-touched j k v (stored l c)
                (Begins-lookup j v (stored l s) (touched k (stored l c)) r.begins got),
        );
    set_value_law = λ k w c h.
        let (s, ran, sound, _) = call-IsSound l size_of (set_call k w) c h in
        (s, ran, sound, λ j v got. set_value-stored k j w v c s h ran got);
    clear_law = λ c h.
        let (valid, nothing, bounded) = clear-IsValid l size_of c in
        (
          record {
            protected_drift = 0;
            probationary_drift = 0;
            drifted = valid;
            bounded = bounded;
          },
          λ j. ap (lookup j) nothing ∙ lookup_nil j,
        );
  }

  unfoldable pub new_store : Option ℕ → Option ℕ → segmented.Store
  unfolding segmented
  new_store capacity size_limit = new l size_of capacity size_limit

  pub new_store-IsEmpty :
      (capacity size_limit : Option ℕ) → IsEmpty segmented (new_store capacity size_limit)
  unfolding lookup segmented new_store
  new_store-IsEmpty capacity size_limit =
      let (valid, nothing, bounded) =
        new-IsValid l {Initializer = Initializer} size_of capacity size_limit in
      (
        record { protected_drift = 0; probationary_drift = 0; drifted = valid; bounded = bounded },
        λ j. ap (lookup j) nothing,
      )
