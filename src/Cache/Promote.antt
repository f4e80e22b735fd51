-- ===== src/Cache/Promote.antt =====
-- What `get` and `set_value` share: an entry leaves the probationary segment and becomes the most
-- recent protected one.
use vegafusion.Cache.Lru.{LruCache}
use vegafusion.Cache.Methods.{promote}
use vegafusion.Cache.Recency.{memory, memory-remove, touch-Distinct, stored, IsCounted}
use vegafusion.Cache.State.{VegaFusionCache}
use vegafusion.Cache.Words.{usize_mod, fetch_add-drift, fetch_sub-drift}
use vegafusion.Prelude.Assoc.{
  lookup, remove, Distinct, lookup-append, remove_absent, remove-append_left, remove-append_right,
}
use vegafusion.Prelude.{
  ℕ, ◌+◌, ◌%◌, List, ◌∷◌, ◌++◌, ◌≡◌, none, some, nat_key, or_else, Option-cases, inl, inr, sym, ap,
  subst, ◌∙◌,
}

-- The list of entries after a use of the key: its entry stands first.
unfoldable pub touched {ℓ} : {V : Type ℓ} → ℕ → List (ℕ × V) → List (ℕ × V)
touched key l = elim (lookup key l) [ none ↦ l | some v ↦ (key, v) ∷ remove key l ]

pub touched-Distinct :
    {V : Type 0} (key : ℕ) (es : List (ℕ × V)) → Distinct es → Distinct (touched key es)
unfolding touched
touched-Distinct key es d = elim (Option-cases (lookup key es)) [
  | inl h ↦ rw (h, touched) d
  | inr (v, h) ↦ rw (h, touched) (touch-Distinct key v es d)
]

module _ {V : Type 0} (key : ℕ) (ps qs : List (ℕ × V)) (v : V) where
  pub lookup_left : lookup key ps ≡ some v → lookup key (ps ++ qs) ≡ some v
  lookup_left h = lookup-append key ps qs ∙ ap (λ o. or_else o (lookup key qs)) h

  pub lookup_right : lookup key ps ≡ none → lookup key qs ≡ some v → lookup key (ps ++ qs) ≡ some v
  lookup_right h k = lookup-append key ps qs ∙ ap (λ o. or_else o (lookup key qs)) h ∙ k

  pub touched_left :
      lookup key ps ≡ some v → touched key (ps ++ qs) ≡ (key, v) ∷ (remove key ps ++ qs)
  unfolding touched
  touched_left h =
      rw (lookup_left h, touched) (ap (◌∷◌ (key, v)) (remove-append_left key ps qs v h))

  pub touched_right :
      lookup key ps ≡ none
      → lookup key qs ≡ some v
      → touched key (ps ++ qs) ≡ (key, v) ∷ (ps ++ remove key qs)
  unfolding touched
  touched_right h k =
      rw (lookup_right h k, touched) (ap (◌∷◌ (key, v)) (remove-append_right key ps qs h))

module _ {V : Type 0} (l : LruCache V) {Initializer : Type 0} (size_of : V → ℕ) where
  module _ (key : ℕ) (v : V) (c : VegaFusionCache l Initializer) where
    abbrev ps : List (ℕ × V)
    ps = l.entries c.protected_cache

    abbrev qs : List (ℕ × V)
    qs = l.entries c.probationary_cache

    abbrev pub promoted : ℕ → VegaFusionCache l Initializer
    promoted m = promote l size_of key v (l.pop key c.probationary_cache).1 m c

    pub stored-promoted :
        (m : ℕ)
        → lookup key ps ≡ none
        → lookup key qs ≡ some v
        → stored l (promoted m) ≡ touched key (stored l c)
    unfolding stored
    stored-promoted m h k =
        rw (l.put_entries, l.pop_entries, remove_absent key ps h)
          (sym (touched_right key ps qs v h k))

    pub promoted-IsCounted :
        (m dp dq dp' dq' : ℕ)
        → lookup key ps ≡ none
        → lookup key qs ≡ some v
        → (m + dp) % usize_mod ≡ (size_of v + dp') % usize_mod
        → (size_of v + dq) % usize_mod ≡ (m + dq') % usize_mod
        → IsCounted l size_of dp dq c
        → IsCounted l size_of dp' dq' (promoted m)
    unfolding stored memory
    promoted-IsCounted m dp dq dp' dq' h k e f counted = record {
      distinct =
          subst Distinct (sym (stored-promoted m h k))
            (touched-Distinct key (ps ++ qs) counted.distinct);
      protected_counted =
          rw (l.put_entries, remove_absent key ps h)
            (fetch_add-drift c.protected_memory m (size_of v) (memory size_of ps) dp dp'
              counted.protected_counted e);
      probationary_counted = rw l.pop_entries (
          fetch_sub-drift c.probationary_memory m (size_of v) (memory size_of (remove key qs)) dq
            dq' (rw (← memory-remove size_of key qs v k) counted.probationary_counted) f);
    }
