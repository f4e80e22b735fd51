-- ===== src/Cache/Rounds.antt =====
-- One round of a loop of `balance`, over any contents: it does not meet an empty segment, and it
-- is one step back in the order of eviction.
use vegafusion.Cache.Lru.{LruCache}
use vegafusion.Cache.Methods.{demote, pop_protected_lru, pop_probationary_lru}
use vegafusion.Cache.Recency.{
  memory, memory-append, Distinct-left, Distinct-last, stored, IsCounted,
}
use vegafusion.Cache.State.{VegaFusionCache}
use vegafusion.Cache.Words.{fetch_sub, fetch_add-mod, fetch_sub-mod}
use vegafusion.Prelude.Assoc.{Distinct, remove_absent}
use vegafusion.Prelude.Outcome.{done}
use vegafusion.Prelude.{
  ℕ, suc, ◌+◌, ◌≤◌, ◌<◌, List, [], ◌∷◌, ◌++◌, ◌≡◌, refl, length, length-append, split_last, Begins,
  append_assoc, arith, nat_key, sym, ap, subst, ◌∙◌,
}

memory_last :
    {V : Type 0} (size_of : V → ℕ) (xs : List (ℕ × V)) (k : ℕ) (v : V)
    → memory size_of (xs ++ (k, v) ∷ []) ≡ size_of v + memory size_of xs
unfolding memory
memory_last size_of xs k v = omega (arith, memory-append size_of xs ((k, v) ∷ []))

length_last : {V : Type 0} (xs : List (ℕ × V)) (e : ℕ × V) → length (xs ++ e ∷ []) ≡ suc (length xs)
length_last xs e = omega (arith, length-append xs (e ∷ []))

module _ {V : Type 0} (l : LruCache V) {Initializer : Type 0} where
  -- The number of entries of each segment.
  abbrev pub protected_len : VegaFusionCache l Initializer → ℕ
  protected_len c = length (l.entries c.protected_cache)

  abbrev pub probationary_len : VegaFusionCache l Initializer → ℕ
  probationary_len c = length (l.entries c.probationary_cache)

module _ {V : Type 0} (l : LruCache V) {Initializer : Type 0} (size_of : V → ℕ) (dp dq : ℕ) where
  -- From `c` to `s` only protected entries were demoted, and not the most recent one.
  pub record Demoted (c s : VegaFusionCache l Initializer) : Type 0 where
    pub counted : IsCounted l size_of dp dq s
    pub same : stored l s ≡ stored l c
    pub front : Begins (l.entries s.protected_cache) (l.entries c.protected_cache)
    pub kept : 0 < protected_len l c → 0 < protected_len l s
    pub shorter : protected_len l s ≤ protected_len l c
    pub capacity : s.capacity ≡ c.capacity
    pub memory_limit : s.memory_limit ≡ c.memory_limit
    pub initializers : s.initializers ≡ c.initializers

  -- From `c` to `s` only probationary entries were dropped, and not the most recent one.
  pub record Dropped (c s : VegaFusionCache l Initializer) : Type 0 where
    pub counted : IsCounted l size_of dp dq s
    pub begins : Begins (stored l s) (stored l c)
    pub front : Begins (l.entries s.probationary_cache) (l.entries c.probationary_cache)
    pub kept : 0 < probationary_len l c → 0 < probationary_len l s
    pub protected : s.protected_cache ≡ c.protected_cache
    pub protected_memory : s.protected_memory ≡ c.protected_memory
    pub shorter : probationary_len l s ≤ probationary_len l c
    pub capacity : s.capacity ≡ c.capacity
    pub memory_limit : s.memory_limit ≡ c.memory_limit
    pub initializers : s.initializers ≡ c.initializers

  -- One round of a loop over the protected segment.
  pub pop_protected_lru-Demoted :
      (c : VegaFusionCache l Initializer)
      → IsCounted l size_of dp dq c
      → 1 < protected_len l c
      → (s : VegaFusionCache l Initializer) × (pop_protected_lru l size_of c ≡ done s)
        × Demoted c s
        × (protected_len l s < protected_len l c)
  unfolding pop_protected_lru stored memory
  pop_protected_lru-Demoted c counted h =
      let (xs, e, split) = split_last (l.entries c.protected_cache) (omega (arith, h)) in
      let (rest, popped, shorter) = l.pop_lru_last c.protected_cache xs e.0 e.1 split in
      let k = e.0 in
      let v = e.1 in
      let ys = l.entries c.probationary_cache in
      let keys : Distinct (xs ++ (e ∷ ys)) =
        subst Distinct (append_assoc xs (e ∷ []) ys)
          (subst (λ es. Distinct (es ++ ys)) split counted.distinct) in
      let put : l.entries (l.put k v c.probationary_cache) ≡ e ∷ ys =
        l.put_entries k v c.probationary_cache
        ∙ ap (◌∷◌ e) (remove_absent k ys (Distinct-last xs ys k v keys)) in
      (
        demote l size_of c k v rest,
        rw (popped, pop_protected_lru),
        record {
          counted = record {
            distinct = rw (shorter, put) keys;
            protected_counted = rw shorter (
                fetch_sub-mod c.protected_memory (size_of v) (memory size_of xs + dp) _
                  counted.protected_counted (rw split (omega (arith, memory_last size_of xs k v))));
            probationary_counted = rw put (
                fetch_add-mod c.probationary_memory (size_of v) (memory size_of ys + dq) _
                  counted.probationary_counted (omega arith));
          };
          same = rw (shorter, put, split, append_assoc);
          front = (e ∷ [], rw (shorter, split));
          kept = λ _. rw shorter (omega (arith, h, ap length split, length_last xs e));
          shorter = rw (shorter, split) (omega (arith, length_last xs e));
          capacity = refl;
          memory_limit = refl;
          initializers = refl;
        },
        rw (shorter, split) (omega (arith, length_last xs e)),
      )

  -- One round of a loop over the probationary segment.
  pub pop_probationary_lru-Dropped :
      (c : VegaFusionCache l Initializer)
      → IsCounted l size_of dp dq c
      → 1 < probationary_len l c
      → (s : VegaFusionCache l Initializer) × (pop_probationary_lru l size_of c ≡ done s)
        × Dropped c s
        × (probationary_len l s < probationary_len l c)
  unfolding pop_probationary_lru stored memory
  pop_probationary_lru-Dropped c counted h =
      let (xs, e, split) = split_last (l.entries c.probationary_cache) (omega (arith, h)) in
      let (rest, popped, shorter) = l.pop_lru_last c.probationary_cache xs e.0 e.1 split in
      let ps = l.entries c.protected_cache in
      let keys : Distinct ((ps ++ xs) ++ e ∷ []) =
        subst Distinct (sym (append_assoc ps xs (e ∷ [])))
          (subst (λ es. Distinct (ps ++ es)) split counted.distinct) in
      (
        record c {
          probationary_cache = rest;
          probationary_memory = fetch_sub c.probationary_memory (size_of e.1);
        },
        rw (popped, pop_probationary_lru),
        record {
          counted = record {
            distinct = rw shorter (Distinct-left (ps ++ xs) (e ∷ []) keys);
            protected_counted = counted.protected_counted;
            probationary_counted = rw shorter (
                fetch_sub-mod c.probationary_memory (size_of e.1) (memory size_of xs + dq) _
                  counted.probationary_counted
                  (rw split (omega (arith, memory_last size_of xs e.0 e.1))));
          };
          begins = (e ∷ [], rw (shorter, split, append_assoc));
          front = (e ∷ [], rw (shorter, split));
          kept = λ _. rw shorter (omega (arith, h, ap length split, length_last xs e));
          protected = refl;
          protected_memory = refl;
          shorter = rw (shorter, split) (omega (arith, length_last xs e));
          capacity = refl;
          memory_limit = refl;
          initializers = refl;
        },
        rw (shorter, split) (omega (arith, length_last xs e)),
      )
