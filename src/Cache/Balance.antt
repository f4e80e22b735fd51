-- ===== src/Cache/Balance.antt =====
-- The four loops of `balance` in sequence. What they drop are the entries used least recently, and
-- the most recent entry of a segment stays.
use vegafusion.Cache.Lru.{LruCache}
use vegafusion.Cache.Methods.{
  protected_limit, probationary_limit, shrink_protected, balance, store_size,
}
use vegafusion.Cache.Recency.{stored, IsCounted, Drifted}
use vegafusion.Cache.Rounds.{protected_len, probationary_len}
use vegafusion.Cache.Shrink.{
  Limited, Limited-mono, Demoted-trans, Dropped-trans, shrink_protected-Demoted,
  shrink_protected-settled, shrink_probationary-Dropped,
}
use vegafusion.Cache.State.{VegaFusionCache}
use vegafusion.Prelude.Outcome.{done, done-injective}
use vegafusion.Prelude.{
  ℕ, ◌<◌, [], ◌≡◌, Begins, Begins-trans, append-nil, arith, length, sym, ap, subst, ◌∙◌,
}

module _ {V : Type 0} (l : LruCache V) {Initializer : Type 0} (size_of : V → ℕ) (dp dq : ℕ) where
  -- What is left of a cache whose protected segment is within its limits.
  pub record Settled (c s : VegaFusionCache l Initializer) : Type 0 where
    pub protected : s.protected_cache ≡ c.protected_cache
    pub front : Begins (l.entries s.probationary_cache) (l.entries c.probationary_cache)
    pub kept : 0 < probationary_len l c → 0 < probationary_len l s

  -- What a call of `balance` leaves behind.
  pub record Balanced (c s : VegaFusionCache l Initializer) : Type 0 where
    pub valid : Drifted l size_of dp dq s
    pub begins : Begins (stored l s) (stored l c)
    pub front : Begins (l.entries s.protected_cache) (l.entries c.protected_cache)
    pub kept : 0 < protected_len l c → 0 < protected_len l s
    pub settled :
        Limited (protected_limit c.capacity) (protected_len l c) (protected_len l c)
        → Limited (protected_limit c.memory_limit) (protected_len l c) c.protected_memory
        → Settled c s
    pub protected_capacity :
        Limited (protected_limit c.capacity) (protected_len l s) (protected_len l s)
    pub protected_bytes :
        Limited (protected_limit c.memory_limit) (protected_len l s) s.protected_memory
    pub probationary_capacity :
        Limited (probationary_limit c.capacity) (probationary_len l s) (probationary_len l s)
    pub probationary_bytes :
        Limited (probationary_limit c.memory_limit) (probationary_len l s) s.probationary_memory
    pub capacity : s.capacity ≡ c.capacity
    pub memory_limit : s.memory_limit ≡ c.memory_limit
    pub initializers : s.initializers ≡ c.initializers

  -- `balance` ends on every cache with distinct keys and right counters, and does not panic.
  pub balance-Balanced :
      (c : VegaFusionCache l Initializer)
      → IsCounted l size_of dp dq c
      → (s : VegaFusionCache l Initializer) × (balance l size_of c ≡ done s) × Balanced c s
  unfolding balance stored
  balance-Balanced c v =
      let (c₁, ran₁, by₁, stop₁) =
        shrink_protected-Demoted l size_of dp dq (protected_limit c.capacity)
          (λ s. l.len s.protected_cache) c v in
      let (c₂, ran₂, by₂, stop₂) =
        shrink_protected-Demoted l size_of dp dq (protected_limit c.memory_limit)
          (λ s. s.protected_memory) c₁ by₁.counted in
      let (c₃, ran₃, by₃, stop₃) =
        shrink_probationary-Dropped l size_of dp dq (probationary_limit c.capacity)
          (λ s. l.len s.probationary_cache) c₂ by₂.counted in
      let (c₄, ran₄, by₄, stop₄) =
        shrink_probationary-Dropped l size_of dp dq (probationary_limit c.memory_limit)
          (λ s. s.probationary_memory) c₃ by₃.counted in
      let demoted = Demoted-trans l size_of dp dq c c₁ c₂ by₁ by₂ in
      let dropped = Dropped-trans l size_of dp dq c₂ c₃ c₄ by₃ by₄ in
      let same : protected_len l c₄ ≡ protected_len l c₂ =
        ap (λ p. length (l.entries p)) dropped.protected in
      let len₁ = l.len_law c₁.protected_cache in
      let len₃ = l.len_law c₃.probationary_cache in
      (
        store_size l size_of c₄,
        rw (ran₁, ran₂, ran₃, ran₄),
        record {
          valid = record {
            counted = record {
              distinct = dropped.counted.distinct;
              protected_counted = dropped.counted.protected_counted;
              probationary_counted = dropped.counted.probationary_counted;
            };
            sized = omega (arith, l.len_law c₄.protected_cache, l.len_law c₄.probationary_cache);
          };
          begins = Begins-trans _ _ _ dropped.begins ([], sym demoted.same ∙ sym (append-nil _));
          front =
              subst (λ p. Begins (l.entries p) (l.entries c.protected_cache))
                (sym dropped.protected) demoted.front;
          kept = λ h. rw same (demoted.kept h);
          settled = λ full heavy.
              let same₁ : c₁ ≡ c = done-injective (
                sym ran₁
                ∙ shrink_protected-settled l size_of dp dq (protected_limit c.capacity)
                    (λ s. l.len s.protected_cache) c (rw (l.len_law c.protected_cache) full)) in
              let same₂ : c₂ ≡ c = done-injective (
                sym ran₂
                ∙ subst
                    (λ c₁.
                      shrink_protected l size_of (protected_limit c.memory_limit)
                        (λ s. s.protected_memory) c₁
                      ≡ done c)
                    (sym same₁)
                    (shrink_protected-settled l size_of dp dq (protected_limit c.memory_limit)
                      (λ s. s.protected_memory) c heavy)) in
              subst (λ c. Settled c (store_size l size_of c₄)) same₂
                (record {
                  protected = dropped.protected;
                  front = dropped.front;
                  kept = dropped.kept;
                });
          protected_capacity =
              Limited-mono (protected_limit c.capacity) stop₁ (omega (arith, by₂.shorter))
                (omega (arith, by₂.shorter));
          protected_bytes =
              Limited-mono (protected_limit c.memory_limit) stop₂ (omega arith)
                (omega (arith, dropped.protected_memory));
          probationary_capacity =
              Limited-mono (probationary_limit c.capacity) stop₃ (omega (arith, by₄.shorter))
                (omega (arith, by₄.shorter));
          probationary_bytes = stop₄;
          capacity = dropped.capacity ∙ demoted.capacity;
          memory_limit = dropped.memory_limit ∙ demoted.memory_limit;
          initializers = dropped.initializers ∙ demoted.initializers;
        },
      )
