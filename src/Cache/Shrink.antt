-- ===== src/Cache/Shrink.antt =====
-- The loops of `balance`: they end, without a panic, with their limits met, and what they take is at
-- the end of a segment.
use vegafusion.Cache.Lru.{LruCache}
use vegafusion.Cache.Methods.{
  over, pop_protected_lru, pop_probationary_lru, shrink_protected, shrink_probationary,
}
use vegafusion.Cache.Recency.{IsCounted}
use vegafusion.Cache.Rounds.{
  Demoted, Dropped, protected_len, probationary_len, pop_protected_lru-Demoted,
  pop_probationary_lru-Dropped,
}
use vegafusion.Cache.State.{VegaFusionCache}
use vegafusion.Prelude.Outcome.{done, while_ends, while_stops}
use vegafusion.Prelude.{
  ℕ, suc, ◌≤◌, ◌<◌, true, false, [], ◌≡◌, ◌⊎◌, inl, inr, refl, Option, none, some, Begins-trans,
  append-nil, arith, sym, subst, ◌∙◌,
}

-- A limit is met, or one entry is left.
abbrev pub Limited : Option ℕ → ℕ → ℕ → Type 0
Limited none len n = Unit
Limited (some limit) len n = (len ≤ 1) ⊎ (n ≤ limit)

over-false : (len n limit : ℕ) → over len n limit ≡ false → (len ≤ 1) ⊎ (n ≤ limit)
over-false len n limit h = ground arith

over-true : (len n limit : ℕ) → over len n limit ≡ true → 1 < len
over-true len n limit h = ground arith

over-stops : (len n limit : ℕ) → (len ≤ 1) ⊎ (n ≤ limit) → over len n limit ≡ false
over-stops len n limit h = ground arith

pub Limited-mono :
    (o : Option ℕ) {len n len' n' : ℕ} → Limited o len n → len' ≤ len → n' ≤ n → Limited o len' n'
Limited-mono none h p q = tt
Limited-mono (some limit) (inl h) p q = inl (omega arith)
Limited-mono (some limit) (inr h) p q = inr (omega arith)

module _ {V : Type 0} (l : LruCache V) {Initializer : Type 0} (size_of : V → ℕ) (dp dq : ℕ) where
  Demoted-refl :
      (c : VegaFusionCache l Initializer)
      → IsCounted l size_of dp dq c
      → Demoted l size_of dp dq c c
  Demoted-refl c v = record {
    counted = v;
    same = refl;
    front = ([], sym (append-nil _));
    kept = λ h. h;
    shorter = omega arith;
    capacity = refl;
    memory_limit = refl;
    initializers = refl;
  }

  pub Demoted-trans :
      (a b c : VegaFusionCache l Initializer)
      → Demoted l size_of dp dq a b
      → Demoted l size_of dp dq b c
      → Demoted l size_of dp dq a c
  Demoted-trans a b c p q = record {
    counted = q.counted;
    same = q.same ∙ p.same;
    front = Begins-trans _ _ _ q.front p.front;
    kept = λ h. q.kept (p.kept h);
    shorter = omega (arith, p.shorter, q.shorter);
    capacity = q.capacity ∙ p.capacity;
    memory_limit = q.memory_limit ∙ p.memory_limit;
    initializers = q.initializers ∙ p.initializers;
  }

  Dropped-refl :
      (c : VegaFusionCache l Initializer)
      → IsCounted l size_of dp dq c
      → Dropped l size_of dp dq c c
  Dropped-refl c v = record {
    counted = v;
    begins = ([], sym (append-nil _));
    front = ([], sym (append-nil _));
    kept = λ h. h;
    protected = refl;
    protected_memory = refl;
    shorter = omega arith;
    capacity = refl;
    memory_limit = refl;
    initializers = refl;
  }

  pub Dropped-trans :
      (a b c : VegaFusionCache l Initializer)
      → Dropped l size_of dp dq a b
      → Dropped l size_of dp dq b c
      → Dropped l size_of dp dq a c
  Dropped-trans a b c p q = record {
    counted = q.counted;
    begins = Begins-trans _ _ _ q.begins p.begins;
    front = Begins-trans _ _ _ q.front p.front;
    kept = λ h. q.kept (p.kept h);
    protected = q.protected ∙ p.protected;
    protected_memory = q.protected_memory ∙ p.protected_memory;
    shorter = omega (arith, p.shorter, q.shorter);
    capacity = q.capacity ∙ p.capacity;
    memory_limit = q.memory_limit ∙ p.memory_limit;
    initializers = q.initializers ∙ p.initializers;
  }

  -- A loop over the protected segment ends with its limit met, whatever it measures.
  pub shrink_protected-Demoted :
      (limit : Option ℕ) (measured : VegaFusionCache l Initializer → ℕ)
      (c : VegaFusionCache l Initializer)
      → IsCounted l size_of dp dq c
      → (s : VegaFusionCache l Initializer) × (shrink_protected l size_of limit measured c ≡ done s)
        × Demoted l size_of dp dq c s
        × Limited limit (protected_len l s) (measured s)
  unfolding shrink_protected
  shrink_protected-Demoted none measured c v = (c, refl, Demoted-refl c v, tt)
  shrink_protected-Demoted (some limit) measured c v =
      let (s, ran, demoted, stop) =
        while_ends (Demoted l size_of dp dq c) (λ s. l.len s.protected_cache)
          (λ s. over (l.len s.protected_cache) (measured s) limit) (pop_protected_lru l size_of)
          (λ s d more.
            let h : 1 < l.len s.protected_cache = over-true _ (measured s) limit more in
            let (t, popped, next, less) =
              pop_protected_lru-Demoted l size_of dp dq s d.counted
                (omega (arith, h, l.len_law s.protected_cache)) in
            (
              t,
              popped,
              Demoted-trans c s t d next,
              omega (arith, less, l.len_law s.protected_cache, l.len_law t.protected_cache),
            ))
          (suc (l.len c.protected_cache)) c (omega arith) (Demoted-refl c v) in
      (
        s,
        ran,
        demoted,
        subst (λ n. (n ≤ 1) ⊎ (measured s ≤ limit)) (l.len_law s.protected_cache)
            (over-false _ _ limit stop),
      )

  -- A loop over the protected segment whose limit is met already does nothing.
  pub shrink_protected-settled :
      (limit : Option ℕ) (measured : VegaFusionCache l Initializer → ℕ)
      (c : VegaFusionCache l Initializer)
      → Limited limit (protected_len l c) (measured c)
      → shrink_protected l size_of limit measured c ≡ done c
  unfolding shrink_protected
  shrink_protected-settled none measured c h = refl
  shrink_protected-settled (some limit) measured c h =
      while_stops _ (pop_protected_lru l size_of) (l.len c.protected_cache) c (
        over-stops (l.len c.protected_cache) (measured c) limit
          (subst (λ n. (n ≤ 1) ⊎ (measured c ≤ limit)) (sym (l.len_law c.protected_cache)) h))

  pub shrink_probationary-Dropped :
      (limit : Option ℕ) (measured : VegaFusionCache l Initializer → ℕ)
      (c : VegaFusionCache l Initializer)
      → IsCounted l size_of dp dq c
      → (s : VegaFusionCache l Initializer) × (shrink_probationary l size_of limit measured c
          ≡ done s)
        × Dropped l size_of dp dq c s
        × Limited limit (probationary_len l s) (measured s)
  unfolding shrink_probationary
  shrink_probationary-Dropped none measured c v = (c, refl, Dropped-refl c v, tt)
  shrink_probationary-Dropped (some limit) measured c v =
      let (s, ran, dropped, stop) =
        while_ends (Dropped l size_of dp dq c) (λ s. l.len s.probationary_cache)
          (λ s. over (l.len s.probationary_cache) (measured s) limit)
          (pop_probationary_lru l size_of)
          (λ s d more.
            let h : 1 < l.len s.probationary_cache = over-true _ (measured s) limit more in
            let (t, popped, next, less) =
              pop_probationary_lru-Dropped l size_of dp dq s d.counted
                (omega (arith, h, l.len_law s.probationary_cache)) in
            (
              t,
              popped,
              Dropped-trans c s t d next,
              omega (arith, less, l.len_law s.probationary_cache, l.len_law t.probationary_cache),
            ))
          (suc (l.len c.probationary_cache)) c (omega arith) (Dropped-refl c v) in
      (
        s,
        ran,
        dropped,
        subst (λ n. (n ≤ 1) ⊎ (measured s ≤ limit)) (l.len_law s.probationary_cache)
            (over-false _ _ limit stop),
      )
