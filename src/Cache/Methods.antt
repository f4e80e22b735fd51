-- ===== src/Cache/Methods.antt =====
-- The methods of `VegaFusionCache` that read and write the two LRU caches. Both locks are held
-- through each of them, so a call is one step; `unwrap` of a missing value is a panic.
use vegafusion.Cache.Lru.{LruCache}
use vegafusion.Cache.State.{VegaFusionCache}
use vegafusion.Cache.Words.{fetch_add, fetch_sub, protected_part}
use vegafusion.Prelude.Assoc.{remove as erase}
use vegafusion.Prelude.Outcome.{Outcome, done, panic, ◌>>=◌, while}
use vegafusion.Prelude.{
  ℕ, suc, ◌+◌, ◌-◌, Bool, ◌&&◌, Option, none, some, [], ltb, if◌then◌else◌, nat_key,
}

-- The four tests of the loops of `balance`.
abbrev pub over : ℕ → ℕ → ℕ → Bool
over len n limit = ltb 1 len && ltb limit n

-- The limits of the two segments: half of the whole, rounded up, and the rest.
abbrev pub protected_limit : Option ℕ → Option ℕ
protected_limit none = none
protected_limit (some n) = some (protected_part n)

abbrev pub probationary_limit : Option ℕ → Option ℕ
probationary_limit none = none
probationary_limit (some n) = some (n - protected_part n)

module _ {V : Type 0} (l : LruCache V) {Initializer : Type 0} (size_of : V → ℕ) where
  unfoldable pub new : Option ℕ → Option ℕ → VegaFusionCache l Initializer
  new capacity size_limit = record {
    protected_cache = l.unbounded;
    probationary_cache = l.unbounded;
    initializers = [];
    size = 0;
    protected_memory = 0;
    probationary_memory = 0;
    capacity = capacity;
    memory_limit = size_limit;
  }

  -- The sum is one of `usize`, which wraps around in a release build.
  unfoldable pub total_memory : VegaFusionCache l Initializer → ℕ
  total_memory c = fetch_add c.protected_memory c.probationary_memory

  unfoldable pub clear : VegaFusionCache l Initializer → VegaFusionCache l Initializer
  clear c = record c {
    protected_cache = l.clear c.protected_cache;
    probationary_cache = l.clear c.probationary_cache;
    protected_memory = 0;
    probationary_memory = 0;
    size = 0;
  }

  -- What follows a successful `protected.pop_lru()`: the entry moves to the probationary cache.
  abbrev pub demote :
      VegaFusionCache l Initializer → ℕ → V → l.Carrier → VegaFusionCache l Initializer
  demote c key popped_value rest = record c {
    protected_cache = rest;
    probationary_cache = l.put key popped_value c.probationary_cache;
    protected_memory = fetch_sub c.protected_memory (size_of popped_value);
    probationary_memory = fetch_add c.probationary_memory (size_of popped_value);
  }

  unfoldable pub pop_protected_lru :
      VegaFusionCache l Initializer → Outcome (VegaFusionCache l Initializer)
  pop_protected_lru c = elim (l.pop_lru c.protected_cache) [
    | none ↦ panic
    | some (key, popped_value, rest) ↦ done (demote c key popped_value rest)
  ]

  unfoldable pub pop_probationary_lru :
      VegaFusionCache l Initializer → Outcome (VegaFusionCache l Initializer)
  pop_probationary_lru c = elim (l.pop_lru c.probationary_cache) [
    | none ↦ panic
    | some (key, popped_value, rest) ↦ done (record c {
      probationary_cache = rest;
      probationary_memory = fetch_sub c.probationary_memory (size_of popped_value);
    })
  ]

  -- A loop of `balance` under its `if let Some(limit)`. Each round pops one entry, so the number
  -- of entries is fuel enough.
  unfoldable pub shrink_protected :
      Option ℕ
      → (VegaFusionCache l Initializer → ℕ)
      → VegaFusionCache l Initializer
      → Outcome (VegaFusionCache l Initializer)
  shrink_protected none measured c = done c
  shrink_protected (some limit) measured c =
      while (λ s. over (l.len s.protected_cache) (measured s) limit) pop_protected_lru
        (suc (l.len c.protected_cache)) c

  unfoldable pub shrink_probationary :
      Option ℕ
      → (VegaFusionCache l Initializer → ℕ)
      → VegaFusionCache l Initializer
      → Outcome (VegaFusionCache l Initializer)
  shrink_probationary none measured c = done c
  shrink_probationary (some limit) measured c =
      while (λ s. over (l.len s.probationary_cache) (measured s) limit) pop_probationary_lru
        (suc (l.len c.probationary_cache)) c

  abbrev pub store_size : VegaFusionCache l Initializer → VegaFusionCache l Initializer
  store_size c = record c { size = l.len c.protected_cache + l.len c.probationary_cache }

  unfoldable pub balance : VegaFusionCache l Initializer → Outcome (VegaFusionCache l Initializer)
  balance c = do
    c₁ ← shrink_protected (protected_limit c.capacity) (λ s. l.len s.protected_cache) c
    c₂ ← shrink_protected (protected_limit c.memory_limit) (λ s. s.protected_memory) c₁
    c₃ ← shrink_probationary (probationary_limit c.capacity) (λ s. l.len s.probationary_cache) c₂
    c₄ ← shrink_probationary (probationary_limit c.memory_limit) (λ s. s.probationary_memory) c₃
    done (store_size c₄)

  -- `get`, once the entry is popped off the probationary cache.
  abbrev pub promote :
      ℕ → V → l.Carrier → ℕ → VegaFusionCache l Initializer → VegaFusionCache l Initializer
  promote key value rest value_memory c = record c {
    protected_cache = l.put key value c.protected_cache;
    probationary_cache = rest;
    protected_memory = fetch_add c.protected_memory value_memory;
    probationary_memory = fetch_sub c.probationary_memory value_memory;
  }

  unfoldable pub get :
      ℕ → VegaFusionCache l Initializer → Outcome (Option V × VegaFusionCache l Initializer)
  get key c =
      if l.contains key c.protected_cache
      then done (
        (l.get key c.protected_cache).0,
        record c { protected_cache = (l.get key c.protected_cache).1 },
      )
      else if l.contains key c.probationary_cache
      then elim (l.pop key c.probationary_cache).0 [
        | none ↦ panic
        | some value ↦
            balance (promote key value (l.pop key c.probationary_cache).1 (size_of value) c)
            >>= λ c'. done (some value, c')
      ]
      else done (none, c)

  unfoldable pub set_value :
      ℕ → V → VegaFusionCache l Initializer → Outcome (VegaFusionCache l Initializer)
  set_value key cache_value c =
      if l.contains key c.protected_cache
      then done (record c { protected_cache = l.put key cache_value c.protected_cache })
      else if l.contains key c.probationary_cache
      then elim (l.pop key c.probationary_cache).0 [
        | none ↦ panic
        | some popped ↦
            balance (promote key popped (l.pop key c.probationary_cache).1 (size_of cache_value) c)
      ]
      else balance (record c {
        probationary_cache = l.put key cache_value c.probationary_cache;
        probationary_memory = fetch_add c.probationary_memory (size_of cache_value);
      })

  -- The removed initializer is returned to the caller, which drops it.
  unfoldable pub remove_initializer :
      ℕ → VegaFusionCache l Initializer → VegaFusionCache l Initializer
  remove_initializer key c = record c { initializers = erase key c.initializers }
