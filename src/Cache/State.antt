-- ===== src/Cache/State.antt =====
-- `CachedValue`, `NodeValue` and the state of `VegaFusionCache`.
use vegafusion.Cache.Lru.{LruCache}
use vegafusion.Prelude.{◌≡◌, ℕ, ◌+◌, Option, List, [], ◌∷◌}

-- `TaskValue` and its `size_of` rest on Arrow tables: a type and a function of the model's caller.
module _ (TaskValue : Type 0) where
  abbrev pub NodeValue : Type 0
  NodeValue = TaskValue × List TaskValue

  pub record CachedValue : Type 0 where
    pub value : NodeValue
    pub calculation_millis : ℕ

module _ {TaskValue : Type 0} (task_size : TaskValue → ℕ) where
  unfoldable pub sum_sizes : List TaskValue → ℕ
  sum_sizes [] = 0
  sum_sizes (v ∷ vs) = task_size v + sum_sizes vs

  -- `CachedValue::size_of`
  unfoldable pub size_of : CachedValue TaskValue → ℕ
  size_of c = task_size c.value.0 + sum_sizes c.value.1

-- `VegaFusionCache`, less `protected_fraction`, which is always 0.5.
pub record VegaFusionCache {V : Type 0} (l : LruCache V) (Initializer : Type 0) : Type 0 where
  pub protected_cache : l.Carrier
  pub probationary_cache : l.Carrier
  pub initializers : List (ℕ × Initializer)
  pub size : ℕ
  pub protected_memory : ℕ
  pub probationary_memory : ℕ
  pub capacity : Option ℕ
  pub memory_limit : Option ℕ

-- What the methods of the segments leave alone.
pub record Keeps {V : Type 0} {l : LruCache V} {Initializer : Type 0}
    (c s : VegaFusionCache l Initializer) : Type 0 where
  pub capacity : s.capacity ≡ c.capacity
  pub memory_limit : s.memory_limit ≡ c.memory_limit
  pub initializers : s.initializers ≡ c.initializers
