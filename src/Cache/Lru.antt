-- ===== src/Cache/Lru.antt =====
-- `lru::LruCache<u64, V>`, which cache.rs takes from the crate `lru`: an interface with the
-- documented behaviour of the methods that cache.rs calls, as laws over the list of the entries,
-- the most recently used one first.
use vegafusion.Prelude.{ℕ, Bool, Option, some, List, [], ◌∷◌, ◌++◌, ◌≡◌, is_some, length, nat_key}
use vegafusion.Prelude.Assoc.{lookup, remove}

pub record LruCache (V : Type 0) : Type 1 where
  pub Carrier : Type 0
  pub entries : Carrier → List (ℕ × V)
  -- `LruCache::unbounded()`
  pub unbounded : Carrier
  pub unbounded_law : entries unbounded ≡ []
  -- `clear`: no entry is left.
  pub clear : Carrier → Carrier
  pub clear_law : (c : Carrier) → entries (clear c) ≡ []
  pub len : Carrier → ℕ
  pub len_law : (c : Carrier) → len c ≡ length (entries c)
  -- `contains` does not touch the order.
  pub contains : ℕ → Carrier → Bool
  pub contains_law : (k : ℕ) (c : Carrier) → contains k c ≡ is_some (lookup k (entries c))
  -- `get` returns the value of the key and makes the entry the most recent one.
  pub get : ℕ → Carrier → Option V × Carrier
  pub get_value : (k : ℕ) (c : Carrier) → (get k c).0 ≡ lookup k (entries c)
  pub get_entries :
      (k : ℕ) (c : Carrier) (v : V)
      → lookup k (entries c) ≡ some v
      → entries (get k c).1 ≡ (k, v) ∷ remove k (entries c)
  -- `put` stores a value as the most recent entry, in the place of one with the same key.
  pub put : ℕ → V → Carrier → Carrier
  pub put_entries :
      (k : ℕ) (v : V) (c : Carrier) → entries (put k v c) ≡ (k, v) ∷ remove k (entries c)
  -- `pop` takes the entry of a key out.
  pub pop : ℕ → Carrier → Option V × Carrier
  pub pop_value : (k : ℕ) (c : Carrier) → (pop k c).0 ≡ lookup k (entries c)
  pub pop_entries : (k : ℕ) (c : Carrier) → entries (pop k c).1 ≡ remove k (entries c)
  -- `pop_lru` takes the least recently used entry out.
  pub pop_lru : Carrier → Option (ℕ × V × Carrier)
  pub pop_lru_last :
      (c : Carrier) (xs : List (ℕ × V)) (k : ℕ) (v : V)
      → entries c ≡ xs ++ (k, v) ∷ []
      → (rest : Carrier) × (pop_lru c ≡ some (k, v, rest)) × (entries rest ≡ xs)
