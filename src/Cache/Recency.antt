-- ===== src/Cache/Recency.antt =====
-- The abstract view of the cache: one list of entries, the protected ones before the probationary
-- ones, each segment with its most recently used entry first.
use vegafusion.Cache.Lru.{LruCache}
use vegafusion.Cache.State.{VegaFusionCache}
use vegafusion.Cache.Words.{usize_mod}
use vegafusion.Prelude.Assoc.{lookup, remove, Distinct, lookup-append, lookup-remove_self}
use vegafusion.Prelude.{
  ℕ, suc, ◌+◌, ◌%◌, List, [], ◌∷◌, ◌++◌, ◌≡◌, refl, none, some, length, arith, nat_key, nat_beq_iff,
}

module _ {V : Type 0} where
  module _ (size_of : V → ℕ) where
    -- The bytes that a list of entries takes.
    unfoldable pub memory : List (ℕ × V) → ℕ
    memory [] = 0
    memory ((k, v) ∷ l) = size_of v + memory l

    pub memory-append : (l m : List (ℕ × V)) → memory (l ++ m) ≡ memory l + memory m
    unfolding memory
    memory-append [] m = omega arith
    memory-append (e ∷ l) m = omega (arith, memory-append l m)

    pub memory-remove :
        (k : ℕ) (l : List (ℕ × V)) (v : V)
        → lookup k l ≡ some v
        → memory l ≡ size_of v + memory (remove k l)
    unfolding memory lookup remove
    memory-remove k [] v h = cc
    memory-remove k ((j, w) ∷ l) v h = ground (arith, memory-remove k l v)

  pub length-remove :
      (k : ℕ) (l : List (ℕ × V)) (v : V)
      → lookup k l ≡ some v
      → length l ≡ suc (length (remove k l))
  unfolding lookup remove
  length-remove k [] v h = cc
  length-remove k ((j, w) ∷ l) v h = ground (arith, length-remove k l v)

  -- To look a key up is to look it up without another one.
  lookup-remove-none :
      (k j : ℕ) (l : List (ℕ × V)) → lookup j l ≡ none → lookup j (remove k l) ≡ none
  unfolding lookup remove
  lookup-remove-none k j [] h = refl
  lookup-remove-none k j ((i, w) ∷ l) h = ground (arith, lookup-remove-none k j l)

  pub remove-Distinct : (k : ℕ) (l : List (ℕ × V)) → Distinct l → Distinct (remove k l)
  unfolding remove
  remove-Distinct k [] d = tt
  remove-Distinct k ((j, w) ∷ l) d =
      ground (arith, remove-Distinct k l d.1, lookup-remove-none k j l d.0)

  pub touch-Distinct :
      (k : ℕ) (v : V) (l : List (ℕ × V)) → Distinct l → Distinct ((k, v) ∷ remove k l)
  touch-Distinct k v l d = (lookup-remove_self k l d, remove-Distinct k l d)

  -- What a list with distinct keys begins with has distinct keys, and says the same where it
  -- says something.
  pub Distinct-left : (l m : List (ℕ × V)) → Distinct (l ++ m) → Distinct l
  unfolding lookup
  Distinct-left [] m d = tt
  Distinct-left ((k, v) ∷ l) m d = ground (arith, Distinct-left l m d.1, lookup-append k l m)

  pub Distinct-right : (l m : List (ℕ × V)) → Distinct (l ++ m) → Distinct m
  Distinct-right [] m d = d
  Distinct-right ((k, v) ∷ l) m d = Distinct-right l m d.1

  -- The key of an entry stands nowhere behind it.
  pub Distinct-last :
      (l m : List (ℕ × V)) (k : ℕ) (v : V) → Distinct (l ++ (k, v) ∷ m) → lookup k m ≡ none
  Distinct-last [] m k v d = d.0
  Distinct-last (e ∷ l) m k v d = Distinct-last l m k v d.1

-- An entry with a new key fits in anywhere.
pub insert-Distinct :
    {V : Type 0} (k : ℕ) (v : V) (l m : List (ℕ × V))
    → lookup k l ≡ none
    → lookup k m ≡ none
    → Distinct (l ++ m)
    → Distinct (l ++ (k, v) ∷ m)
unfolding lookup
insert-Distinct k v [] m h e d = (e, d)
insert-Distinct k v ((j, w) ∷ l) m h e d = ground (
  arith,
  insert-Distinct k v l m,
  lookup-append j l m,
  lookup-append j l ((k, v) ∷ m),
  nat_beq_iff j k,
  nat_beq_iff k j,
)

module _ {V : Type 0} (l : LruCache V) {Initializer : Type 0} where
  -- All entries, in the order in which they would be evicted, the last first.
  unfoldable pub stored : VegaFusionCache l Initializer → List (ℕ × V)
  stored c = l.entries c.protected_cache ++ l.entries c.probationary_cache

  -- The keys are distinct across both segments, and each counter is the sum of the sizes in its
  -- segment, as far as the machine word goes, and off by the given drift.
  pub record IsCounted (size_of : V → ℕ) (dp dq : ℕ) (c : VegaFusionCache l Initializer)
      : Type 0 where
    pub distinct : Distinct (l.entries c.protected_cache ++ l.entries c.probationary_cache)
    pub protected_counted :
        c.protected_memory ≡ (memory size_of (l.entries c.protected_cache) + dp) % usize_mod
    pub probationary_counted :
        c.probationary_memory ≡ (memory size_of (l.entries c.probationary_cache) + dq) % usize_mod

  -- Between two calls `size` is the number of entries, too.
  pub record Drifted (size_of : V → ℕ) (dp dq : ℕ) (c : VegaFusionCache l Initializer)
      : Type 0 where
    pub counted : IsCounted size_of dp dq c
    pub sized :
        c.size ≡ length (l.entries c.protected_cache) + length (l.entries c.probationary_cache)

  -- The invariant of a cache whose counters are right.
  abbrev pub IsValid : (V → ℕ) → VegaFusionCache l Initializer → Type 0
  IsValid size_of c = Drifted size_of 0 0 c
