-- ===== src/Cache/Writes.antt =====
-- `VegaFusionCache::set_value`, on its three branches.
use vegafusion.Cache.Balance.{balance-Balanced}
use vegafusion.Cache.Lru.{LruCache}
use vegafusion.Cache.Methods.{set_value}
use vegafusion.Cache.Promote.{
  touched, touched_left, touched-Distinct, promoted, stored-promoted, promoted-IsCounted,
}
use vegafusion.Cache.Reads.{
  IsBounded, Balanced-IsBounded, promoted_recent, contains_some, contains_none,
}
use vegafusion.Cache.Recency.{
  memory, memory-remove, length-remove, stored, IsCounted, Drifted, insert-Distinct,
}
use vegafusion.Cache.State.{VegaFusionCache, Keeps}
use vegafusion.Cache.Words.{usize_mod, fetch_add, fetch_add-mod, drift, drift_add, drift_over}
use vegafusion.Prelude.Assoc.{remove-append_left, lookup, remove, remove_absent, Distinct}
use vegafusion.Prelude.Outcome.{done}
use vegafusion.Prelude.{
  ℕ, ◌+◌, ◌%◌, List, ◌∷◌, ◌++◌, ◌≡◌, refl, true, none, some, arith, nat_key, sym, ap, subst, ◌∙◌,
  Begins, Begins-head, length,
}

module _ {V : Type 0} (l : LruCache V) {Initializer : Type 0} (size_of : V → ℕ) (dp dq : ℕ)
    (key : ℕ) (w : V) (c : VegaFusionCache l Initializer) (v : Drifted l size_of dp dq c) where
  abbrev ps : List (ℕ × V)
  ps = l.entries c.protected_cache

  abbrev qs : List (ℕ × V)
  qs = l.entries c.probationary_cache

  -- A write, without a panic, to a key that is not stored, in a cache whose state is valid but for a
  -- drift of the memory counters and whose segments are within their limits. The protected segment
  -- does not change, and the entry is the most recent probationary one after, before a first part of
  -- the probationary entries. The drift stays, and each segment is within its limits.
  pub set_value_fresh :
      IsBounded l c
      → lookup key ps ≡ none
      → lookup key qs ≡ none
      → (s : VegaFusionCache l Initializer) × (set_value l size_of key w c ≡ done s)
        × Drifted l size_of dp dq s
        × Begins (stored l s) (ps ++ (key, w) ∷ qs)
        × IsBounded l s
        × Keeps c s
        × (s.protected_cache ≡ c.protected_cache)
        × (rest : List (ℕ × V)) × (l.entries s.probationary_cache ≡ (key, w) ∷ rest)
        × Begins rest qs
  unfolding set_value stored memory
  set_value_fresh within h k =
      let put : l.entries (l.put key w c.probationary_cache) ≡ (key, w) ∷ qs =
        l.put_entries key w c.probationary_cache ∙ ap (◌∷◌ (key, w)) (remove_absent key qs k) in
      let grown : VegaFusionCache l Initializer = record c {
        probationary_cache = l.put key w c.probationary_cache;
        probationary_memory = fetch_add c.probationary_memory (size_of w);
      } in
      let counted : IsCounted l size_of dp dq grown = record {
        distinct = rw put (insert-Distinct key w ps qs h k v.counted.distinct);
        protected_counted = v.counted.protected_counted;
        probationary_counted = rw put (
            fetch_add-mod c.probationary_memory (size_of w) (memory size_of qs + dq) _
              v.counted.probationary_counted (omega arith));
      } in
      let (s, ran, b) = balance-Balanced l size_of dp dq grown counted in
      let settled = b.settled within.protected_capacity within.protected_bytes in
      let (rest, first, older) =
        Begins-head (key, w) (l.entries s.probationary_cache) qs
          (subst (Begins (l.entries s.probationary_cache)) put settled.front)
          (settled.kept (rw put (omega arith))) in
      (
        s,
        rw (contains_none l key c.protected_cache h, contains_none l key c.probationary_cache k)
            ran,
        b.valid,
        subst (λ es. Begins (stored l s) (ps ++ es)) put b.begins,
        Balanced-IsBounded l size_of dp dq grown s b,
        record {
          capacity = b.capacity;
          memory_limit = b.memory_limit;
          initializers = b.initializers;
        },
        settled.protected,
        rest,
        first,
        older,
      )

  -- A key that is protected: the new value takes the place of the old one, and no counter changes.
  pub set_value_protected :
      (old : V)
      → lookup key ps ≡ some old
      → (s : VegaFusionCache l Initializer) × (set_value l size_of key w c ≡ done s)
        × Drifted l size_of (dp + drift (size_of old) (size_of w)) dq s
        × (stored l s ≡ (key, w) ∷ remove key (stored l c))
        × (IsBounded l c → IsBounded l s)
        × Keeps c s
  unfolding set_value stored memory
  set_value_protected old h =
      let has : l.contains key c.protected_cache ≡ true =
        contains_some l key c.protected_cache old h in
      let order : l.entries (l.put key w c.protected_cache) ≡ (key, w) ∷ remove key ps =
        l.put_entries key w c.protected_cache in
      let same : length (l.entries (l.put key w c.protected_cache)) ≡ length ps =
        ap length order ∙ sym (length-remove key ps old h) in
      let before : c.protected_memory
          ≡ (size_of old + memory size_of (remove key ps) + dp) % usize_mod =
        rw (← memory-remove size_of key ps old h) v.counted.protected_counted in
      (
        record c { protected_cache = l.put key w c.protected_cache },
        rw has,
        record {
          counted = record {
            distinct = rw order (
                subst Distinct (touched_left key ps qs old h)
                  (touched-Distinct key (ps ++ qs) v.counted.distinct));
            protected_counted = rw order (
                drift_over c.protected_memory (size_of old) (size_of w)
                  (memory size_of (remove key ps)) dp before);
            probationary_counted = v.counted.probationary_counted;
          };
          sized = rw same v.sized;
        },
        rw order (ap (◌∷◌ (key, w)) (sym (remove-append_left key ps qs old h))),
        λ b. record {
          protected_capacity = rw same b.protected_capacity;
          protected_bytes = rw same b.protected_bytes;
          probationary_capacity = b.probationary_capacity;
          probationary_bytes = b.probationary_bytes;
        },
        record { capacity = refl; memory_limit = refl; initializers = refl },
      )

  -- A write, without a panic, to a key that is probationary, in a cache whose state is valid but for
  -- a drift of the memory counters. The entry stands first in the protected segment after, with its
  -- old value, so that the new value is lost, and the drift grows by the difference of the two sizes.
  -- What is stored after is a first part of what was stored, in the order of eviction with the entry
  -- moved to the front, and each segment is within its limits.
  pub set_value_probationary :
      (old : V)
      → lookup key ps ≡ none
      → lookup key qs ≡ some old
      → (s : VegaFusionCache l Initializer) × (set_value l size_of key w c ≡ done s)
        × Drifted l size_of
            (dp + drift (size_of w) (size_of old))
            (dq + drift (size_of old) (size_of w))
            s
        × Begins (stored l s) (touched key (stored l c))
        × IsBounded l s
        × Keeps c s
        × (rest : List (ℕ × V)) × (l.entries s.protected_cache ≡ (key, old) ∷ rest)
  unfolding set_value
  set_value_probationary old h k =
      let m = size_of w in
      let n = size_of old in
      let dp' = dp + drift m n in
      let dq' = dq + drift n m in
      let (s, ran, b) = balance-Balanced l size_of dp' dq' (promoted l size_of key old c m) (
        promoted-IsCounted l size_of key old c m dp dq dp' dq' h k (drift_add m n dp)
          (drift_add n m dq) v.counted) in
      let (rest, first) = promoted_recent l size_of dp' dq' key old c m s b in
      (
        s,
        rw
            (
              contains_none l key c.protected_cache h,
              contains_some l key c.probationary_cache old k,
              l.pop_value key c.probationary_cache ∙ k,
            )
            ran,
        b.valid,
        subst (Begins (stored l s)) (stored-promoted l size_of key old c m h k) b.begins,
        Balanced-IsBounded l size_of dp' dq' _ s b,
        record {
          capacity = b.capacity;
          memory_limit = b.memory_limit;
          initializers = b.initializers;
        },
        rest,
        first,
      )
