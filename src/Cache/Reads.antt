-- ===== src/Cache/Reads.antt =====
-- `VegaFusionCache::get`: what a read returns, and what it does to the order of the entries.
use vegafusion.Cache.Balance.{Balanced, balance-Balanced}
use vegafusion.Cache.Shrink.{Limited}
use vegafusion.Cache.Lru.{LruCache}
use vegafusion.Cache.Methods.{get, protected_limit, probationary_limit}
use vegafusion.Cache.Promote.{
  touched, touched-Distinct, lookup_left, lookup_right, touched_left, promoted, stored-promoted,
  promoted-IsCounted,
}
use vegafusion.Cache.Recency.{memory, memory-remove, length-remove, stored, Drifted}
use vegafusion.Cache.Rounds.{protected_len, probationary_len}
use vegafusion.Cache.State.{VegaFusionCache, Keeps}
use vegafusion.Prelude.Assoc.{lookup, remove, Distinct, lookup-append}
use vegafusion.Prelude.Outcome.{done}
use vegafusion.Prelude.{
  ℕ, true, false, List, [], ◌∷◌, ◌++◌, ◌≡◌, refl, none, some, is_some, nat_key, or_else,
  Option-cases, inl, inr, sym, ap, subst, ◌∙◌, Begins, Begins-head, append-nil, length, Option, ◌<◌,
  arith,
}

module _ {V : Type 0} (l : LruCache V) (key : ℕ) (c : l.Carrier) where
  pub contains_some : (v : V) → lookup key (l.entries c) ≡ some v → l.contains key c ≡ true
  contains_some v h = l.contains_law key c ∙ ap is_some h

  pub contains_none : lookup key (l.entries c) ≡ none → l.contains key c ≡ false
  contains_none h = l.contains_law key c ∙ ap is_some h

-- The limits of the capacity and of the memory that a cache was made with, on both segments.
pub record IsBounded {V : Type 0} (l : LruCache V) {Initializer : Type 0}
    (c : VegaFusionCache l Initializer) : Type 0 where
  pub protected_capacity :
      Limited (protected_limit c.capacity) (protected_len l c) (protected_len l c)
  pub protected_bytes :
      Limited (protected_limit c.memory_limit) (protected_len l c) c.protected_memory
  pub probationary_capacity :
      Limited (probationary_limit c.capacity) (probationary_len l c) (probationary_len l c)
  pub probationary_bytes :
      Limited (probationary_limit c.memory_limit) (probationary_len l c) c.probationary_memory

module _ {V : Type 0} (l : LruCache V) {Initializer : Type 0} (size_of : V → ℕ) (dp dq : ℕ) where
  pub Balanced-IsBounded :
      (c s : VegaFusionCache l Initializer) → Balanced l size_of dp dq c s → IsBounded l s
  Balanced-IsBounded c s b = record {
    protected_capacity = rw b.capacity b.protected_capacity;
    protected_bytes = rw b.memory_limit b.protected_bytes;
    probationary_capacity = rw b.capacity b.probationary_capacity;
    probationary_bytes = rw b.memory_limit b.probationary_bytes;
  }

  -- An entry that was found stands first in the protected segment of `s`; where none was found,
  -- nothing has changed.
  abbrev pub IsRecent :
      ℕ → Option V → VegaFusionCache l Initializer → VegaFusionCache l Initializer → Type 0
  IsRecent key none c s = s ≡ c
  IsRecent key (some w) c s =
      (rest : List (ℕ × V)) × (l.entries s.protected_cache ≡ (key, w) ∷ rest)

  -- An entry that is promoted is still there after `balance`, and first.
  pub promoted_recent :
      (key : ℕ) (w : V) (c : VegaFusionCache l Initializer) (m : ℕ)
      (s : VegaFusionCache l Initializer)
      → Balanced l size_of dp dq (promoted l size_of key w c m) s
      → (rest : List (ℕ × V)) × (l.entries s.protected_cache ≡ (key, w) ∷ rest)
  promoted_recent key w c m s b =
      let put = l.put_entries key w c.protected_cache in
      let front : Begins (l.entries s.protected_cache)
          ((key, w) ∷ remove key (l.entries c.protected_cache)) =
        subst (Begins (l.entries s.protected_cache)) put b.front in
      let kept : 0 < length (l.entries s.protected_cache) = b.kept (rw put (omega arith)) in
      let (rest, first, _) =
        Begins-head (key, w) (l.entries s.protected_cache)
          (remove key (l.entries c.protected_cache)) front kept in
      (rest, first)

  -- What a read of `key` in `c` that leaves `s` behind may do.
  pub record Read (key : ℕ) (c s : VegaFusionCache l Initializer) : Type 0 where
    pub drifted : Drifted l size_of dp dq s
    pub recent : IsRecent key (lookup key (stored l c)) c s
    pub begins : Begins (stored l s) (touched key (stored l c))
    pub bounded : IsBounded l c → IsBounded l s
    pub keeps : Keeps c s

  module _ (key : ℕ) (c : VegaFusionCache l Initializer) (v : Drifted l size_of dp dq c) where
    abbrev ps : List (ℕ × V)
    ps = l.entries c.protected_cache

    abbrev qs : List (ℕ × V)
    qs = l.entries c.probationary_cache

    abbrev Reads : Type 0
    Reads =
        (s : VegaFusionCache l Initializer) × (get l size_of key c
          ≡ done (lookup key (stored l c), s))
        × Read key c s

    -- A hit among the protected entries.
    get_protected : (w : V) → lookup key ps ≡ some w → Reads
    unfolding get stored memory
    get_protected w h =
        let has : l.contains key c.protected_cache ≡ true =
          l.contains_law key c.protected_cache ∙ ap is_some h in
        let order : l.entries (l.get key c.protected_cache).1 ≡ (key, w) ∷ remove key ps =
          l.get_entries key c.protected_cache w h in
        let same : length (l.entries (l.get key c.protected_cache).1) ≡ length ps =
          ap length order ∙ sym (length-remove key ps w h) in
        (
          record c { protected_cache = (l.get key c.protected_cache).1 },
          rw has (
              ap (λ o. done (o, record c { protected_cache = (l.get key c.protected_cache).1 }))
                (l.get_value key c.protected_cache ∙ h ∙ sym (lookup_left key ps qs w h))),
          record {
            drifted = record {
              counted = record {
                distinct = rw order (
                    subst Distinct (touched_left key ps qs w h)
                      (touched-Distinct key (ps ++ qs) v.counted.distinct));
                protected_counted =
                    rw (order, ← memory-remove size_of key ps w h) v.counted.protected_counted;
                probationary_counted = v.counted.probationary_counted;
              };
              sized = rw same v.sized;
            };
            recent =
                subst
                  (λ o.
                    IsRecent key o c
                      (record c { protected_cache = (l.get key c.protected_cache).1 }))
                  (sym (lookup_left key ps qs w h)) (remove key ps, order);
            begins = ([], rw order (touched_left key ps qs w h ∙ sym (append-nil _)));
            bounded = λ b. record {
              protected_capacity = rw same b.protected_capacity;
              protected_bytes = rw same b.protected_bytes;
              probationary_capacity = b.probationary_capacity;
              probationary_bytes = b.probationary_bytes;
            };
            keeps = record { capacity = refl; memory_limit = refl; initializers = refl };
          },
        )

    -- A hit among the probationary entries.
    get_probationary : (w : V) → lookup key ps ≡ none → lookup key qs ≡ some w → Reads
    unfolding get stored
    get_probationary w h k =
        let (s, ran, b) =
          balance-Balanced l size_of dp dq (promoted l size_of key w c (size_of w)) (
            promoted-IsCounted l size_of key w c (size_of w) dp dq dp dq h k refl refl v.counted) in
        (
          s,
          rw
              (
                contains_none l key c.protected_cache h,
                contains_some l key c.probationary_cache w k,
                l.pop_value key c.probationary_cache ∙ k,
                ran,
              )
              (ap (λ o. done (o, s)) (sym (lookup_right key ps qs w h k))),
          record {
            drifted = b.valid;
            recent =
                subst (λ o. IsRecent key o c s) (sym (lookup_right key ps qs w h k))
                  (promoted_recent key w c (size_of w) s b);
            begins =
                subst (Begins (stored l s)) (stored-promoted l size_of key w c (size_of w) h k)
                  b.begins;
            bounded = λ _. Balanced-IsBounded _ s b;
            keeps = record {
              capacity = b.capacity;
              memory_limit = b.memory_limit;
              initializers = b.initializers;
            };
          },
        )

    get_missing : lookup key ps ≡ none → lookup key qs ≡ none → Reads
    unfolding get stored touched
    get_missing h k =
        let missing : lookup key (ps ++ qs) ≡ none =
          lookup-append key ps qs ∙ ap (λ o. or_else o (lookup key qs)) h ∙ k in
        (
          c,
          rw (contains_none l key c.protected_cache h, contains_none l key c.probationary_cache k)
              (ap (λ o. done (o, c)) (sym missing)),
          record {
            drifted = v;
            recent = subst (λ o. IsRecent key o c c) (sym missing) refl;
            begins = ([], rw (missing, touched) (sym (append-nil _)));
            bounded = λ b. b;
            keeps = record { capacity = refl; memory_limit = refl; initializers = refl };
          },
        )

    -- In a cache whose state is valid but for a drift of the memory counters, a read ends without a
    -- panic and returns the value that is stored under the key. An entry that was found stands first
    -- in the protected segment after; where there is none, nothing has changed. What is stored after
    -- is a first part of what was stored, in the order of eviction with the entry that was read moved
    -- to the front. The invariant, the drift and the limits are kept.
    pub get-Read : Reads
    get-Read = elim (Option-cases (lookup key ps)) [
      | inr (w, h) ↦ get_protected w h
      | inl h ↦ elim (Option-cases (lookup key qs)) [
        | inr (w, k) ↦ get_probationary w h k
        | inl k ↦ get_missing h k
      ]
    ]
