-- ===== src/Cache/Runs.antt =====
-- Sequences of calls of a cache, whatever the keys and the values: the calls are atomic, since each
-- holds the locks of both segments.
use vegafusion.Cache.Shrink.{Limited}
use vegafusion.Cache.Lru.{LruCache}
use vegafusion.Cache.Methods.{new, clear, get, set_value, protected_limit, probationary_limit}
use vegafusion.Cache.Reads.{IsBounded, get-Read}
use vegafusion.Cache.Recency.{memory, stored, IsValid, Drifted}
use vegafusion.Cache.State.{VegaFusionCache, Keeps}
use vegafusion.Cache.Words.{protected_part, protected_part-half, drift}
use vegafusion.Cache.Writes.{set_value_fresh, set_value_protected, set_value_probationary}
use vegafusion.Prelude.Assoc.{lookup, Distinct}
use vegafusion.Prelude.Outcome.{Outcome, done, done-injective, ◌>>=◌}
use vegafusion.Prelude.{
  ℕ, ◌+◌, ◌-◌, ◌^◌, ◌≤◌, ◌<◌, List, [], ◌∷◌, ◌≡◌, ◌⊎◌, refl, Option, none, some, Option-cases, inl,
  inr, arith, nat_key, sym, subst, ◌∙◌, length, length-append,
}

-- A call of a method that locks the segments.
pub data Call (V : Type 0) : Type 0 where
  get_call : ℕ → Call V
  set_call : ℕ → V → Call V
  clear_call : Call V

Limited-zero : (o : Option ℕ) (n : ℕ) → Limited o 0 n
Limited-zero none n = tt
Limited-zero (some m) n = inl (omega arith)

within_protected :
    (n : ℕ) (o : Option ℕ) (len : ℕ)
    → o ≡ some n
    → Limited (protected_limit o) len len
    → (len ≤ 1) ⊎ (len ≤ protected_part n)
within_protected n o len e h = subst (λ o. Limited (protected_limit o) len len) e h

within_probationary :
    (n : ℕ) (o : Option ℕ) (len : ℕ)
    → o ≡ some n
    → Limited (probationary_limit o) len len
    → (len ≤ 1) ⊎ (len ≤ n - protected_part n)
within_probationary n o len e h = subst (λ o. Limited (probationary_limit o) len len) e h

module _ {V : Type 0} (l : LruCache V) {Initializer : Type 0} (size_of : V → ℕ) where
  unfoldable pub call :
      Call V → VegaFusionCache l Initializer → Outcome (VegaFusionCache l Initializer)
  call (get_call key) c = get l size_of key c >>= λ r. done r.1
  call (set_call key value) c = set_value l size_of key value c
  call clear_call c = done (clear l size_of c)

  unfoldable pub run :
      List (Call V) → VegaFusionCache l Initializer → Outcome (VegaFusionCache l Initializer)
  run [] c = done c
  run (i ∷ is) c = call i c >>= run is

  -- What holds between any two calls: the keys are distinct, the number of entries and both limits
  -- are right, and the counters are off by some amounts.
  pub record IsSound (c : VegaFusionCache l Initializer) : Type 0 where
    pub protected_drift : ℕ
    pub probationary_drift : ℕ
    pub drifted : Drifted l size_of protected_drift probationary_drift c
    pub bounded : IsBounded l c

  pub clear-IsValid :
      (c : VegaFusionCache l Initializer)
      → IsValid l size_of (clear l size_of c)
        × (stored l (clear l size_of c) ≡ [])
        × IsBounded l (clear l size_of c)
  unfolding clear stored memory
  clear-IsValid c =
      let p = l.clear_law c.protected_cache in
      let q = l.clear_law c.probationary_cache in
      (
        record {
          counted = record {
            distinct = rw (p, q) tt;
            protected_counted = rw p;
            probationary_counted = rw q;
          };
          sized = rw (p, q);
        },
        rw (p, q),
        record {
          protected_capacity = rw p (Limited-zero (protected_limit c.capacity) 0);
          protected_bytes = rw p (Limited-zero (protected_limit c.memory_limit) 0);
          probationary_capacity = rw q (Limited-zero (probationary_limit c.capacity) 0);
          probationary_bytes = rw q (Limited-zero (probationary_limit c.memory_limit) 0);
        },
      )

  pub new-IsValid :
      (capacity size_limit : Option ℕ)
      → let c : VegaFusionCache l Initializer = new l size_of capacity size_limit in
        IsValid l size_of c × (stored l c ≡ []) × IsBounded l c
  unfolding new stored memory
  new-IsValid capacity size_limit =
      let p = l.unbounded_law in
      (
        record {
          counted = record {
            distinct = rw p tt;
            protected_counted = rw p;
            probationary_counted = rw p;
          };
          sized = rw p;
        },
        rw p,
        record {
          protected_capacity = rw p (Limited-zero (protected_limit capacity) 0);
          protected_bytes = rw p (Limited-zero (protected_limit size_limit) 0);
          probationary_capacity = rw p (Limited-zero (probationary_limit capacity) 0);
          probationary_bytes = rw p (Limited-zero (probationary_limit size_limit) 0);
        },
      )

  -- Any call, in any state that a sequence of calls can reach, ends without a panic.
  pub call-IsSound :
      (i : Call V) (c : VegaFusionCache l Initializer)
      → IsSound c
      → (s : VegaFusionCache l Initializer) × (call i c ≡ done s) × IsSound s × Keeps c s
  unfolding call
  call-IsSound (get_call key) c h =
      let (s, ran, r) = get-Read l size_of h.protected_drift h.probationary_drift key c h.drifted in
      (
        s,
        rw ran,
        record {
          protected_drift = h.protected_drift;
          probationary_drift = h.probationary_drift;
          drifted = r.drifted;
          bounded = r.bounded h.bounded;
        },
        r.keeps,
      )
  call-IsSound (set_call key w) c h =
      let dp = h.protected_drift in
      let dq = h.probationary_drift in
      elim (Option-cases (lookup key (l.entries c.protected_cache))) [
        | inr (old, p) ↦
            let (s, ran, v, _, b, k) =
              set_value_protected l size_of dp dq key w c h.drifted old p in
            (
              s,
              ran,
              record {
                protected_drift = dp + drift (size_of old) (size_of w);
                probationary_drift = dq;
                drifted = v;
                bounded = b h.bounded;
              },
              k,
            )
        | inl p ↦ elim (Option-cases (lookup key (l.entries c.probationary_cache))) [
          | inr (old, q) ↦
              let (s, ran, v, _, b, k, _, _) =
                set_value_probationary l size_of dp dq key w c h.drifted old p q in
              (
                s,
                ran,
                record {
                  protected_drift = dp + drift (size_of w) (size_of old);
                  probationary_drift = dq + drift (size_of old) (size_of w);
                  drifted = v;
                  bounded = b;
                },
                k,
              )
          | inl q ↦
              let (s, ran, v, _, b, k, _, _, _, _) =
                set_value_fresh l size_of dp dq key w c h.drifted h.bounded p q in
              (
                s,
                ran,
                record { protected_drift = dp; probationary_drift = dq; drifted = v; bounded = b },
                k,
              )
        ]
      ]
  call-IsSound clear_call c h =
      let (v, _, b) = clear-IsValid c in
      (
        clear l size_of c,
        refl,
        record { protected_drift = 0; probationary_drift = 0; drifted = v; bounded = b },
        unfold clear in record { capacity = refl; memory_limit = refl; initializers = refl },
      )

  run-from :
      (is : List (Call V)) (c : VegaFusionCache l Initializer)
      → IsSound c
      → (s : VegaFusionCache l Initializer) × (run is c ≡ done s)
        × IsSound s
        × (s.capacity ≡ c.capacity)
        × (s.memory_limit ≡ c.memory_limit)
  unfolding run
  run-from [] c h = (c, refl, h, refl, refl)
  run-from (i ∷ is) c h =
      let (t, ran, h', k) = call-IsSound i c h in
      let (s, rest, h'', e, f) = run-from is t h' in
      (s, rw ran rest, h'', e ∙ k.capacity, f ∙ k.memory_limit)

  -- Every sequence of calls on a new cache ends without a panic. In the state that it leaves, no
  -- key is stored twice, `size` is the number of stored entries, and each segment is within its
  -- share of the capacity and, by its own counter, of the memory limit, or holds one entry at most.
  pub run-IsSound :
      (is : List (Call V)) (capacity size_limit : Option ℕ)
      → (s : VegaFusionCache l Initializer) × (run is (new l size_of capacity size_limit) ≡ done s)
        × Distinct (stored l s)
        × (s.size ≡ length (stored l s))
        × IsBounded l s
        × (s.capacity ≡ capacity)
        × (s.memory_limit ≡ size_limit)
  unfolding stored new
  run-IsSound is capacity size_limit =
      let (v, _, b) = new-IsValid capacity size_limit in
      let (s, ran, h, e, f) =
        run-from is (new l size_of capacity size_limit)
          (record { protected_drift = 0; probationary_drift = 0; drifted = v; bounded = b }) in
      (
        s,
        ran,
        h.drifted.counted.distinct,
        h.drifted.sized
            ∙ sym (length-append (l.entries s.protected_cache) (l.entries s.probationary_cache)),
        h.bounded,
        e,
        f,
      )

  -- With a capacity from 2 on and below 2 ^ 53, no sequence of calls makes a new cache hold more
  -- entries than that.
  pub run-size-le :
      (is : List (Call V)) (n : ℕ) (size_limit : Option ℕ) (s : VegaFusionCache l Initializer)
      → 2 ≤ n
      → n < 2 ^ 53
      → run is (new l size_of (some n) size_limit) ≡ done s
      → (s.size ≤ n) × (length (stored l s) ≤ n)
  unfolding stored
  run-size-le is n size_limit s two small ran =
      let (s', ran', _, sized, b, e, _) = run-IsSound is (some n) size_limit in
      let here : s' ≡ s = done-injective (sym ran' ∙ ran) in
      let p = within_protected n s'.capacity _ e b.protected_capacity in
      let q = within_probationary n s'.capacity _ e b.probationary_capacity in
      let whole : length (stored l s') ≤ n = omega (
        arith,
        p,
        q,
        protected_part-half n small,
        length-append (l.entries s'.protected_cache) (l.entries s'.probationary_cache),
      ) in
      subst (λ (t : VegaFusionCache l Initializer). (t.size ≤ n) × (length (stored l t) ≤ n)) here
        (omega (arith, sized, whole), whole)
