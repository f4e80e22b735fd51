-- ===== src/Cache/Flight/Reached.antt =====
-- The states that a run of the callers can come to.
use vegafusion.Cache.Flight.Safety.{GoodCaller, IsSafe, store-IsSafe, some_injective}
use vegafusion.Cache.Flight.Steps.{
  GoodEnding, step-IsSafe, resolve-IsSafe, abandon-IsSafe, start-IsSafe,
}
use vegafusion.Cache.Flight.System.{
  run, run-none, returned, System, Event, call, advance, outcome, cancel, clear, fire, initial,
}
use vegafusion.Cache.Store.{ValueStore, IsEmpty}
use vegafusion.Prelude.Fallible.{ok}
use vegafusion.Prelude.{ℕ, List, [], ◌∷◌, ◌≡◌, refl, subst, Option, none, some, arith, nat_key}

module _ {V E : Type 0} (Good : ℕ → V → Type 0) (c : ValueStore V) where
  -- A future that is waited for comes to a value that is good for the fingerprint.
  abbrev pub Allowed : Event V E → System V E c → Type 0
  Allowed (outcome t ending) s = GoodEnding Good c (s.callers t) ending
  Allowed event s = Unit

  -- From an empty cache, by the events that can happen.
  pub data Reached (store : c.Store) : System V E c → Type 0 where
    begun : Reached store (initial store)
    next :
        {s s' : System V E c} (event : Event V E)
        → Reached store s
        → Allowed event s
        → fire event s ≡ some s'
        → Reached store s'

  -- The same for one event after another.
  unfoldable pub AllAllowed : List (Event V E) → Option (System V E c) → Type 0
  AllAllowed [] o = Unit
  AllAllowed (event ∷ events) none = Unit
  AllAllowed (event ∷ events) (some s) = Allowed event s × AllAllowed events (fire event s)

  -- What a run comes to is reached.
  pub run-Reached :
      (store : c.Store) (events : List (Event V E)) (s s' : System V E c)
      → Reached store s
      → AllAllowed events (some s)
      → run c events (some s) ≡ some s'
      → Reached store s'
  unfolding run AllAllowed
  run-Reached store [] s s' reached allowed ran = subst (Reached store) (some_injective ran) reached
  run-Reached store (event ∷ events) s s' reached allowed ran =
      by_result (fire event s) refl (allowed.1) ran (λ middle. run-Reached store events middle s')
    where
      by_result :
          (o : Option (System V E c))
          → fire event s ≡ o
          → AllAllowed events o
          → run c events o ≡ some s'
          → ((middle : System V E c)
              → Reached store middle
              → AllAllowed events (some middle)
              → run c events (some middle) ≡ some s'
              → Reached store s')
          → Reached store s'
      by_result none e all ran rest = absurd (run-none c events s' ran)
      by_result (some middle) e all ran rest = rest middle (next event reached allowed.0 e) all ran

  fire-IsSafe :
      (event : Event V E) (s s' : System V E c)
      → IsSafe Good c s
      → Allowed event s
      → fire event s ≡ some s'
      → IsSafe Good c s'
  unfolding fire
  fire-IsSafe (call t k) s s' h allowed ran = start-IsSafe Good c (s.callers t) t k s s' h ran
  fire-IsSafe (advance t) s s' h allowed ran =
      step-IsSafe Good c (s.callers t) t s s' h (h.callers t) ran
  fire-IsSafe (outcome t ending) s s' h allowed ran =
      resolve-IsSafe Good c (s.callers t) t ending s s' h (h.callers t) allowed ran
  fire-IsSafe (cancel t) s s' h allowed ran =
      abandon-IsSafe Good c (s.callers t) t s s' h (h.callers t) ran
  fire-IsSafe clear s s' h allowed ran = subst (IsSafe Good c) (some_injective ran) (
      store-IsSafe Good c s h (c.clear s.store) (c.clear_law s.store h.sound).0
        (λ k v got. absurd (no_value k v got)))
    where
      no_value : (k : ℕ) (v : V) → c.value k (c.clear s.store) ≡ some v → ⊥
      no_value k v got = ground (arith, (c.clear_law s.store h.sound).1 k)

  pub Reached-IsSafe :
      (store : c.Store) (s : System V E c) → IsEmpty c store → Reached store s → IsSafe Good c s
  unfolding initial
  Reached-IsSafe store _ h begun = record {
    key = λ _. 0;
    sound = h.0;
    values = λ k v got. absurd (no_value k v got);
    named = tt;
    locks = λ i below. tt;
    callers = λ t. tt;
  }
    where
      no_value : (k : ℕ) (v : V) → c.value k store ≡ some v → ⊥
      no_value k v got = ground (arith, h.1 k)
  Reached-IsSafe store s' h (next {s = s} event before allowed ran) =
      fire-IsSafe event s s' (Reached-IsSafe store s h before) allowed ran

  -- Whatever the order in which callers call, go on, wait, are cancelled and panic, and in which
  -- the cache is cleared: where every future comes only to values that are good for the fingerprint
  -- that its caller asked for, and the cache begins without a value, a caller that has returned a
  -- value for a fingerprint has one that is good for that fingerprint.
  pub returned-Reached :
      (store : c.Store) (s : System V E c) (t k : ℕ) (v : V)
      → IsEmpty c store
      → Reached store s
      → s.callers t ≡ returned k (ok v)
      → Good k v
  returned-Reached store s t k v h reached at_end =
      let safe = Reached-IsSafe store s h reached in
      subst (GoodCaller Good safe.key s.fresh) at_end (safe.callers t)
