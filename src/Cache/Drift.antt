-- ===== src/Cache/Drift.antt =====
-- What a write to a stored key does to the memory counters.
use vegafusion.Cache.Lru.{LruCache}
use vegafusion.Cache.Methods.{set_value}
use vegafusion.Cache.Recency.{stored, IsValid, Drifted}
use vegafusion.Cache.State.{VegaFusionCache}
use vegafusion.Cache.Words.{usize_mod, drift, drift-ne-zero}
use vegafusion.Cache.Writes.{set_value_protected, set_value_probationary}
use vegafusion.Prelude.Assoc.{lookup, lookup-append}
use vegafusion.Prelude.Outcome.{done, done-injective}
use vegafusion.Prelude.{
  ℕ, ◌+◌, ◌%◌, ◌≡◌, ◌≢◌, some, Option-cases, inl, inr, arith, nat_key, or_else, sym, ap, subst, ◌∙◌,
}

module _ {V : Type 0} (l : LruCache V) {Initializer : Type 0} (size_of : V → ℕ) where
  -- Two different drifts of the protected counter cannot both describe it.
  not-IsValid-of_drift :
      (d dq : ℕ) (s : VegaFusionCache l Initializer)
      → d % usize_mod ≢ 0
      → Drifted l size_of d dq s
      → ¬ IsValid l size_of s
  not-IsValid-of_drift d dq s ne v w =
      ne (omega (arith, v.counted.protected_counted, w.counted.protected_counted))

  -- In a valid cache, a write to a key that is stored with a value of another size, as a 64-bit word,
  -- leaves the cache invalid: a memory counter is not the sum of the stored sizes.
  pub set_value-not-IsValid :
      (key : ℕ) (w old : V) (c s : VegaFusionCache l Initializer)
      → IsValid l size_of c
      → lookup key (stored l c) ≡ some old
      → size_of w % usize_mod ≢ size_of old % usize_mod
      → set_value l size_of key w c ≡ done s
      → ¬ IsValid l size_of s
  unfolding stored
  set_value-not-IsValid key w old c s v h ne ran =
      let ps = l.entries c.protected_cache in
      let qs = l.entries c.probationary_cache in
      let found : or_else (lookup key ps) (lookup key qs) ≡ some old =
        sym (lookup-append key ps qs) ∙ h in
      elim (Option-cases (lookup key ps)) [
        | inr (old', p) ↦
            let (t, ran', d, _, _, _) =
              set_value_protected l size_of 0 0 key w c v old
                (p ∙ sym (ap (λ o. or_else o (lookup key qs)) p) ∙ found) in
            subst (λ (s : VegaFusionCache l Initializer). ¬ IsValid l size_of s)
              (done-injective (sym ran' ∙ ran))
              (not-IsValid-of_drift (0 + drift (size_of old) (size_of w)) 0 t
                (λ e. drift-ne-zero (size_of old) (size_of w) (λ f. ne (sym f)) (omega (arith, e)))
                d)
        | inl p ↦
            let (t, ran', d, _, _, _, _, _) =
              set_value_probationary l size_of 0 0 key w c v old p
                (sym (ap (λ o. or_else o (lookup key qs)) p) ∙ found) in
            subst (λ (s : VegaFusionCache l Initializer). ¬ IsValid l size_of s)
              (done-injective (sym ran' ∙ ran))
              (not-IsValid-of_drift (0 + drift (size_of w) (size_of old))
                (0 + drift (size_of old) (size_of w)) t
                (λ e. drift-ne-zero (size_of w) (size_of old) ne (omega (arith, e))) d)
      ]
