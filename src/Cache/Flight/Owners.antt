-- ===== src/Cache/Flight/Owners.antt =====
-- Who holds the locks of the initializers.
use vegafusion.Cache.Flight.Heap.{put_at, put_at_elim, put_at_self}
use vegafusion.Cache.Flight.Safety.{some_injective}
use vegafusion.Cache.Flight.System.{
  NodeResult, Caller, idle, looking, missed, waiting, spawning, computing, storing, removing,
  finishing, returned, crashed, Lock, held, free, System, after_get, after_lookup, after_read,
  after_set, after_drop, step,
}
use vegafusion.Cache.Store.{ValueStore}
use vegafusion.Prelude.Assoc.{lookup}
use vegafusion.Prelude.Fallible.{ok}
use vegafusion.Prelude.Outcome.{Outcome, done, panic, out_of_fuel}
use vegafusion.Prelude.{
  ℕ, ◌≡◌, ◌≢◌, refl, sym, ap, subst, ◌∙◌, inl, inr, ◌⊎◌, Option, none, some, nat_key,
}

module _ {V E : Type 0} where
  -- The caller holds the lock of the initializer.
  abbrev pub Owns : ℕ → Caller V E → Type 0
  Owns i (computing _ j) = i ≡ j
  Owns i (storing _ j _) = i ≡ j
  Owns i (removing _ j _ _) = i ≡ j
  Owns i (finishing _ j _ _) = i ≡ j
  Owns i _ = ⊥

  -- Steps that a caller has still to make by itself, at most.
  unfoldable pub rank : Caller V E → ℕ
  rank (looking _) = 8
  rank (missed _) = 7
  rank (waiting _ _) = 6
  rank (spawning _) = 5
  rank (computing _ _) = 4
  rank (storing _ _ _) = 3
  rank (removing _ _ _ _) = 2
  rank (finishing _ _ _ _) = 1
  rank _ = 0

module _ {V E : Type 0} (c : ValueStore V) where
  -- Every lock that is held has a holder.
  abbrev pub IsOwned : System V E c → Type 0
  IsOwned s = (i : ℕ) → s.locks i ≡ held → (t : ℕ) × Owns i (s.callers t)

  -- A caller that gives up no lock.
  pub keep-IsOwned :
      (s s' : System V E c) (t : ℕ) (a b : Caller V E)
      → IsOwned s
      → s.callers t ≡ a
      → s'.locks ≡ s.locks
      → s'.callers ≡ put_at t b s.callers
      → ((i : ℕ) → Owns i a → Owns i b)
      → IsOwned s'
  keep-IsOwned s s' t a b h at_a same_locks same_callers kept i e =
      let (u, owns) = h i (ap (λ f. f i) (sym same_locks) ∙ e) in
      (
        u,
        subst (λ f. Owns i (f u)) (sym same_callers)
            (put_at_elim (λ j x. Owns i (s.callers j) → Owns i x) t b s.callers
              (λ o. kept i (subst (Owns i) at_a o)) (λ _ _ o. o) u owns),
      )

  -- A caller that gives up the lock that it owns.
  pub release-IsOwned :
      (s s' : System V E c) (t i : ℕ) (a b : Caller V E) (r : Option (NodeResult V E))
      → IsOwned s
      → s.callers t ≡ a
      → s'.locks ≡ put_at i (free r) s.locks
      → s'.callers ≡ put_at t b s.callers
      → ((j : ℕ) → Owns j a → j ≡ i)
      → IsOwned s'
  release-IsOwned s s' t i a b r h at_a same_locks same_callers only j e =
      let (other, e') = elsewhere (ap (λ f. f j) (sym same_locks) ∙ e) in
      let (u, owns) = h j e' in
      (
        u,
        subst (λ f. Owns j (f u)) (sym same_callers)
            (put_at_elim (λ v x. Owns j (s.callers v) → Owns j x) t b s.callers
              (λ o. absurd (other (sym (only j (subst (Owns j) at_a o))))) (λ _ _ o. o) u owns),
      )
    where
      elsewhere : put_at i (free r) s.locks j ≡ held → (i ≢ j) × (s.locks j ≡ held)
      elsewhere =
          put_at_elim (λ j x. x ≡ held → (i ≢ j) × (s.locks j ≡ held)) i (free r) s.locks (λ e. cc)
            (λ j other e. (other, e)) j

  -- A step that changes no lock.
  abbrev pub Moved : ℕ → System V E c → System V E c → Type 0
  Moved t s s' = (s'.locks ≡ s.locks) × (b : Caller V E) × (s'.callers ≡ put_at t b s.callers)

  get-Moved :
      (s s' : System V E c) (k t : ℕ) (o : Outcome (Option V × c.Store))
      → after_get t k s o ≡ some s'
      → Moved t s s'
  get-Moved s s' k t (done (some v, store)) ran =
      subst (Moved t s) (some_injective ran) (refl, returned k (ok v), refl)
  get-Moved s s' k t (done (none, store)) ran =
      subst (Moved t s) (some_injective ran) (refl, missed k, refl)
  get-Moved s s' k t panic ran = cc
  get-Moved s s' k t out_of_fuel ran = cc

  lookup-Moved : (s : System V E c) (k t : ℕ) (o : Option ℕ) → Moved t s (after_lookup t k s o)
  lookup-Moved s k t (some i) = (refl, waiting k i, refl)
  lookup-Moved s k t none = (refl, spawning k, refl)

  read-Moved :
      (s s' : System V E c) (k t : ℕ) (l : Lock V E) → after_read t k s l ≡ some s' → Moved t s s'
  read-Moved s s' k t held ran = cc
  read-Moved s s' k t (free none) ran =
      subst (Moved t s) (some_injective ran) (refl, spawning k, refl)
  read-Moved s s' k t (free (some r)) ran =
      subst (Moved t s) (some_injective ran) (refl, returned k r, refl)

  pub Moved-IsOwned :
      (s s' : System V E c) (t : ℕ) (a : Caller V E)
      → IsOwned s
      → s.callers t ≡ a
      → ((i : ℕ) → Owns i a → ⊥)
      → Moved t s s'
      → IsOwned s'
  Moved-IsOwned s s' t a h at_a owns_none (locks, b, callers) =
      keep-IsOwned s s' t a b h at_a locks callers (λ i o. absurd (owns_none i o))

  set-IsOwned :
      (s s' : System V E c) (k i t : ℕ) (v : V) (o : Outcome c.Store)
      → IsOwned s
      → s.callers t ≡ storing k i v
      → after_set t k i v s o ≡ some s'
      → IsOwned s'
  set-IsOwned s s' k i t v (done store) h at_a ran =
      keep-IsOwned s s' t (storing k i v) (removing k i (ok v) (some (ok v))) h at_a
        (ap (λ x. x.locks) (sym (some_injective ran)))
        (ap (λ x. x.callers) (sym (some_injective ran))) (λ _ o. o)
  set-IsOwned s s' k i t v panic h at_a ran = cc
  set-IsOwned s s' k i t v out_of_fuel h at_a ran = cc

  spawn-IsOwned :
      (s s' : System V E c) (k t : ℕ)
      → IsOwned s
      → s.callers t ≡ spawning k
      → s'.locks ≡ put_at s.fresh held s.locks
      → s'.callers ≡ put_at t (computing k s.fresh) s.callers
      → IsOwned s'
  spawn-IsOwned s s' k t h at_a same_locks same_callers i e = owned (
      put_at_elim (λ j x. x ≡ held → (j ≡ s.fresh) ⊎ (s.locks j ≡ held)) s.fresh held s.locks
        (λ e. inl refl) (λ j _ e. inr e) i (ap (λ f. f i) (sym same_locks) ∙ e))
    where
      owned : (i ≡ s.fresh) ⊎ (s.locks i ≡ held) → (u : ℕ) × Owns i (s'.callers u)
      owned (inl new) = (
        t,
        subst (λ f. Owns i (f t)) (sym same_callers)
            (subst (Owns i) (sym (put_at_self t (computing k s.fresh) s.callers)) new),
      )
      owned (inr old) =
          let (u, o) = h i old in
          (
            u,
            subst (λ f. Owns i (f u)) (sym same_callers)
                (put_at_elim (λ j x. Owns i (s.callers j) → Owns i x) t (computing k s.fresh)
                  s.callers (λ o. absurd (subst (Owns i) at_a o)) (λ _ _ o. o) u o),
          )

  pub step-IsOwned :
      (a : Caller V E) (t : ℕ) (s s' : System V E c)
      → IsOwned s
      → s.callers t ≡ a
      → step a t s ≡ some s'
      → IsOwned s'
  unfolding step
  step-IsOwned (looking k) t s s' h at_a ran =
      Moved-IsOwned s s' t (looking k) h at_a (λ _ o. o) (get-Moved s s' k t (c.get k s.store) ran)
  step-IsOwned (missed k) t s s' h at_a ran =
      Moved-IsOwned s s' t (missed k) h at_a (λ _ o. o)
        (subst (Moved t s) (some_injective ran) (lookup-Moved s k t (lookup k s.initializers)))
  step-IsOwned (waiting k i) t s s' h at_a ran =
      Moved-IsOwned s s' t (waiting k i) h at_a (λ _ o. o) (read-Moved s s' k t (s.locks i) ran)
  step-IsOwned (spawning k) t s s' h at_a ran =
      spawn-IsOwned s s' k t h at_a (ap (λ x. x.locks) (sym (some_injective ran)))
        (ap (λ x. x.callers) (sym (some_injective ran)))
  step-IsOwned (storing k i v) t s s' h at_a ran =
      set-IsOwned s s' k i t v (c.set_value k v s.store) h at_a ran
  step-IsOwned (removing k i r back) t s s' h at_a ran =
      keep-IsOwned s s' t (removing k i r back) (finishing k i r back) h at_a
        (ap (λ x. x.locks) (sym (some_injective ran)))
        (ap (λ x. x.callers) (sym (some_injective ran))) (λ _ o. o)
  step-IsOwned (finishing k i r back) t s s' h at_a ran =
      release-IsOwned s s' t i (finishing k i r back) (after_drop k back) (some r) h at_a
        (ap (λ x. x.locks) (sym (some_injective ran)))
        (ap (λ x. x.callers) (sym (some_injective ran))) (λ _ o. o)
  step-IsOwned (computing _ _) t s s' h at_a ran = cc
  step-IsOwned idle t s s' h at_a ran = cc
  step-IsOwned (returned k r) t s s' h at_a ran = cc
  step-IsOwned crashed t s s' h at_a ran = cc
