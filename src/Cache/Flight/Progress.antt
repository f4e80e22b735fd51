-- ===== src/Cache/Flight/Progress.antt =====
-- No caller waits for ever for another: who waits for an initializer waits for a caller that goes on.
use vegafusion.Cache.Flight.Owners.{
  Owns, rank, IsOwned, keep-IsOwned, release-IsOwned, step-IsOwned,
}
use vegafusion.Cache.Flight.Safety.{some_injective}
use vegafusion.Cache.Flight.Reached.{Reached, begun, next, Reached-IsSafe}
use vegafusion.Cache.Flight.System.{
  Caller, idle, looking, missed, waiting, spawning, computing, storing, removing, finishing,
  returned, crashed, Lock, held, free, System, Ending, completed, failed, panicked, Event, call,
  advance, outcome, cancel, clear, after_get, after_read, after_set, step, resolve, abandon, start,
  fire, initial,
}
use vegafusion.Cache.Store.{ValueStore, IsEmpty}
use vegafusion.Prelude.Fallible.{ok, err}
use vegafusion.Prelude.Outcome.{done}
use vegafusion.Prelude.{
  ℕ, ◌<◌, ◌≡◌, refl, sym, ap, subst, ◌∙◌, inl, inr, ◌⊎◌, Option, none, some, arith, nat_key,
}

module _ {V E : Type 0} (c : ValueStore V) where
  resolve-IsOwned :
      (a : Caller V E) (t : ℕ) (ending : Ending V E) (s s' : System V E c)
      → IsOwned c s
      → s.callers t ≡ a
      → resolve a t ending s ≡ some s'
      → IsOwned c s'
  unfolding resolve
  resolve-IsOwned (computing k i) t (completed (ok v)) s s' h at_a ran =
      keep-IsOwned c s s' t (computing k i) (storing k i v) h at_a
        (ap (λ x. x.locks) (sym (some_injective ran)))
        (ap (λ x. x.callers) (sym (some_injective ran))) (λ _ o. o)
  resolve-IsOwned (computing k i) t (completed (err e)) s s' h at_a ran =
      keep-IsOwned c s s' t (computing k i) (removing k i (err e) (some (err e))) h at_a
        (ap (λ x. x.locks) (sym (some_injective ran)))
        (ap (λ x. x.callers) (sym (some_injective ran))) (λ _ o. o)
  resolve-IsOwned (computing k i) t (failed e e') s s' h at_a ran =
      keep-IsOwned c s s' t (computing k i) (removing k i (err e) (some (err e'))) h at_a
        (ap (λ x. x.locks) (sym (some_injective ran)))
        (ap (λ x. x.callers) (sym (some_injective ran))) (λ _ o. o)
  resolve-IsOwned (computing k i) t (panicked e) s s' h at_a ran =
      keep-IsOwned c s s' t (computing k i) (removing k i (err e) none) h at_a
        (ap (λ x. x.locks) (sym (some_injective ran)))
        (ap (λ x. x.callers) (sym (some_injective ran))) (λ _ o. o)
  resolve-IsOwned idle t ending s s' h at_a ran = cc
  resolve-IsOwned (looking k) t ending s s' h at_a ran = cc
  resolve-IsOwned (missed k) t ending s s' h at_a ran = cc
  resolve-IsOwned (waiting k i) t ending s s' h at_a ran = cc
  resolve-IsOwned (spawning k) t ending s s' h at_a ran = cc
  resolve-IsOwned (storing k i v) t ending s s' h at_a ran = cc
  resolve-IsOwned (removing k i r back) t ending s s' h at_a ran = cc
  resolve-IsOwned (finishing k i r back) t ending s s' h at_a ran = cc
  resolve-IsOwned (returned k r) t ending s s' h at_a ran = cc
  resolve-IsOwned crashed t ending s s' h at_a ran = cc

  abandon-IsOwned :
      (a : Caller V E) (t : ℕ) (s s' : System V E c)
      → IsOwned c s
      → s.callers t ≡ a
      → abandon a t s ≡ some s'
      → IsOwned c s'
  unfolding abandon
  abandon-IsOwned (computing k i) t s s' h at_a ran =
      release-IsOwned c s s' t i (computing k i) idle none h at_a
        (ap (λ x. x.locks) (sym (some_injective ran)))
        (ap (λ x. x.callers) (sym (some_injective ran))) (λ _ o. o)
  abandon-IsOwned (storing k i v) t s s' h at_a ran =
      release-IsOwned c s s' t i (storing k i v) idle (some (ok v)) h at_a
        (ap (λ x. x.locks) (sym (some_injective ran)))
        (ap (λ x. x.callers) (sym (some_injective ran))) (λ _ o. o)
  abandon-IsOwned (removing k i r back) t s s' h at_a ran =
      release-IsOwned c s s' t i (removing k i r back) idle (some r) h at_a
        (ap (λ x. x.locks) (sym (some_injective ran)))
        (ap (λ x. x.callers) (sym (some_injective ran))) (λ _ o. o)
  abandon-IsOwned (finishing k i r back) t s s' h at_a ran =
      release-IsOwned c s s' t i (finishing k i r back) idle (some r) h at_a
        (ap (λ x. x.locks) (sym (some_injective ran)))
        (ap (λ x. x.callers) (sym (some_injective ran))) (λ _ o. o)
  abandon-IsOwned (looking k) t s s' h at_a ran =
      keep-IsOwned c s s' t (looking k) idle h at_a (ap (λ x. x.locks) (sym (some_injective ran)))
        (ap (λ x. x.callers) (sym (some_injective ran))) (λ _ o. o)
  abandon-IsOwned (missed k) t s s' h at_a ran =
      keep-IsOwned c s s' t (missed k) idle h at_a (ap (λ x. x.locks) (sym (some_injective ran)))
        (ap (λ x. x.callers) (sym (some_injective ran))) (λ _ o. o)
  abandon-IsOwned (waiting k i) t s s' h at_a ran =
      keep-IsOwned c s s' t (waiting k i) idle h at_a (ap (λ x. x.locks) (sym (some_injective ran)))
        (ap (λ x. x.callers) (sym (some_injective ran))) (λ _ o. o)
  abandon-IsOwned (spawning k) t s s' h at_a ran =
      keep-IsOwned c s s' t (spawning k) idle h at_a (ap (λ x. x.locks) (sym (some_injective ran)))
        (ap (λ x. x.callers) (sym (some_injective ran))) (λ _ o. o)
  abandon-IsOwned idle t s s' h at_a ran = cc
  abandon-IsOwned (returned k r) t s s' h at_a ran = cc
  abandon-IsOwned crashed t s s' h at_a ran = cc

  start-IsOwned :
      (a : Caller V E) (t k : ℕ) (s s' : System V E c)
      → IsOwned c s
      → s.callers t ≡ a
      → start a t k s ≡ some s'
      → IsOwned c s'
  unfolding start
  start-IsOwned idle t k s s' h at_a ran =
      keep-IsOwned c s s' t idle (looking k) h at_a (ap (λ x. x.locks) (sym (some_injective ran)))
        (ap (λ x. x.callers) (sym (some_injective ran))) (λ _ o. o)
  start-IsOwned (looking _) t k s s' h at_a ran = cc
  start-IsOwned (missed _) t k s s' h at_a ran = cc
  start-IsOwned (waiting _ _) t k s s' h at_a ran = cc
  start-IsOwned (spawning _) t k s s' h at_a ran = cc
  start-IsOwned (computing _ _) t k s s' h at_a ran = cc
  start-IsOwned (storing _ _ _) t k s s' h at_a ran = cc
  start-IsOwned (removing _ _ _ _) t k s s' h at_a ran = cc
  start-IsOwned (finishing _ _ _ _) t k s s' h at_a ran = cc
  start-IsOwned (returned _ _) t k s s' h at_a ran = cc
  start-IsOwned crashed t k s s' h at_a ran = cc

  fire-IsOwned :
      (event : Event V E) (s s' : System V E c)
      → IsOwned c s
      → fire event s ≡ some s'
      → IsOwned c s'
  unfolding fire
  fire-IsOwned (call t k) s s' h ran = start-IsOwned (s.callers t) t k s s' h refl ran
  fire-IsOwned (advance t) s s' h ran = step-IsOwned c (s.callers t) t s s' h refl ran
  fire-IsOwned (outcome t ending) s s' h ran =
      resolve-IsOwned (s.callers t) t ending s s' h refl ran
  fire-IsOwned (cancel t) s s' h ran = abandon-IsOwned (s.callers t) t s s' h refl ran
  fire-IsOwned clear s s' h ran = subst (IsOwned c) (some_injective ran) h

  module _ (Good : ℕ → V → Type 0) where
    Reached-IsOwned : (store : c.Store) (s : System V E c) → Reached Good c store s → IsOwned c s
    unfolding initial
    Reached-IsOwned store _ begun = λ i e. cc
    Reached-IsOwned store s' (next {s = s} event before allowed ran) =
        fire-IsOwned event s s' (Reached-IsOwned store s before) ran

  -- The caller takes a step by itself, or its future is running and may come to any end.
  unfoldable pub GoesOn : ℕ → System V E c → Type 0
  GoesOn t s =
      ((s' : System V E c) × (fire (advance t) s ≡ some s'))
      ⊎ ((ending : Ending V E) → (s' : System V E c) × (fire (outcome t ending) s ≡ some s'))

  IsActive : Caller V E → Type 0
  IsActive idle = ⊥
  IsActive (waiting _ _) = ⊥
  IsActive (returned _ _) = ⊥
  IsActive crashed = ⊥
  IsActive _ = Unit

  get_runs :
      (s : System V E c) (k t : ℕ) (o : Option V) (store : c.Store)
      → (s' : System V E c) × (after_get t k s (done (o, store)) ≡ some s')
  get_runs s k t (some v) store = (_, refl)
  get_runs s k t none store = (_, refl)

  active_goes_on :
      (a : Caller V E) (t : ℕ) (s : System V E c)
      → c.IsSound s.store
      → IsActive a
      → ((s' : System V E c) × (step a t s ≡ some s'))
        ⊎ ((ending : Ending V E) → (s' : System V E c) × (resolve a t ending s ≡ some s'))
  unfolding step resolve IsActive
  active_goes_on (looking k) t s sound active =
      let (store, e, _, _) = c.get_law k s.store sound in
      let (s', ran) = get_runs s k t (c.value k s.store) store in
      inl (s', ap (after_get t k s) e ∙ ran)
  active_goes_on (missed k) t s sound active = inl (_, refl)
  active_goes_on (spawning k) t s sound active = inl (_, refl)
  active_goes_on (computing k i) t s sound active = inr by_ending
    where
      by_ending :
          (ending : Ending V E)
          → (s' : System V E c) × (resolve (computing k i) t ending s ≡ some s')
      by_ending (completed (ok v)) = (_, refl)
      by_ending (completed (err e)) = (_, refl)
      by_ending (failed e e') = (_, refl)
      by_ending (panicked e) = (_, refl)
  active_goes_on (storing k i v) t s sound active =
      let (store, e, _, _) = c.set_value_law k v s.store sound in
      inl (_, ap (after_set t k i v s) e)
  active_goes_on (removing k i r back) t s sound active = inl (_, refl)
  active_goes_on (finishing k i r back) t s sound active = inl (_, refl)
  active_goes_on idle t s sound active = elim active [ ]
  active_goes_on (waiting k i) t s sound active = elim active [ ]
  active_goes_on (returned k r) t s sound active = elim active [ ]
  active_goes_on crashed t s sound active = elim active [ ]

  active-GoesOn :
      (t : ℕ) (s : System V E c) → c.IsSound s.store → IsActive (s.callers t) → GoesOn t s
  unfolding GoesOn fire
  active-GoesOn t s sound active = active_goes_on (s.callers t) t s sound active

  owner-IsActive : (i : ℕ) (a : Caller V E) → Owns i a → IsActive a
  unfolding IsActive
  owner-IsActive i (computing _ _) o = tt
  owner-IsActive i (storing _ _ _) o = tt
  owner-IsActive i (removing _ _ _ _) o = tt
  owner-IsActive i (finishing _ _ _ _) o = tt
  owner-IsActive i idle o = elim o [ ]
  owner-IsActive i (looking _) o = elim o [ ]
  owner-IsActive i (missed _) o = elim o [ ]
  owner-IsActive i (waiting _ _) o = elim o [ ]
  owner-IsActive i (spawning _) o = elim o [ ]
  owner-IsActive i (returned _ _) o = elim o [ ]
  owner-IsActive i crashed o = elim o [ ]

  -- A caller that waits, and the one that it waits for.
  unfoldable pub WaitsFor : ℕ → ℕ → System V E c → Type 0
  WaitsFor t u s = (k : ℕ) × (i : ℕ) × (s.callers t ≡ waiting k i) × Owns i (s.callers u)

  wait-GoesOn :
      (t k i : ℕ) (s : System V E c)
      → c.IsSound s.store
      → IsOwned c s
      → s.callers t ≡ waiting k i
      → (l : Lock V E) → s.locks i ≡ l
      → GoesOn t s ⊎ ((u : ℕ) × WaitsFor t u s × GoesOn u s)
  unfolding GoesOn WaitsFor fire step
  wait-GoesOn t k i s sound owned at_wait held e =
      let (u, o) = owned i e in
      inr (u, (k, i, at_wait, o), active-GoesOn u s sound (owner-IsActive i (s.callers u) o))
  wait-GoesOn t k i s sound owned at_wait (free none) e =
      inl (inl (_, ap (λ a. step a t s) at_wait ∙ ap (after_read t k s) e))
  wait-GoesOn t k i s sound owned at_wait (free (some r)) e =
      inl (inl (_, ap (λ a. step a t s) at_wait ∙ ap (after_read t k s) e))

  busy-GoesOn :
      (t : ℕ) (s : System V E c) (a : Caller V E)
      → c.IsSound s.store
      → IsOwned c s
      → s.callers t ≡ a
      → 0 < rank a
      → GoesOn t s ⊎ ((u : ℕ) × WaitsFor t u s × GoesOn u s)
  unfolding IsActive rank
  busy-GoesOn t s (waiting k i) sound owned e busy =
      wait-GoesOn t k i s sound owned e (s.locks i) refl
  busy-GoesOn t s (looking k) sound owned e busy =
      inl (active-GoesOn t s sound (subst IsActive (sym e) tt))
  busy-GoesOn t s (missed k) sound owned e busy =
      inl (active-GoesOn t s sound (subst IsActive (sym e) tt))
  busy-GoesOn t s (spawning k) sound owned e busy =
      inl (active-GoesOn t s sound (subst IsActive (sym e) tt))
  busy-GoesOn t s (computing k i) sound owned e busy =
      inl (active-GoesOn t s sound (subst IsActive (sym e) tt))
  busy-GoesOn t s (storing k i v) sound owned e busy =
      inl (active-GoesOn t s sound (subst IsActive (sym e) tt))
  busy-GoesOn t s (removing k i r back) sound owned e busy =
      inl (active-GoesOn t s sound (subst IsActive (sym e) tt))
  busy-GoesOn t s (finishing k i r back) sound owned e busy =
      inl (active-GoesOn t s sound (subst IsActive (sym e) tt))
  busy-GoesOn t s idle sound owned e busy = absurd (omega arith)
  busy-GoesOn t s (returned k r) sound owned e busy = absurd (omega arith)
  busy-GoesOn t s crashed sound owned e busy = absurd (omega arith)

  -- Nobody waits for ever for another caller: in every state that a run from an empty cache comes
  -- to, a caller that has not returned, panicked or gone away either can take a step by itself, or
  -- its future is running and its end, whatever it is, takes the caller on, or it waits for an
  -- initializer that another caller holds, to which the same applies and which waits for nobody.
  pub GoesOn-Reached :
      (Good : ℕ → V → Type 0) (store : c.Store) (s : System V E c) (t : ℕ)
      → IsEmpty c store
      → Reached Good c store s
      → 0 < rank (s.callers t)
      → GoesOn t s ⊎ ((u : ℕ) × WaitsFor t u s × GoesOn u s)
  GoesOn-Reached Good store s t h reached busy =
      busy-GoesOn t s (s.callers t) (Reached-IsSafe Good c store s h reached).sound
        (Reached-IsOwned Good store s reached) refl busy
