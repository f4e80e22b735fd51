-- ===== src/Cache/Flight/Steps.antt =====
-- Every event keeps what is safe.
use vegafusion.Cache.Flight.Heap.{put_at, put_at_elim, put_at_self, put_at_ne}
use vegafusion.Cache.Flight.Safety.{
  GoodResult, GoodCaller, GoodLock, GoodBack, GoodCaller-put, IsSafe, Named-lookup, Named-remove,
  Named-put, move-IsSafe, release-IsSafe, store-IsSafe, with_store, some_injective,
}
use vegafusion.Cache.Flight.System.{
  NodeResult, Caller, idle, looking, missed, waiting, spawning, computing, storing, removing,
  finishing, returned, crashed, Lock, held, free, System, Ending, completed, failed, panicked, move,
  release, after_get, after_lookup, after_read, after_set, after_drop, step, resolve, abandon,
  start,
}
use vegafusion.Cache.Store.{ValueStore}
use vegafusion.Prelude.Assoc.{lookup, remove}
use vegafusion.Prelude.Fallible.{ok, err}
use vegafusion.Prelude.Outcome.{done}
use vegafusion.Prelude.{
  ℕ, suc, ◌<◌, ◌≡◌, ◌≢◌, refl, sym, ap, subst, ◌∙◌, inl, inr, ◌⊎◌, Option, none, some, arith,
  nat_key,
}

module _ {V E : Type 0} (Good : ℕ → V → Type 0) (c : ValueStore V) where
  -- One step of a caller.
  get-IsSafe :
      (s : System V E c) (h : IsSafe Good c s) (k t : ℕ) (s' : System V E c)
      → after_get t k s (c.get k s.store) ≡ some s'
      → IsSafe Good c s'
  get-IsSafe s h k t s' ran =
      let (store, e, sound, back) = c.get_law k s.store h.sound in
      by_value (c.value k s.store) refl store
        (store-IsSafe Good c s h store sound (λ j v got. h.values j v (back j v got)))
        (ap (after_get t k s) (sym e) ∙ ran)
    where
      by_value :
          (o : Option V) (same : c.value k s.store ≡ o) (store : c.Store)
          → IsSafe Good c (with_store s store)
          → after_get t k s (done (c.value k s.store, store)) ≡ some s'
          → IsSafe Good c s'
      by_value (some v) same store safe ran =
          subst (IsSafe Good c)
            (some_injective (ap (λ o. after_get t k s (done (o, store))) (sym same) ∙ ran))
            (move-IsSafe Good c (with_store s store) safe t (returned k (ok v)) (h.values k v same))
      by_value none same store safe ran =
          subst (IsSafe Good c)
            (some_injective (ap (λ o. after_get t k s (done (o, store))) (sym same) ∙ ran))
            (move-IsSafe Good c (with_store s store) safe t (missed k) tt)

  lookup-IsSafe :
      (s : System V E c) (h : IsSafe Good c s) (k t : ℕ) (o : Option ℕ)
      → lookup k s.initializers ≡ o
      → IsSafe Good c (after_lookup t k s o)
  lookup-IsSafe s h k t (some i) e =
      move-IsSafe Good c s h t (waiting k i)
        (Named-lookup h.key s.fresh k i s.initializers h.named e)
  lookup-IsSafe s h k t none e = move-IsSafe Good c s h t (spawning k) tt

  read-IsSafe :
      (s : System V E c) (h : IsSafe Good c s) (k i t : ℕ) (l : Lock V E) (s' : System V E c)
      → h.key i ≡ k
      → GoodLock Good h.key i l
      → after_read t k s l ≡ some s'
      → IsSafe Good c s'
  read-IsSafe s h k i t held s' e g ran = cc
  read-IsSafe s h k i t (free none) s' e g ran =
      subst (IsSafe Good c) (some_injective ran) (move-IsSafe Good c s h t (spawning k) tt)
  read-IsSafe s h k i t (free (some r)) s' e g ran =
      subst (IsSafe Good c) (some_injective ran)
        (move-IsSafe Good c s h t (returned k r) (subst (λ k. GoodResult Good k r) e g))

  set-IsSafe :
      (s : System V E c) (h : IsSafe Good c s) (k i t : ℕ) (v : V) (s' : System V E c)
      → (i < s.fresh) × (h.key i ≡ k) × Good k v
      → after_set t k i v s (c.set_value k v s.store) ≡ some s'
      → IsSafe Good c s'
  set-IsSafe s h k i t v s' (below, e, g) ran =
      let (store, done_it, sound, back) = c.set_value_law k v s.store h.sound in
      subst (IsSafe Good c) (some_injective (ap (after_set t k i v s) (sym done_it) ∙ ran)) (
        store-IsSafe Good c (move t (removing k i (ok v) (some (ok v))) s)
          (move-IsSafe Good c s h t (removing k i (ok v) (some (ok v))) (below, e, g, g)) store
          sound (λ j w got. old_or_new j w (back j w got)))
    where
      old_or_new : (j : ℕ) (w : V) → (c.value j s.store ≡ some w) ⊎ ((j ≡ k) × (w ≡ v)) → Good j w
      old_or_new j w (inl got) = h.values j w got
      old_or_new j w (inr (same, same_value)) =
          subst (λ j. Good j w) (sym same) (subst (Good k) (sym same_value) g)

  spawn-IsSafe :
      (s : System V E c) (h : IsSafe Good c s) (k t : ℕ) (s' : System V E c)
      → step (spawning k) t s ≡ some s'
      → IsSafe Good c s'
  unfolding step
  spawn-IsSafe s h k t s' ran = subst (IsSafe Good c) (some_injective ran) (record {
    key = put_at s.fresh k h.key;
    sound = h.sound;
    values = h.values;
    named = (
      (omega arith, put_at_self s.fresh k h.key),
      Named-put h.key s.fresh k (remove k s.initializers)
          (Named-remove h.key s.fresh k s.initializers h.named),
    );
    locks =
        put_at_elim (λ j x. j < suc s.fresh → GoodLock Good (put_at s.fresh k h.key) j x) s.fresh
          held s.locks (λ _. tt) (λ j other below. old j other below);
    callers =
        put_at_elim (λ _ a. GoodCaller Good (put_at s.fresh k h.key) (suc s.fresh) a) t
          (computing k s.fresh) s.callers (omega arith, put_at_self s.fresh k h.key)
          (λ j _. GoodCaller-put Good h.key s.fresh k (s.callers j) (h.callers j));
  })
    where
      same_key :
          (l : Lock V E) (a b : ℕ → ℕ) (j : ℕ)
          → a j ≡ b j
          → GoodLock Good a j l
          → GoodLock Good b j l
      same_key held a b j e g = tt
      same_key (free none) a b j e g = tt
      same_key (free (some r)) a b j e g = subst (λ k. GoodResult Good k r) e g

      smaller : (j : ℕ) → s.fresh ≢ j → j < suc s.fresh → j < s.fresh
      smaller j other below = ground arith

      old :
          (j : ℕ)
          → s.fresh ≢ j
          → j < suc s.fresh
          → GoodLock Good (put_at s.fresh k h.key) j (s.locks j)
      old j other below =
          same_key (s.locks j) h.key (put_at s.fresh k h.key) j
            (sym (put_at_ne s.fresh j k h.key other)) (h.locks j (smaller j other below))

  pub step-IsSafe :
      (a : Caller V E) (t : ℕ) (s s' : System V E c) (h : IsSafe Good c s)
      → GoodCaller Good h.key s.fresh a
      → step a t s ≡ some s'
      → IsSafe Good c s'
  unfolding step
  step-IsSafe (looking k) t s s' h g ran = get-IsSafe s h k t s' ran
  step-IsSafe (missed k) t s s' h g ran =
      subst (IsSafe Good c) (some_injective ran)
        (lookup-IsSafe s h k t (lookup k s.initializers) refl)
  step-IsSafe (waiting k i) t s s' h g ran =
      read-IsSafe s h k i t (s.locks i) s' g.1 (h.locks i g.0) ran
  step-IsSafe (spawning k) t s s' h g ran = spawn-IsSafe s h k t s' ran
  step-IsSafe (storing k i v) t s s' h g ran = set-IsSafe s h k i t v s' g ran
  step-IsSafe (removing k i r back) t s s' h g ran =
      subst (IsSafe Good c) (some_injective ran) (record {
        key = h.key;
        sound = h.sound;
        values = h.values;
        named = Named-remove h.key s.fresh k s.initializers h.named;
        locks = h.locks;
        callers =
            put_at_elim (λ _ a. GoodCaller Good h.key s.fresh a) t (finishing k i r back) s.callers
              g (λ j _. h.callers j);
      })
  step-IsSafe (finishing k i r back) t s s' h g ran = subst (IsSafe Good c) (some_injective ran) (
      release-IsSafe Good c s h t i (after_drop k back) (some r) (after back g.3) (written g.1 g.2))
    where
      after :
          (back : Option (NodeResult V E))
          → GoodBack Good k back
          → GoodCaller Good h.key s.fresh (after_drop k back)
      after (some r) g = g
      after none g = tt

      written : h.key i ≡ k → GoodResult Good k r → GoodResult Good (h.key i) r
      written e g = subst (λ k. GoodResult Good k r) (sym e) g
  step-IsSafe (computing _ _) t s s' h g ran = cc
  step-IsSafe idle t s s' h g ran = cc
  step-IsSafe (returned k r) t s s' h g ran = cc
  step-IsSafe crashed t s s' h g ran = cc

  -- A future comes to a good value, or to an error.
  abbrev pub GoodEnding : Caller V E → Ending V E → Type 0
  GoodEnding (computing k i) (completed (ok v)) = Good k v
  GoodEnding a ending = Unit

  pub resolve-IsSafe :
      (a : Caller V E) (t : ℕ) (ending : Ending V E) (s s' : System V E c) (h : IsSafe Good c s)
      → GoodCaller Good h.key s.fresh a
      → GoodEnding a ending
      → resolve a t ending s ≡ some s'
      → IsSafe Good c s'
  unfolding resolve
  resolve-IsSafe (computing k i) t (completed (ok v)) s s' h g good ran =
      subst (IsSafe Good c) (some_injective ran)
        (move-IsSafe Good c s h t (storing k i v) (g.0, g.1, good))
  resolve-IsSafe (computing k i) t (completed (err e)) s s' h g good ran =
      subst (IsSafe Good c) (some_injective ran)
        (move-IsSafe Good c s h t (removing k i (err e) (some (err e))) (g.0, g.1, tt, tt))
  resolve-IsSafe (computing k i) t (failed e e') s s' h g good ran =
      subst (IsSafe Good c) (some_injective ran)
        (move-IsSafe Good c s h t (removing k i (err e) (some (err e'))) (g.0, g.1, tt, tt))
  resolve-IsSafe (computing k i) t (panicked e) s s' h g good ran =
      subst (IsSafe Good c) (some_injective ran)
        (move-IsSafe Good c s h t (removing k i (err e) none) (g.0, g.1, tt, tt))
  resolve-IsSafe idle t ending s s' h g good ran = cc
  resolve-IsSafe (looking k) t ending s s' h g good ran = cc
  resolve-IsSafe (missed k) t ending s s' h g good ran = cc
  resolve-IsSafe (waiting k i) t ending s s' h g good ran = cc
  resolve-IsSafe (spawning k) t ending s s' h g good ran = cc
  resolve-IsSafe (storing k i v) t ending s s' h g good ran = cc
  resolve-IsSafe (removing k i r back) t ending s s' h g good ran = cc
  resolve-IsSafe (finishing k i r back) t ending s s' h g good ran = cc
  resolve-IsSafe (returned k r) t ending s s' h g good ran = cc
  resolve-IsSafe crashed t ending s s' h g good ran = cc

  idle-IsSafe :
      (t : ℕ) (s s' : System V E c)
      → IsSafe Good c s
      → some (move t idle s) ≡ some s'
      → IsSafe Good c s'
  idle-IsSafe t s s' h ran =
      subst (IsSafe Good c) (some_injective ran) (move-IsSafe Good c s h t idle tt)

  -- The lock of a caller that goes away is free.
  drop-IsSafe :
      (t k i : ℕ) (r : Option (NodeResult V E)) (s s' : System V E c) (h : IsSafe Good c s)
      → h.key i ≡ k
      → GoodBack Good k r
      → some (move t idle (release i r s)) ≡ some s'
      → IsSafe Good c s'
  drop-IsSafe t k i none s s' h e g ran =
      subst (IsSafe Good c) (some_injective ran) (release-IsSafe Good c s h t i idle none tt tt)
  drop-IsSafe t k i (some r) s s' h e g ran =
      subst (IsSafe Good c) (some_injective ran) (
        release-IsSafe Good c s h t i idle (some r) tt (subst (λ k. GoodResult Good k r) (sym e) g))

  pub abandon-IsSafe :
      (a : Caller V E) (t : ℕ) (s s' : System V E c) (h : IsSafe Good c s)
      → GoodCaller Good h.key s.fresh a
      → abandon a t s ≡ some s'
      → IsSafe Good c s'
  unfolding abandon
  abandon-IsSafe idle t s s' h g ran = cc
  abandon-IsSafe (returned k r) t s s' h g ran = cc
  abandon-IsSafe crashed t s s' h g ran = cc
  abandon-IsSafe (looking k) t s s' h g ran = idle-IsSafe t s s' h ran
  abandon-IsSafe (missed k) t s s' h g ran = idle-IsSafe t s s' h ran
  abandon-IsSafe (waiting k i) t s s' h g ran = idle-IsSafe t s s' h ran
  abandon-IsSafe (spawning k) t s s' h g ran = idle-IsSafe t s s' h ran
  abandon-IsSafe (computing k i) t s s' h g ran = drop-IsSafe t k i none s s' h g.1 tt ran
  abandon-IsSafe (storing k i v) t s s' h g ran = drop-IsSafe t k i (some (ok v)) s s' h g.1 g.2 ran
  abandon-IsSafe (removing k i r back) t s s' h g ran =
      drop-IsSafe t k i (some r) s s' h g.1 g.2 ran
  abandon-IsSafe (finishing k i r back) t s s' h g ran =
      drop-IsSafe t k i (some r) s s' h g.1 g.2 ran

  pub start-IsSafe :
      (a : Caller V E) (t k : ℕ) (s s' : System V E c)
      → IsSafe Good c s
      → start a t k s ≡ some s'
      → IsSafe Good c s'
  unfolding start
  start-IsSafe idle t k s s' h ran =
      subst (IsSafe Good c) (some_injective ran) (move-IsSafe Good c s h t (looking k) tt)
  start-IsSafe (looking _) t k s s' h ran = cc
  start-IsSafe (missed _) t k s s' h ran = cc
  start-IsSafe (waiting _ _) t k s s' h ran = cc
  start-IsSafe (spawning _) t k s s' h ran = cc
  start-IsSafe (computing _ _) t k s s' h ran = cc
  start-IsSafe (storing _ _ _) t k s s' h ran = cc
  start-IsSafe (removing _ _ _ _) t k s s' h ran = cc
  start-IsSafe (finishing _ _ _ _) t k s s' h ran = cc
  start-IsSafe (returned _ _) t k s s' h ran = cc
  start-IsSafe crashed t k s s' h ran = cc
