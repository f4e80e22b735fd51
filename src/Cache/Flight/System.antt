-- ===== src/Cache/Flight/System.antt =====
-- The callers and what they share. A caller stands between two awaits; an initializer is a lock
-- around the result that its creator is to write, and the creator holds it for writing until it
-- returns.
use vegafusion.Cache.Flight.Heap.{put_at}
use vegafusion.Cache.Store.{ValueStore}
use vegafusion.Prelude.Assoc.{lookup, remove}
use vegafusion.Prelude.Fallible.{Fallible, ok, err}
use vegafusion.Prelude.Outcome.{Outcome, done}
use vegafusion.Prelude.{◌≡◌, ℕ, suc, List, [], ◌∷◌, Option, none, some, nat_key}

module _ (V E : Type 0) where
  abbrev pub NodeResult : Type 0
  NodeResult = Fallible E V

  -- Where a caller stands; `k` is its fingerprint, and `i` its initializer.
  pub data Caller : Type 0 where
    idle : Caller
    -- before `self.get`
    looking : ℕ → Caller
    -- before the look into `initializers`
    missed : ℕ → Caller
    -- at `initializer.read().await`
    waiting : ℕ → ℕ → Caller
    -- at the start of `spawn_initializer`
    spawning : ℕ → Caller
    -- at the await of the future
    computing : ℕ → ℕ → Caller
    -- before `set_value`, the result written
    storing : ℕ → ℕ → V → Caller
    -- before `remove_initializer`: what is written, and what the caller returns, or else it panics
    removing : ℕ → ℕ → NodeResult → Option NodeResult → Caller
    -- before the lock is dropped
    finishing : ℕ → ℕ → NodeResult → Option NodeResult → Caller
    returned : ℕ → NodeResult → Caller
    crashed : Caller

  -- The lock of an initializer, free with what was written, if anything was.
  pub data Lock : Type 0 where
    held : Lock
    free : Option NodeResult → Lock

  pub record System (c : ValueStore V) : Type 0 where
    pub store : c.Store
    pub initializers : List (ℕ × ℕ)
    pub locks : ℕ → Lock
    -- the first identity that no initializer has
    pub fresh : ℕ
    pub callers : ℕ → Caller

  -- What the future of a caller comes to: a result, an error of its task, or a panic. The last two
  -- come with the error that is left to those that wait, the second also with the one returned.
  pub data Ending : Type 0 where
    completed : NodeResult → Ending
    failed : E → E → Ending
    panicked : E → Ending

  pub data Event : Type 0 where
    call : ℕ → ℕ → Event
    advance : ℕ → Event
    outcome : ℕ → Ending → Event
    cancel : ℕ → Event
    clear : Event

abbrev pub after_drop : {V E : Type 0} → ℕ → Option (NodeResult V E) → Caller V E
after_drop k none = crashed
after_drop k (some r) = returned k r

module _ {V E : Type 0} {c : ValueStore V} where
  abbrev pub move : ℕ → Caller V E → System V E c → System V E c
  move t caller s = record s { callers = put_at t caller s.callers }

  -- The creator's guard is dropped.
  abbrev pub release : ℕ → Option (NodeResult V E) → System V E c → System V E c
  release i r s = record s { locks = put_at i (free r) s.locks }

  abbrev pub after_get : ℕ → ℕ → System V E c → Outcome (Option V × c.Store) → Option (System V E c)
  after_get t k s (done (some v, store)) =
      some (move t (returned k (ok v)) (record s { store = store }))
  after_get t k s (done (none, store)) = some (move t (missed k) (record s { store = store }))
  after_get t k s _ = none

  abbrev pub after_lookup : ℕ → ℕ → System V E c → Option ℕ → System V E c
  after_lookup t k s (some i) = move t (waiting k i) s
  after_lookup t k s none = move t (spawning k) s

  abbrev pub after_read : ℕ → ℕ → System V E c → Lock V E → Option (System V E c)
  after_read t k s held = none
  after_read t k s (free none) = some (move t (spawning k) s)
  after_read t k s (free (some r)) = some (move t (returned k r) s)

  abbrev pub after_set : ℕ → ℕ → ℕ → V → System V E c → Outcome c.Store → Option (System V E c)
  after_set t k i v s (done store) =
      some (move t (removing k i (ok v) (some (ok v))) (record s { store = store }))
  after_set t k i v s _ = none

  -- The next step of a caller, if it can take one by itself.
  unfoldable pub step : Caller V E → ℕ → System V E c → Option (System V E c)
  step (looking k) t s = after_get t k s (c.get k s.store)
  step (missed k) t s = some (after_lookup t k s (lookup k s.initializers))
  step (waiting k i) t s = after_read t k s (s.locks i)
  step (spawning k) t s = some (
      move t (computing k s.fresh) (record s {
        initializers = (k, s.fresh) ∷ remove k s.initializers;
        locks = put_at s.fresh held s.locks;
        fresh = suc s.fresh;
      }))
  step (storing k i v) t s = after_set t k i v s (c.set_value k v s.store)
  step (removing k i r back) t s =
      some (move t (finishing k i r back) (record s { initializers = remove k s.initializers }))
  step (finishing k i r back) t s = some (move t (after_drop k back) (release i (some r) s))
  step _ t s = none

  -- The future of the caller comes to its end.
  unfoldable pub resolve : Caller V E → ℕ → Ending V E → System V E c → Option (System V E c)
  resolve (computing k i) t (completed (ok v)) s = some (move t (storing k i v) s)
  resolve (computing k i) t (completed (err e)) s =
      some (move t (removing k i (err e) (some (err e))) s)
  resolve (computing k i) t (failed e e') s = some (move t (removing k i (err e) (some (err e'))) s)
  resolve (computing k i) t (panicked e) s = some (move t (removing k i (err e) none) s)
  resolve _ t ending s = none

  -- The caller's own future is dropped at an await, and a guard with it.
  unfoldable pub abandon : Caller V E → ℕ → System V E c → Option (System V E c)
  abandon idle t s = none
  abandon (returned k r) t s = none
  abandon crashed t s = none
  abandon (computing k i) t s = some (move t idle (release i none s))
  abandon (storing k i v) t s = some (move t idle (release i (some (ok v)) s))
  abandon (removing k i r back) t s = some (move t idle (release i (some r) s))
  abandon (finishing k i r back) t s = some (move t idle (release i (some r) s))
  abandon _ t s = some (move t idle s)

  unfoldable pub start : Caller V E → ℕ → ℕ → System V E c → Option (System V E c)
  start idle t k s = some (move t (looking k) s)
  start _ t k s = none

  unfoldable pub fire : Event V E → System V E c → Option (System V E c)
  unfolding start step resolve abandon
  fire (call t k) s = start (s.callers t) t k s
  fire (advance t) s = step (s.callers t) t s
  fire (outcome t ending) s = resolve (s.callers t) t ending s
  fire (cancel t) s = abandon (s.callers t) t s
  fire clear s = some (record s { store = c.clear s.store })

  -- Nothing is stored and nobody calls.
  unfoldable pub initial : c.Store → System V E c
  initial store = record {
    store = store;
    initializers = [];
    locks = λ _. free none;
    fresh = 0;
    callers = λ _. idle;
  }

module _ {V E : Type 0} (c : ValueStore V) where
  -- One event after another, as long as each can happen.
  unfoldable pub run : List (Event V E) → Option (System V E c) → Option (System V E c)
  run [] o = o
  run (event ∷ events) none = none
  run (event ∷ events) (some s) = run events (fire event s)

  pub run-none : (events : List (Event V E)) (s' : System V E c) → run events none ≡ some s' → ⊥
  unfolding run
  run-none [] s' ran = cc
  run-none (event ∷ events) s' ran = cc
