-- ===== src/Cache/Flight/Ranks.antt =====
-- Every step of a caller takes it nearer to the end of its call.
use vegafusion.Cache.Flight.Heap.{put_at}
use vegafusion.Cache.Flight.Owners.{rank}
use vegafusion.Cache.Flight.Safety.{some_injective}
use vegafusion.Cache.Flight.System.{
  Caller, idle, looking, missed, waiting, spawning, computing, storing, removing, finishing,
  returned, crashed, Lock, held, free, System, Ending, completed, failed, panicked, after_get,
  after_lookup, after_read, after_set, step, resolve, abandon, start,
}
use vegafusion.Cache.Store.{ValueStore}
use vegafusion.Prelude.Assoc.{lookup}
use vegafusion.Prelude.Fallible.{ok, err}
use vegafusion.Prelude.Outcome.{Outcome, done, panic, out_of_fuel}
use vegafusion.Prelude.{ℕ, ◌<◌, ◌≡◌, refl, sym, ap, subst, Option, none, some, arith, nat_key}

module _ {V E : Type 0} (c : ValueStore V) where
  -- The caller alone moves, and gets nearer to its end.
  unfoldable pub Turned : ℕ → Caller V E → System V E c → System V E c → Type 0
  Turned t a s s' = (b : Caller V E) × (s'.callers ≡ put_at t b s.callers) × (rank b < rank a)

  get-Turned :
      (s s' : System V E c) (k t : ℕ) (o : Outcome (Option V × c.Store))
      → after_get t k s o ≡ some s'
      → Turned t (looking k) s s'
  unfolding Turned rank
  get-Turned s s' k t (done (some v, store)) ran =
      (returned k (ok v), ap (λ x. x.callers) (sym (some_injective ran)), omega arith)
  get-Turned s s' k t (done (none, store)) ran =
      (missed k, ap (λ x. x.callers) (sym (some_injective ran)), omega arith)
  get-Turned s s' k t panic ran = cc
  get-Turned s s' k t out_of_fuel ran = cc

  lookup-Turned :
      (s : System V E c) (k t : ℕ) (o : Option ℕ) → Turned t (missed k) s (after_lookup t k s o)
  unfolding Turned rank
  lookup-Turned s k t (some i) = (waiting k i, refl, omega arith)
  lookup-Turned s k t none = (spawning k, refl, omega arith)

  read-Turned :
      (s s' : System V E c) (k i t : ℕ) (l : Lock V E)
      → after_read t k s l ≡ some s'
      → Turned t (waiting k i) s s'
  unfolding Turned rank
  read-Turned s s' k i t held ran = cc
  read-Turned s s' k i t (free none) ran =
      (spawning k, ap (λ x. x.callers) (sym (some_injective ran)), omega arith)
  read-Turned s s' k i t (free (some r)) ran =
      (returned k r, ap (λ x. x.callers) (sym (some_injective ran)), omega arith)

  set-Turned :
      (s s' : System V E c) (k i t : ℕ) (v : V) (o : Outcome c.Store)
      → after_set t k i v s o ≡ some s'
      → Turned t (storing k i v) s s'
  unfolding Turned rank
  set-Turned s s' k i t v (done store) ran = (
    removing k i (ok v) (some (ok v)),
    ap (λ x. x.callers) (sym (some_injective ran)),
    omega arith,
  )
  set-Turned s s' k i t v panic ran = cc
  set-Turned s s' k i t v out_of_fuel ran = cc

  pub step-Turned :
      (a : Caller V E) (t : ℕ) (s s' : System V E c) → step a t s ≡ some s' → Turned t a s s'
  unfolding Turned rank step
  step-Turned (looking k) t s s' ran = get-Turned s s' k t (c.get k s.store) ran
  step-Turned (missed k) t s s' ran =
      subst (Turned t (missed k) s) (some_injective ran)
        (lookup-Turned s k t (lookup k s.initializers))
  step-Turned (waiting k i) t s s' ran = read-Turned s s' k i t (s.locks i) ran
  step-Turned (storing k i v) t s s' ran = set-Turned s s' k i t v (c.set_value k v s.store) ran
  step-Turned (spawning k) t s s' ran =
      (computing k s.fresh, ap (λ x. x.callers) (sym (some_injective ran)), omega arith)
  step-Turned (removing k i r back) t s s' ran =
      (finishing k i r back, ap (λ x. x.callers) (sym (some_injective ran)), omega arith)
  step-Turned (finishing k i r none) t s s' ran =
      (crashed, ap (λ x. x.callers) (sym (some_injective ran)), omega arith)
  step-Turned (finishing k i r (some back)) t s s' ran =
      (returned k back, ap (λ x. x.callers) (sym (some_injective ran)), omega arith)
  step-Turned (computing _ _) t s s' ran = cc
  step-Turned idle t s s' ran = cc
  step-Turned (returned _ _) t s s' ran = cc
  step-Turned crashed t s s' ran = cc

  pub resolve-Turned :
      (a : Caller V E) (t : ℕ) (ending : Ending V E) (s s' : System V E c)
      → resolve a t ending s ≡ some s'
      → Turned t a s s'
  unfolding Turned rank resolve
  resolve-Turned (computing k i) t (completed (ok v)) s s' ran =
      (storing k i v, ap (λ x. x.callers) (sym (some_injective ran)), omega arith)
  resolve-Turned (computing k i) t (completed (err e)) s s' ran = (
    removing k i (err e) (some (err e)),
    ap (λ x. x.callers) (sym (some_injective ran)),
    omega arith,
  )
  resolve-Turned (computing k i) t (failed e e') s s' ran = (
    removing k i (err e) (some (err e')),
    ap (λ x. x.callers) (sym (some_injective ran)),
    omega arith,
  )
  resolve-Turned (computing k i) t (panicked e) s s' ran =
      (removing k i (err e) none, ap (λ x. x.callers) (sym (some_injective ran)), omega arith)
  resolve-Turned idle t ending s s' ran = cc
  resolve-Turned (looking k) t ending s s' ran = cc
  resolve-Turned (missed k) t ending s s' ran = cc
  resolve-Turned (waiting k i) t ending s s' ran = cc
  resolve-Turned (spawning k) t ending s s' ran = cc
  resolve-Turned (storing k i v) t ending s s' ran = cc
  resolve-Turned (removing k i r back) t ending s s' ran = cc
  resolve-Turned (finishing k i r back) t ending s s' ran = cc
  resolve-Turned (returned k r) t ending s s' ran = cc
  resolve-Turned crashed t ending s s' ran = cc

  pub abandon-Turned :
      (a : Caller V E) (t : ℕ) (s s' : System V E c) → abandon a t s ≡ some s' → Turned t a s s'
  unfolding Turned rank abandon
  abandon-Turned idle t s s' ran = cc
  abandon-Turned (looking k) t s s' ran =
      (idle, ap (λ x. x.callers) (sym (some_injective ran)), omega arith)
  abandon-Turned (missed k) t s s' ran =
      (idle, ap (λ x. x.callers) (sym (some_injective ran)), omega arith)
  abandon-Turned (waiting k i) t s s' ran =
      (idle, ap (λ x. x.callers) (sym (some_injective ran)), omega arith)
  abandon-Turned (spawning k) t s s' ran =
      (idle, ap (λ x. x.callers) (sym (some_injective ran)), omega arith)
  abandon-Turned (computing k i) t s s' ran =
      (idle, ap (λ x. x.callers) (sym (some_injective ran)), omega arith)
  abandon-Turned (storing k i v) t s s' ran =
      (idle, ap (λ x. x.callers) (sym (some_injective ran)), omega arith)
  abandon-Turned (removing k i r back) t s s' ran =
      (idle, ap (λ x. x.callers) (sym (some_injective ran)), omega arith)
  abandon-Turned (finishing k i r back) t s s' ran =
      (idle, ap (λ x. x.callers) (sym (some_injective ran)), omega arith)
  abandon-Turned (returned k r) t s s' ran = cc
  abandon-Turned crashed t s s' ran = cc

  -- Another caller may start meanwhile.
  pub start_lem :
      (a : Caller V E) (t k : ℕ) (s s' : System V E c)
      → start a t k s ≡ some s'
      → s'.callers ≡ put_at t (looking k) s.callers
  unfolding start
  start_lem idle t k s s' ran = ap (λ x. x.callers) (sym (some_injective ran))
  start_lem (looking _) t k s s' ran = cc
  start_lem (missed _) t k s s' ran = cc
  start_lem (waiting _ _) t k s s' ran = cc
  start_lem (spawning _) t k s s' ran = cc
  start_lem (computing _ _) t k s s' ran = cc
  start_lem (storing _ _ _) t k s s' ran = cc
  start_lem (removing _ _ _ _) t k s s' ran = cc
  start_lem (finishing _ _ _ _) t k s s' ran = cc
  start_lem (returned _ _) t k s s' ran = cc
  start_lem crashed t k s s' ran = cc
