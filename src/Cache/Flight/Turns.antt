-- ===== src/Cache/Flight/Turns.antt =====
-- The length of a call: a caller makes at most eight steps for it.
use vegafusion.Cache.Flight.Heap.{put_at_elim, put_at_ne}
use vegafusion.Cache.Flight.System.{run, run-none}
use vegafusion.Cache.Flight.Ranks.{Turned, step-Turned, resolve-Turned, abandon-Turned, start_lem}
use vegafusion.Cache.Flight.Owners.{rank}
use vegafusion.Cache.Flight.Safety.{some_injective}
use vegafusion.Cache.Flight.System.{
  Caller, idle, looking, missed, waiting, spawning, computing, storing, removing, finishing,
  returned, crashed, System, Event, call, advance, outcome, cancel, clear, fire,
}
use vegafusion.Cache.Store.{ValueStore}
use vegafusion.Prelude.{
  ℕ, ◌≤◌, ◌+◌, if◌then◌else◌, nat_beq, List, [], ◌∷◌, ◌≡◌, ◌≢◌, refl, sym, ap, subst, ◌∙◌, Option,
  none, some, arith, nat_key,
}

module _ {V E : Type 0} where
  -- The steps that a caller makes in a run, the end of its future and its own cancellation included.
  unfoldable pub turn : ℕ → Event V E → ℕ
  turn t (advance u) = if nat_beq u t then 1 else 0
  turn t (outcome u _) = if nat_beq u t then 1 else 0
  turn t (cancel u) = if nat_beq u t then 1 else 0
  turn t _ = 0

  unfoldable pub turns : ℕ → List (Event V E) → ℕ
  turns t [] = 0
  turns t (event ∷ events) = turn t event + turns t events

  -- The caller makes no new call.
  unfoldable pub NoCall : ℕ → List (Event V E) → Type 0
  NoCall t [] = Unit
  NoCall t (call u _ ∷ events) = (u ≢ t) × NoCall t events
  NoCall t (_ ∷ events) = NoCall t events

  rank_bounds : (a : Caller V E) → rank a ≤ 8
  unfolding rank
  rank_bounds idle = omega arith
  rank_bounds (looking k) = omega arith
  rank_bounds (missed k) = omega arith
  rank_bounds (waiting k i) = omega arith
  rank_bounds (spawning k) = omega arith
  rank_bounds (computing k i) = omega arith
  rank_bounds (storing k i v) = omega arith
  rank_bounds (removing k i r back) = omega arith
  rank_bounds (finishing k i r back) = omega arith
  rank_bounds (returned k r) = omega arith
  rank_bounds crashed = omega arith

module _ {V E : Type 0} (c : ValueStore V) where
  Turned-rank :
      (s s' : System V E c) (t u : ℕ)
      → Turned c t (s.callers t) s s'
      → (if nat_beq t u then 1 else 0) + rank (s'.callers u) ≤ rank (s.callers u)
  unfolding Turned
  Turned-rank s s' t u (b, callers, smaller) =
      subst (λ f. (if nat_beq t u then 1 else 0) + rank (f u) ≤ rank (s.callers u)) (sym callers)
        (put_at_elim (λ u a. (if nat_beq t u then 1 else 0) + rank a ≤ rank (s.callers u)) t b
          s.callers (ground arith) (λ u other. ground arith) u)

  turn-rank :
      (t : ℕ) (event : Event V E) (events : List (Event V E)) (s s' : System V E c)
      → NoCall t (event ∷ events)
      → fire event s ≡ some s'
      → turn t event + rank (s'.callers t) ≤ rank (s.callers t)
  unfolding turn NoCall fire
  turn-rank t (call u k) events s s' quiet ran =
      let same =
        ap (λ f. f t) (start_lem c (s.callers u) u k s s' ran)
        ∙ put_at_ne u t (looking k) s.callers quiet.0 in
      omega (arith, ap rank same)
  turn-rank t (advance u) events s s' quiet ran =
      Turned-rank s s' u t (step-Turned c (s.callers u) u s s' ran)
  turn-rank t (outcome u ending) events s s' quiet ran =
      Turned-rank s s' u t (resolve-Turned c (s.callers u) u ending s s' ran)
  turn-rank t (cancel u) events s s' quiet ran =
      Turned-rank s s' u t (abandon-Turned c (s.callers u) u s s' ran)
  turn-rank t clear events s s' quiet ran =
      omega (arith, ap (λ x. rank (x.callers t)) (some_injective ran))

  NoCall-tail :
      (t : ℕ) (event : Event V E) (events : List (Event V E))
      → NoCall t (event ∷ events)
      → NoCall t events
  unfolding NoCall
  NoCall-tail t (call _ _) events quiet = quiet.1
  NoCall-tail t (advance _) events quiet = quiet
  NoCall-tail t (outcome _ _) events quiet = quiet
  NoCall-tail t (cancel _) events quiet = quiet
  NoCall-tail t clear events quiet = quiet

  turns-rank :
      (t : ℕ) (events : List (Event V E)) (s s' : System V E c)
      → NoCall t events
      → run c events (some s) ≡ some s'
      → turns t events + rank (s'.callers t) ≤ rank (s.callers t)
  unfolding turns run
  turns-rank t [] s s' quiet ran = omega (arith, ap (λ x. rank (x.callers t)) (some_injective ran))
  turns-rank t (event ∷ events) s s' quiet ran =
      by_result (fire event s) refl ran
        (λ middle. turns-rank t events middle s' (NoCall-tail t event events quiet))
    where
      by_result :
          (o : Option (System V E c))
          → fire event s ≡ o
          → run c events o ≡ some s'
          → ((middle : System V E c)
              → run c events (some middle) ≡ some s'
              → turns t events + rank (s'.callers t) ≤ rank (middle.callers t))
          → turn t event + turns t events + rank (s'.callers t) ≤ rank (s.callers t)
      by_result none e ran rest = absurd (run-none c events s' ran)
      by_result (some middle) e ran rest =
          omega (arith, turn-rank t event events s middle quiet e, rest middle ran)

  -- In every run, in any order of the callers' steps, a caller that makes no new call meanwhile makes
  -- at most eight steps, the end of its future included, and as many less as remain to it at the
  -- end.
  pub turns_bounds :
      (t : ℕ) (events : List (Event V E)) (s s' : System V E c)
      → NoCall t events
      → run c events (some s) ≡ some s'
      → turns t events + rank (s'.callers t) ≤ 8
  turns_bounds t events s s' quiet ran =
      omega (arith, turns-rank t events s s' quiet ran, rank_bounds (s.callers t))
