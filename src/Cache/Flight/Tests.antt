-- ===== src/Cache/Flight/Tests.antt =====
-- Two callers that ask a cache of 4 values for the fingerprint 7, one after the other.
use vegafusion.Cache.Flight.Owners.{rank}
use vegafusion.Cache.Flight.Progress.{GoesOn, WaitsFor, GoesOn-Reached}
use vegafusion.Cache.Flight.Reached.{Reached, begun, AllAllowed, run-Reached, returned-Reached}
use vegafusion.Cache.Flight.System.{
  System, Event, call, advance, outcome, completed, waiting, returned, initial, run, fire,
}
use vegafusion.Cache.Flight.Turns.{turns, turns_bounds, NoCall}
use vegafusion.Cache.Methods.{
  new, get, set_value, balance, shrink_protected, shrink_probationary, pop_protected_lru,
  pop_probationary_lru,
}
use vegafusion.Cache.Words.{protected_part, fetch_add, fetch_sub}
use vegafusion.Prelude.Outcome.{while}
use vegafusion.Prelude.Assoc.{lookup, remove}
use vegafusion.Cache.Flight.System.{start, step, resolve}
use vegafusion.Cache.Store.{ValueStore, IsEmpty}
use vegafusion.Cache.StoreImpl.{segmented, new_store, new_store-IsEmpty}
use vegafusion.Cache.ListLru.{list_lru, id_size, pop_last}
use vegafusion.Prelude.Fallible.{ok}
use vegafusion.Prelude.{
  ℕ, ◌+◌, ◌*◌, ◌≤◌, ◌<◌, List, [], ◌∷◌, ◌++◌, ◌≡◌, ◌⊎◌, refl, Option, none, some, arith,
}

abbrev four : ValueStore ℕ
four = segmented list_lru ℕ id_size

-- The value of a fingerprint is ten times as large.
abbrev Tenfold : ℕ → ℕ → Type 0
Tenfold k v = v ≡ k * 10

-- The first caller misses and computes; the second finds its initializer.
abbrev meeting : List (Event ℕ ℕ)
meeting = call 0 7 ∷ advance 0 ∷ advance 0 ∷ advance 0 ∷ call 1 7 ∷ advance 1 ∷ advance 1 ∷ []

-- The future of the first caller ends, and both return.
abbrev parting : List (Event ℕ ℕ)
parting = outcome 0 (completed (ok 70)) ∷ advance 0 ∷ advance 0 ∷ advance 0 ∷ advance 1 ∷ []

abbrev start_of : System ℕ ℕ four
start_of = initial (new_store list_lru ℕ id_size (some 4) none)

abbrev state_of : Option (System ℕ ℕ four) → System ℕ ℕ four
state_of (some s) = s
state_of none = start_of

abbrev met : System ℕ ℕ four
met = state_of (run four meeting (some start_of))

abbrev parted : System ℕ ℕ four
parted = state_of (run four (meeting ++ parting) (some start_of))

begin_store-IsEmpty : IsEmpty four start_of.store
unfolding initial
begin_store-IsEmpty = new_store-IsEmpty list_lru ℕ id_size (some 4) none

met_waits : met.callers 1 ≡ waiting 7 0
unfolding run fire start step resolve segmented new_store initial get lookup new
met_waits = refl

met_ran : run four meeting (some start_of) ≡ some met
unfolding run fire start step resolve segmented new_store initial get lookup new
met_ran = refl

met-Reached : Reached Tenfold four start_of.store met
unfolding run fire start step resolve segmented new_store initial get lookup new AllAllowed
met-Reached =
    run-Reached Tenfold four start_of.store meeting start_of met begun
      (tt, (tt, (tt, (tt, (tt, (tt, (tt, tt))))))) met_ran

parting_ran : run four parting (some met) ≡ some parted
unfolding run fire start step resolve segmented new_store initial get lookup new set_value balance
    shrink_protected shrink_probationary pop_protected_lru pop_probationary_lru while remove
    pop_last protected_part fetch_add fetch_sub
parting_ran = refl

parted_returned : parted.callers 1 ≡ returned 7 (ok 70)
unfolding run fire start step resolve segmented new_store initial get lookup new set_value balance
    shrink_protected shrink_probationary pop_protected_lru pop_probationary_lru while remove
    pop_last protected_part fetch_add fetch_sub
parted_returned = refl

parted-Reached : Reached Tenfold four start_of.store parted
unfolding run fire start step resolve segmented new_store initial get lookup new set_value balance
    shrink_protected shrink_probationary pop_protected_lru pop_probationary_lru while remove
    pop_last protected_part fetch_add fetch_sub AllAllowed
parted-Reached =
    run-Reached Tenfold four start_of.store parting met parted met-Reached
      (refl, (tt, (tt, (tt, (tt, tt))))) parting_ran

returned-Reached_example : Tenfold 7 70
returned-Reached_example =
    returned-Reached Tenfold four start_of.store parted 1 7 70 begin_store-IsEmpty parted-Reached
      parted_returned

met_busy : 0 < rank (met.callers 1)
unfolding rank
met_busy = rw met_waits (omega arith)

GoesOn-Reached_example : GoesOn four 1 met ⊎ ((u : ℕ) × WaitsFor four 1 u met × GoesOn four u met)
GoesOn-Reached_example =
    GoesOn-Reached four Tenfold start_of.store met 1 begin_store-IsEmpty met-Reached met_busy

parting-NoCall : NoCall 1 parting
unfolding NoCall
parting-NoCall = tt

turns_bounds_example : turns 1 parting + rank (parted.callers 1) ≤ 8
turns_bounds_example = turns_bounds four 1 parting met parted parting-NoCall parting_ran
