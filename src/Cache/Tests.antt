-- ===== src/Cache/Tests.antt =====
-- The properties of the cache at concrete inputs, over an LRU cache that is a list.
use vegafusion.Cache.Drift.{set_value-not-IsValid}
use vegafusion.Cache.Methods.{
  new, get, set_value, balance, shrink_protected, shrink_probationary, pop_protected_lru,
  pop_probationary_lru,
}
use vegafusion.Cache.Promote.{touched}
use vegafusion.Cache.Reads.{IsBounded, Read, get-Read}
use vegafusion.Cache.Recency.{IsValid, Drifted, stored, memory}
use vegafusion.Cache.Runs.{
  Call, get_call, set_call, clear_call, call, run, run-IsSound, run-size-le,
}
use vegafusion.Cache.State.{VegaFusionCache, Keeps}
use vegafusion.Cache.Words.{drift, protected_part, fetch_add, fetch_sub}
use vegafusion.Cache.Writes.{set_value_fresh, set_value_probationary}
use vegafusion.Prelude.Assoc.{lookup, remove, Distinct}
use vegafusion.Prelude.Outcome.{done, while}
use vegafusion.Prelude.{
  ℕ, ◌+◌, ◌≤◌, List, [], ◌∷◌, ◌≡◌, refl, none, some, arith, nat_key, Begins, length, inl, inr,
}
use vegafusion.Cache.ListLru.{list_lru, id_size, pop_last}

-- Capacity 4; the keys 1 and 2 protected, 3 probationary.
abbrev three : VegaFusionCache list_lru ℕ
three = record {
  protected_cache = (1, 10) ∷ (2, 20) ∷ [];
  probationary_cache = (3, 30) ∷ [];
  initializers = [];
  size = 3;
  protected_memory = 30;
  probationary_memory = 30;
  capacity = some 4;
  memory_limit = none;
}

three-IsValid : IsValid list_lru id_size three
unfolding memory lookup
three-IsValid = record {
  counted = record {
    distinct = (refl, (refl, (refl, tt)));
    protected_counted = refl;
    probationary_counted = refl;
  };
  sized = refl;
}

three-IsBounded : IsBounded list_lru three
unfolding protected_part
three-IsBounded = record {
  protected_capacity = inr (omega arith);
  protected_bytes = tt;
  probationary_capacity = inl (omega arith);
  probationary_bytes = tt;
}

get-Read_example :
    (s : VegaFusionCache list_lru ℕ) × (get list_lru id_size 3 three
      ≡ done (lookup 3 (stored list_lru three), s))
    × Read list_lru id_size 0 0 3 three s
get-Read_example = get-Read list_lru id_size 0 0 3 three three-IsValid

set_value_fresh_example :
    (s : VegaFusionCache list_lru ℕ) × (set_value list_lru id_size 5 50 three ≡ done s)
    × Drifted list_lru id_size 0 0 s
    × Begins (stored list_lru s) ((1, 10) ∷ (2, 20) ∷ (5, 50) ∷ (3, 30) ∷ [])
    × IsBounded list_lru s
    × Keeps three s
    × (s.protected_cache ≡ three.protected_cache)
    × (rest : List (ℕ × ℕ)) × (s.probationary_cache ≡ (5, 50) ∷ rest)
    × Begins rest ((3, 30) ∷ [])
unfolding lookup
set_value_fresh_example =
    set_value_fresh list_lru id_size 0 0 5 50 three three-IsValid three-IsBounded refl refl

-- The key 3 is probationary with the value 30; a write of 31 is lost.
lost_write :
    (s : VegaFusionCache list_lru ℕ) × (set_value list_lru id_size 3 31 three ≡ done s)
    × Drifted list_lru id_size (0 + drift 31 30) (0 + drift 30 31) s
    × Begins (stored list_lru s) (touched 3 (stored list_lru three))
    × IsBounded list_lru s
    × Keeps three s
    × (rest : List (ℕ × ℕ)) × (s.protected_cache ≡ (3, 30) ∷ rest)
unfolding lookup
lost_write = set_value_probationary list_lru id_size 0 0 3 31 three three-IsValid 30 refl refl

set_value_probationary_example :
    (s : VegaFusionCache list_lru ℕ) × (set_value list_lru id_size 3 31 three ≡ done s)
    × Drifted list_lru id_size (0 + drift 31 30) (0 + drift 30 31) s
    × Begins (stored list_lru s) (touched 3 (stored list_lru three))
    × IsBounded list_lru s
    × Keeps three s
    × (rest : List (ℕ × ℕ)) × (s.protected_cache ≡ (3, 30) ∷ rest)
unfolding lookup
set_value_probationary_example =
    set_value_probationary list_lru id_size 0 0 3 31 three three-IsValid 30 refl refl

set_value-not-IsValid_example : ¬ IsValid list_lru id_size lost_write.0
unfolding lookup stored
set_value-not-IsValid_example =
    set_value-not-IsValid list_lru id_size 3 31 30 three lost_write.0 three-IsValid refl
      (omega arith) lost_write.1

abbrev calls : List (Call ℕ)
calls =
    set_call 1 10
    ∷ set_call 2 20
    ∷ get_call 1
    ∷ set_call 2 21
    ∷ clear_call
    ∷ set_call 3 30
    ∷ set_call 4 40
    ∷ set_call 5 50
    ∷ []

ran_calls :
    (s : VegaFusionCache list_lru ℕ) × (run list_lru id_size calls
        (new list_lru id_size (some 4) none)
      ≡ done s)
    × Distinct (stored list_lru s)
    × (s.size ≡ length (stored list_lru s))
    × IsBounded list_lru s
    × (s.capacity ≡ some 4)
    × (s.memory_limit ≡ none)
ran_calls = run-IsSound list_lru id_size calls (some 4) none

run-IsSound_example :
    (s : VegaFusionCache list_lru ℕ) × (run list_lru id_size calls
        (new list_lru id_size (some 4) none)
      ≡ done s)
    × Distinct (stored list_lru s)
    × (s.size ≡ length (stored list_lru s))
    × IsBounded list_lru s
    × (s.capacity ≡ some 4)
    × (s.memory_limit ≡ none)
run-IsSound_example = run-IsSound list_lru id_size calls (some 4) none

run-size-le_example : (ran_calls.0.size ≤ 4) × (length (stored list_lru ran_calls.0) ≤ 4)
run-size-le_example =
    run-size-le list_lru id_size calls 4 none ran_calls.0 (omega arith) (omega arith) ran_calls.1

-- With capacity 4 the probationary segment holds two entries: the third write drops the oldest.
run_keys :
    run list_lru {Initializer = ℕ} id_size
      (set_call 1 10 ∷ set_call 2 20 ∷ set_call 3 30 ∷ [])
      (new list_lru id_size (some 4) none)
    ≡ done (record {
      protected_cache = [];
      probationary_cache = (3, 30) ∷ (2, 20) ∷ [];
      initializers = [];
      size = 2;
      protected_memory = 0;
      probationary_memory = 50;
      capacity = some 4;
      memory_limit = none;
    })
unfolding run call new set_value balance shrink_protected shrink_probationary pop_protected_lru
    pop_probationary_lru while lookup remove pop_last protected_part fetch_add fetch_sub
run_keys = refl
