-- ===== src/Cache/Store.antt =====
-- What `get_or_try_insert_with` needs of the values that the cache holds, in calls that each hold
-- the locks of the two segments. `value` is the view: what a read of the key would return.
use vegafusion.Prelude.Outcome.{Outcome, done}
use vegafusion.Prelude.{ℕ, ◌≡◌, ◌⊎◌, Option, none, some}

pub record ValueStore (V : Type 0) : Type 1 where
  pub Store : Type 0
  pub IsSound : Store → Type 0
  pub value : ℕ → Store → Option V
  pub get : ℕ → Store → Outcome (Option V × Store)
  pub set_value : ℕ → V → Store → Outcome Store
  pub clear : Store → Store
  -- A read returns the value, and adds none.
  pub get_law :
      (k : ℕ) (s : Store)
      → IsSound s
      → (s' : Store) × (get k s ≡ done (value k s, s'))
        × IsSound s'
        × ((j : ℕ) (v : V) → value j s' ≡ some v → value j s ≡ some v)
  -- A write adds no value but its own.
  pub set_value_law :
      (k : ℕ) (w : V) (s : Store)
      → IsSound s
      → (s' : Store) × (set_value k w s ≡ done s')
        × IsSound s'
        × ((j : ℕ) (v : V) → value j s' ≡ some v → (value j s ≡ some v) ⊎ ((j ≡ k) × (v ≡ w)))
  pub clear_law : (s : Store) → IsSound s → IsSound (clear s) × ((j : ℕ) → value j (clear s) ≡ none)

abbrev pub IsEmpty : {V : Type 0} (c : ValueStore V) → c.Store → Type 0
IsEmpty c store = c.IsSound store × ((k : ℕ) → c.value k store ≡ none)
