-- ===== src/Cache/Flight/Safety.antt =====
-- A caller is given only values that a future came to for its own fingerprint.
use vegafusion.Cache.Flight.Heap.{put_at, put_at_elim, put_at_ne}
use vegafusion.Cache.Flight.System.{
  NodeResult, Caller, idle, looking, missed, waiting, spawning, computing, storing, removing,
  finishing, returned, crashed, Lock, free, System, move, release,
}
use vegafusion.Cache.Store.{ValueStore}
use vegafusion.Prelude.Assoc.{lookup, remove}
use vegafusion.Prelude.Fallible.{ok, err}
use vegafusion.Prelude.{ℕ, suc, ◌<◌, List, [], ◌∷◌, ◌≡◌, ◌∙◌, Option, none, some, arith, nat_key}

pub some_injective : {A : Type 0} {a b : A} → some a ≡ some b → a ≡ b
some_injective h = cc

-- Initializers that exist and are for the fingerprint under which they stand.
abbrev pub Named : (ℕ → ℕ) → ℕ → List (ℕ × ℕ) → Type 0
Named key n [] = Unit
Named key n ((k, i) ∷ m) = ((i < n) × (key i ≡ k)) × Named key n m

pub Named-lookup :
    (key : ℕ → ℕ) (n k i : ℕ) (m : List (ℕ × ℕ))
    → Named key n m
    → lookup k m ≡ some i
    → (i < n) × (key i ≡ k)
unfolding lookup
Named-lookup key n k i [] h e = cc
Named-lookup key n k i ((j, a) ∷ m) h e = ground (arith, Named-lookup key n k i m h.1)

pub Named-remove :
    (key : ℕ → ℕ) (n k : ℕ) (m : List (ℕ × ℕ)) → Named key n m → Named key n (remove k m)
unfolding remove
Named-remove key n k [] h = tt
Named-remove key n k ((j, a) ∷ m) h = ground (arith, Named-remove key n k m h.1)

-- Another initializer changes nothing of the others.
pub Named-put :
    (key : ℕ → ℕ) (n k : ℕ) (m : List (ℕ × ℕ)) → Named key n m → Named (put_at n k key) (suc n) m
Named-put key n k [] h = tt
Named-put key n k ((j, a) ∷ m) ((h, e), hs) =
    ((omega arith, put_at_ne n a k key (λ (same : n ≡ a). omega arith) ∙ e), Named-put key n k m hs)

grown : (key : ℕ → ℕ) (n i k j : ℕ) → (i < n) × (key i ≡ k) → (i < suc n) × (put_at n j key i ≡ k)
grown key n i k j (h, e) = (omega arith, put_at_ne n i j key (λ (same : n ≡ i). omega arith) ∙ e)

abbrev pub with_store : {V E : Type 0} {c : ValueStore V} → System V E c → c.Store → System V E c
with_store s store = record s { store = store }

module _ {V E : Type 0} (Good : ℕ → V → Type 0) where
  abbrev pub GoodResult : ℕ → NodeResult V E → Type 0
  GoodResult k (ok v) = Good k v
  GoodResult k (err e) = Unit

  abbrev pub GoodBack : ℕ → Option (NodeResult V E) → Type 0
  GoodBack k (some r) = GoodResult k r
  GoodBack k none = Unit

  abbrev pub GoodCaller : (ℕ → ℕ) → ℕ → Caller V E → Type 0
  GoodCaller key n (waiting k i) = (i < n) × (key i ≡ k)
  GoodCaller key n (computing k i) = (i < n) × (key i ≡ k)
  GoodCaller key n (storing k i v) = (i < n) × (key i ≡ k) × Good k v
  GoodCaller key n (removing k i r back) = (i < n) × (key i ≡ k) × GoodResult k r × GoodBack k back
  GoodCaller key n (finishing k i r back) = (i < n) × (key i ≡ k) × GoodResult k r × GoodBack k back
  GoodCaller key n (returned k r) = GoodResult k r
  GoodCaller key n _ = Unit

  abbrev pub GoodLock : (ℕ → ℕ) → ℕ → Lock V E → Type 0
  GoodLock key i (free (some r)) = GoodResult (key i) r
  GoodLock key i _ = Unit

  pub GoodCaller-put :
      (key : ℕ → ℕ) (n j : ℕ) (a : Caller V E)
      → GoodCaller key n a
      → GoodCaller (put_at n j key) (suc n) a
  GoodCaller-put key n j (waiting k i) h = grown key n i k j h
  GoodCaller-put key n j (computing k i) h = grown key n i k j h
  GoodCaller-put key n j (storing k i v) (h, e, g) =
      let (h', e') = grown key n i k j (h, e) in (h', e', g)
  GoodCaller-put key n j (removing k i r back) (h, e, g, b) =
      let (h', e') = grown key n i k j (h, e) in (h', e', g, b)
  GoodCaller-put key n j (finishing k i r back) (h, e, g, b) =
      let (h', e') = grown key n i k j (h, e) in (h', e', g, b)
  GoodCaller-put key n j (returned k r) h = h
  GoodCaller-put key n j idle h = tt
  GoodCaller-put key n j (looking k) h = tt
  GoodCaller-put key n j (missed k) h = tt
  GoodCaller-put key n j (spawning k) h = tt
  GoodCaller-put key n j crashed h = tt

  module _ (c : ValueStore V) where
    -- `key` says for which fingerprint an initializer was made.
    pub record IsSafe (s : System V E c) : Type 0 where
      pub key : ℕ → ℕ
      pub sound : c.IsSound s.store
      pub values : (k : ℕ) (v : V) → c.value k s.store ≡ some v → Good k v
      pub named : Named key s.fresh s.initializers
      pub locks : (i : ℕ) → i < s.fresh → GoodLock key i (s.locks i)
      pub callers : (t : ℕ) → GoodCaller key s.fresh (s.callers t)

    pub move-IsSafe :
        (s : System V E c) (h : IsSafe s) (t : ℕ) (a : Caller V E)
        → GoodCaller h.key s.fresh a
        → IsSafe (move t a s)
    move-IsSafe s h t a g = record {
      key = h.key;
      sound = h.sound;
      values = h.values;
      named = h.named;
      locks = h.locks;
      callers =
          put_at_elim (λ _ a. GoodCaller h.key s.fresh a) t a s.callers g (λ j _. h.callers j);
    }

    pub release-IsSafe :
        (s : System V E c) (h : IsSafe s) (t i : ℕ) (a : Caller V E) (r : Option (NodeResult V E))
        → GoodCaller h.key s.fresh a
        → GoodLock h.key i (free r)
        → IsSafe (move t a (release i r s))
    release-IsSafe s h t i a r g k = record {
      key = h.key;
      sound = h.sound;
      values = h.values;
      named = h.named;
      locks =
          put_at_elim (λ j x. j < s.fresh → GoodLock h.key j x) i (free r) s.locks (λ _. k)
            (λ j _. h.locks j);
      callers =
          put_at_elim (λ _ a. GoodCaller h.key s.fresh a) t a s.callers g (λ j _. h.callers j);
    }

    pub store-IsSafe :
        (s : System V E c) (h : IsSafe s) (store : c.Store)
        → c.IsSound store
        → ((k : ℕ) (v : V) → c.value k store ≡ some v → Good k v)
        → IsSafe (with_store s store)
    store-IsSafe s h store sound values = record {
      key = h.key;
      sound = sound;
      values = values;
      named = h.named;
      locks = h.locks;
      callers = h.callers;
    }
