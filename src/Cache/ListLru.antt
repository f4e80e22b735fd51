-- ===== src/Cache/ListLru.antt =====
-- A list as a least recently used cache: the laws of `LruCache` can hold.
use vegafusion.Cache.Lru.{LruCache}
use vegafusion.Prelude.Assoc.{lookup, remove}
use vegafusion.Prelude.{
  ℕ, List, [], ◌∷◌, ◌++◌, ◌≡◌, refl, Option, none, some, is_some, nat_key, length,
}

-- The last entry, and the others.
unfoldable pub pop_last {ℓ} : {V : Type ℓ} → List (ℕ × V) → Option (ℕ × V × List (ℕ × V))
pop_last [] = none
pop_last ((k, v) ∷ l) = elim (pop_last l) [
  | none ↦ some (k, v, l)
  | some (j, w, m) ↦ some (j, w, (k, v) ∷ m)
]

pub pop_last_append :
    {V : Type 0} (xs : List (ℕ × V)) (k : ℕ) (v : V)
    → pop_last (xs ++ (k, v) ∷ []) ≡ some (k, v, xs)
unfolding pop_last
pop_last_append [] k v = refl
pop_last_append (x ∷ xs) k v = rw (pop_last_append xs k v)

pub pop_last_law :
    {V : Type 0} (c xs : List (ℕ × V)) (k : ℕ) (v : V)
    → c ≡ xs ++ (k, v) ∷ []
    → (rest : List (ℕ × V)) × (pop_last c ≡ some (k, v, rest)) × (rest ≡ xs)
pop_last_law c xs k v h = (xs, rw h (pop_last_append xs k v), refl)

abbrev pub touch : ℕ → Option ℕ → List (ℕ × ℕ) → List (ℕ × ℕ)
touch k none c = c
touch k (some v) c = (k, v) ∷ remove k c

pub touch_law :
    (k : ℕ) (c : List (ℕ × ℕ)) (v : ℕ)
    → lookup k c ≡ some v
    → touch k (lookup k c) c ≡ (k, v) ∷ remove k c
touch_law k c v h = rw h

abbrev pub list_lru : LruCache ℕ
list_lru = record {
  Carrier = List (ℕ × ℕ);
  entries = λ c. c;
  unbounded = [];
  unbounded_law = refl;
  clear = λ c. [];
  clear_law = λ c. refl;
  len = length;
  len_law = λ c. refl;
  contains = λ k c. is_some (lookup k c);
  contains_law = λ k c. refl;
  get = λ k c. (lookup k c, touch k (lookup k c) c);
  get_value = λ k c. refl;
  get_entries = touch_law;
  put = λ k v c. (k, v) ∷ remove k c;
  put_entries = λ k v c. refl;
  pop = λ k c. (lookup k c, remove k c);
  pop_value = λ k c. refl;
  pop_entries = λ k c. refl;
  pop_lru = pop_last;
  pop_lru_last = pop_last_law;
}

-- A value is its own size.
abbrev pub id_size : ℕ → ℕ
id_size n = n
