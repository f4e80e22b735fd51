-- ===== src/Graph/Agree.antt =====
-- Lists that have the same entries at a set of indices.
use vegafusion.Graph.Changes.{at_index}
use vegafusion.Prelude.{
  ℕ, zero, suc, ◌+◌, Bool, true, false, List, [], ◌∷◌, ◌++◌, ◌≡◌, refl, ap, sym, ◌∙◌, arith,
  get_elem?, length, set, some,
}

module _ {A : Type 0} (p : ℕ → Bool) where
  -- Two lists of one length, with the same entries at the indices of the set.
  abbrev pub Agree : ℕ → List A → List A → Type 0
  Agree k [] [] = Unit
  Agree k (x ∷ xs) (y ∷ ys) = (p k ≡ true → x ≡ y) × Agree (suc k) xs ys
  Agree k _ _ = ⊥

  pub Agree-self : (k : ℕ) (xs : List A) → Agree k xs xs
  Agree-self k [] = tt
  Agree-self k (x ∷ xs) = ((λ _. refl), Agree-self (suc k) xs)

  pub Agree-get :
      (k i : ℕ) (xs ys : List A)
      → Agree k xs ys
      → p (k + i) ≡ true
      → get_elem? xs i ≡ get_elem? ys i
  Agree-get k i [] [] h q = refl
  Agree-get k i [] (y ∷ ys) h q = elim h [ ]
  Agree-get k zero (x ∷ xs) [] h q = elim h [ ]
  Agree-get k (suc i) (x ∷ xs) [] h q = elim h [ ]
  Agree-get k zero (x ∷ xs) (y ∷ ys) (h, hs) q =
      ap some (h (at_index (λ j. p j ≡ true) (k + 0) k (omega arith) q))
  Agree-get k (suc i) (x ∷ xs) (y ∷ ys) (h, hs) q =
      Agree-get (suc k) i xs ys hs
        (at_index (λ j. p j ≡ true) (k + suc i) (suc k + i) (omega arith) q)

  pub Agree-append :
      (k : ℕ) (xs ys : List A) (x y : A)
      → Agree k xs ys
      → (p (k + length xs) ≡ true → x ≡ y)
      → Agree k (xs ++ x ∷ []) (ys ++ y ∷ [])
  Agree-append k [] [] x y h q =
      ((λ r. q (at_index (λ j. p j ≡ true) k (k + 0) (omega arith) r)), tt)
  Agree-append k [] (b ∷ ys) x y h q = elim h [ ]
  Agree-append k (a ∷ xs) [] x y h q = elim h [ ]
  Agree-append k (a ∷ xs) (b ∷ ys) x y (h, hs) q = (
    h,
    Agree-append (suc k) xs ys x y hs (λ r.
        q (at_index (λ j. p j ≡ true) (suc k + length xs) (k + suc (length xs)) (omega arith) r)),
  )

  pub Agree-set : (k i : ℕ) (xs : List A) (x : A) → p (k + i) ≡ false → Agree k xs (set xs i x)
  Agree-set k i [] x q = tt
  Agree-set k zero (a ∷ xs) x q = (
    (λ r. absurd (apart (sym r ∙ at_index (λ j. p j ≡ false) (k + 0) k (omega arith) q))),
    Agree-self (suc k) xs,
  )
    where
      apart : true ≡ false → ⊥
      apart h = cc
  Agree-set k (suc i) (a ∷ xs) x q = (
    (λ _. refl),
    Agree-set (suc k) i xs x (at_index (λ j. p j ≡ false) (k + suc i) (suc k + i) (omega arith) q),
  )
