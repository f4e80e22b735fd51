-- ===== src/Cache/Flight/Heap.antt =====
-- Total maps from numbers: the initializers and the callers by their identity.
use vegafusion.Prelude.{
  ℕ, Bool, true, false, ◌≡◌, ◌≢◌, refl, subst, nat_beq, nat_beq_iff, if◌then◌else◌, arith,
}

module _ {A : Type 0} where
  abbrev pub put_at : ℕ → A → (ℕ → A) → ℕ → A
  put_at i a f j = if nat_beq i j then a else f j

  -- What holds of the new value at its place, and of the others, holds everywhere.
  pub put_at_elim :
      (P : ℕ → A → Type 0) (i : ℕ) (a : A) (f : ℕ → A)
      → P i a
      → ((j : ℕ) → i ≢ j → P j (f j))
      → (j : ℕ) → P j (put_at i a f j)
  put_at_elim P i a f h k j =
      by_test (nat_beq i j) (λ e. subst (λ j. P j a) ((nat_beq_iff i j).0 e) h)
        (λ e. k j (λ (same : i ≡ j). by_same e same))
    where
      by_test :
          (b : Bool) → (b ≡ true → P j a) → (b ≡ false → P j (f j)) → P j (if b then a else f j)
      by_test true h k = h refl
      by_test false h k = k refl

      by_same : nat_beq i j ≡ false → i ≡ j → ⊥
      by_same e same = ground arith

  pub put_at_self : (i : ℕ) (a : A) (f : ℕ → A) → put_at i a f i ≡ a
  put_at_self i a f = ground arith

  pub put_at_ne : (i j : ℕ) (a : A) (f : ℕ → A) → i ≢ j → put_at i a f j ≡ f j
  put_at_ne i j a f h = ground arith
