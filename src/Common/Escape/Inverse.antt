-- ===== src/Common/Escape/Inverse.antt =====
-- `unescape_field` undoes `escape_field`.
use vegafusion.Common.Escape.{
  backslash, add_backslash, drop_backslash, escape_field, unescape_field,
}
use vegafusion.Prelude.{
  ℕ, Bool, true, false, ◌&&◌, List, [], ◌∷◌, ◌≡◌, ◌≢◌, refl, ap, ◌∙◌, arith, nat_beq, nat_beq_iff,
  Bool-cases, inl, inr, sym,
}

abbrev starts : ℕ → List ℕ → Bool
starts c [] = false
starts c (x ∷ _) = nat_beq x c

-- A character that begins no match stays.
drop_backslash-cons :
    (c x : ℕ) (s : List ℕ)
    → (nat_beq x backslash && starts c s) ≡ false
    → drop_backslash c (x ∷ s) ≡ x ∷ drop_backslash c s
unfolding drop_backslash
drop_backslash-cons c x [] h = refl
drop_backslash-cons c x (y ∷ s) h = rw h

add_backslash-cons :
    (c x : ℕ) (s : List ℕ) → nat_beq x c ≡ false → add_backslash c (x ∷ s) ≡ x ∷ add_backslash c s
unfolding add_backslash
add_backslash-cons c x s h = rw h

add_backslash_hit :
    (c x : ℕ) (s : List ℕ)
    → nat_beq x c ≡ true
    → add_backslash c (x ∷ s) ≡ backslash ∷ c ∷ add_backslash c s
unfolding add_backslash
add_backslash_hit c x s h = rw h

drop_backslash_hit :
    (c x y : ℕ) (s : List ℕ)
    → (nat_beq x backslash && nat_beq y c) ≡ true
    → drop_backslash c (x ∷ y ∷ s) ≡ c ∷ drop_backslash c s
unfolding drop_backslash
drop_backslash_hit c x y s h = rw h

-- What stands at the front after an escape.
starts-add_backslash_self :
    (c : ℕ) (s : List ℕ) → c ≢ backslash → starts c (add_backslash c s) ≡ false
unfolding add_backslash
starts-add_backslash_self c [] h = refl
starts-add_backslash_self c (x ∷ s) h = ground arith

starts-add_backslash :
    (a b : ℕ) (s : List ℕ)
    → a ≢ backslash
    → starts a s ≡ false
    → starts a (add_backslash b s) ≡ false
unfolding add_backslash
starts-add_backslash a b [] h k = refl
starts-add_backslash a b (x ∷ s) h k = ground arith

and_false : (p q : Bool) → q ≡ false → (p && q) ≡ false
and_false p q h = ground arith

and_later : (p q r : Bool) → (p && q) ≡ false → (q ≡ false → r ≡ false) → (p && r) ≡ false
and_later true q r h k = k h
and_later false q r h k = refl

drop_backslash-add_backslash :
    (c : ℕ) (s : List ℕ) → c ≢ backslash → drop_backslash c (add_backslash c s) ≡ s
unfolding drop_backslash add_backslash
drop_backslash-add_backslash c [] h = refl
drop_backslash-add_backslash c (x ∷ s) h =
    let rest = drop_backslash-add_backslash c s h in
    elim (Bool-cases (nat_beq x c)) [
      | inl hit ↦
          ap (drop_backslash c) (add_backslash_hit c x s hit)
          ∙ drop_backslash_hit c backslash c (add_backslash c s) (ground arith)
          ∙ ap (◌∷◌ c) rest
          ∙ ap (λ y. y ∷ s) (sym ((nat_beq_iff x c).0 hit))
      | inr other ↦
          ap (drop_backslash c) (add_backslash-cons c x s other)
          ∙ drop_backslash-cons c x (add_backslash c s) (
              and_false (nat_beq x backslash) (starts c (add_backslash c s))
                (starts-add_backslash_self c s h))
          ∙ ap (◌∷◌ x) rest
    ]

-- An escape and an unescape of two characters change places.
module _ (a b : ℕ) (a_plain : a ≢ backslash) (b_plain : b ≢ backslash) (differ : a ≢ b) where
  -- Where no match begins, by the rest of the text.
  apart_step :
      (x : ℕ) (s : List ℕ)
      → (nat_beq x backslash && starts a s) ≡ false
      → drop_backslash a (add_backslash b s) ≡ add_backslash b (drop_backslash a s)
      → drop_backslash a (add_backslash b (x ∷ s)) ≡ add_backslash b (drop_backslash a (x ∷ s))
  apart_step x s h rest = elim (Bool-cases (nat_beq x b)) [
    | inl hit ↦
        ap (drop_backslash a) (add_backslash_hit b x s hit)
        ∙ drop_backslash-cons a backslash (b ∷ add_backslash b s) (ground arith)
        ∙ ap (◌∷◌ backslash) (drop_backslash-cons a b (add_backslash b s) (ground arith))
        ∙ ap (λ t. backslash ∷ b ∷ t) rest
        ∙ sym (add_backslash_hit b x (drop_backslash a s) hit)
        ∙ ap (add_backslash b) (sym (drop_backslash-cons a x s h))
    | inr other ↦
        ap (drop_backslash a) (add_backslash-cons b x s other)
        ∙ drop_backslash-cons a x (add_backslash b s) (
            and_later (nat_beq x backslash) (starts a s) (starts a (add_backslash b s)) h
              (starts-add_backslash a b s a_plain))
        ∙ ap (◌∷◌ x) rest
        ∙ sym (add_backslash-cons b x (drop_backslash a s) other)
        ∙ ap (add_backslash b) (sym (drop_backslash-cons a x s h))
  ]

  drop_backslash-add_backslash_ne :
      (s : List ℕ) → drop_backslash a (add_backslash b s) ≡ add_backslash b (drop_backslash a s)
  unfolding drop_backslash add_backslash
  drop_backslash-add_backslash_ne [] = refl
  drop_backslash-add_backslash_ne (x ∷ []) = apart_step x [] (and_false _ false refl) refl
  drop_backslash-add_backslash_ne (x ∷ y ∷ s) =
      let rest = drop_backslash-add_backslash_ne s in
      let next = drop_backslash-add_backslash_ne (y ∷ s) in
      elim (Bool-cases (nat_beq x backslash && nat_beq y a)) [
        | inl hit ↦
            ap (drop_backslash a) (
              add_backslash-cons b x (y ∷ s) (ground arith)
              ∙ ap (◌∷◌ x) (add_backslash-cons b y s (ground arith)))
            ∙ drop_backslash_hit a x y (add_backslash b s) hit
            ∙ ap (◌∷◌ a) rest
            ∙ sym (add_backslash-cons b a (drop_backslash a s) (ground arith))
            ∙ ap (add_backslash b) (sym (drop_backslash_hit a x y s hit))
        | inr other ↦ apart_step x (y ∷ s) other next
      ]

-- Every text is its escaped form unescaped, also one with backslashes.
pub unescape_field-escape_field : (col : List ℕ) → unescape_field (escape_field col) ≡ col
unfolding unescape_field escape_field
unescape_field-escape_field col = simp (
  drop_backslash-add_backslash_ne b'\'' b'"' (omega arith) (omega arith) (omega arith),
  drop_backslash-add_backslash_ne b'\'' b'.' (omega arith) (omega arith) (omega arith),
  drop_backslash-add_backslash_ne b'\'' b'[' (omega arith) (omega arith) (omega arith),
  drop_backslash-add_backslash_ne b'\'' b']' (omega arith) (omega arith) (omega arith),
  drop_backslash-add_backslash_ne b'"' b'.' (omega arith) (omega arith) (omega arith),
  drop_backslash-add_backslash_ne b'"' b'[' (omega arith) (omega arith) (omega arith),
  drop_backslash-add_backslash_ne b'"' b']' (omega arith) (omega arith) (omega arith),
  drop_backslash-add_backslash_ne b'.' b'[' (omega arith) (omega arith) (omega arith),
  drop_backslash-add_backslash_ne b'.' b']' (omega arith) (omega arith) (omega arith),
  drop_backslash-add_backslash_ne b'[' b']' (omega arith) (omega arith) (omega arith),
  λ (s : List ℕ). drop_backslash-add_backslash b'\'' s (omega arith),
  λ (s : List ℕ). drop_backslash-add_backslash b'"' s (omega arith),
  λ (s : List ℕ). drop_backslash-add_backslash b'.' s (omega arith),
  λ (s : List ℕ). drop_backslash-add_backslash b'[' s (omega arith),
  λ (s : List ℕ). drop_backslash-add_backslash b']' s (omega arith),
)
