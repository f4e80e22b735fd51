-- ===== src/Expression/Parser/Within.antt =====
-- How many tokens a parse leaves: the rules for the steps of its `do` blocks.
use vegafusion.Expression.Parser.Atoms.{expect_token, skip_comma, remove_first, span_end}
use vegafusion.Expression.Result.{
  Result, Error, ok, err, panic, out_of_fuel, ◌>>=◌, unwrap, ok_or, or_err,
}
use vegafusion.Expression.Syntax.{Expression, expression}
use vegafusion.Expression.Token.{Token, Tokens, token_eq}
use vegafusion.Prelude.{
  ℕ, ◌-◌, ◌≤◌, Bool-cases, inl, inr, [], ◌∷◌, Option, none, some, length, arith,
}

module _ {F : Type 0} where
  -- The run kept within its fuel, and if it has a value, at most `n` tokens are left.
  abbrev pub Within {ℓ} : {A : Type ℓ} → ℕ → Result (A × Tokens F) → Type 0
  Within n (ok (_, rest)) = length rest ≤ n
  Within n (err _) = Unit
  Within n panic = Unit
  Within n out_of_fuel = ⊥

  abbrev pub WithinSome {ℓ} : {A : Type ℓ} → ℕ → Option (Result (A × Tokens F)) → Type 0
  WithinSome n none = Unit
  WithinSome n (some r) = Within n r

  module _ {A B : Type 0} where
    pub Within-bind :
        (n m : ℕ) (r : Result (A × Tokens F)) (f : A × Tokens F → Result (B × Tokens F))
        → Within n r
        → ((a : A) (rest : Tokens F) → length rest ≤ n → Within m (f (a, rest)))
        → Within m (r >>= f)
    Within-bind n m (ok (a, rest)) f h k = k a rest h
    Within-bind n m (err e) f h k = tt
    Within-bind n m panic f h k = tt
    Within-bind n m out_of_fuel f h k = absurd h

  module _ {A : Type 0} where
    pub Within-weaken : (n m : ℕ) (r : Result (A × Tokens F)) → n ≤ m → Within n r → Within m r
    Within-weaken n m (ok (a, rest)) h k = omega arith
    Within-weaken n m (err e) h k = tt
    Within-weaken n m panic h k = tt
    Within-weaken n m out_of_fuel h k = k

    pub Within-or_err :
        (n : ℕ) (e : Error) (r : Result (A × Tokens F)) → Within n r → Within n (or_err e r)
    Within-or_err n e (ok a) h = h
    Within-or_err n e (err _) h = tt
    Within-or_err n e panic h = tt
    Within-or_err n e out_of_fuel h = h

    pub Within-span_end :
        (m : ℕ) (e : Expression F) (f : ℕ → Result (A × Tokens F))
        → ((n : ℕ) → Within m (f n))
        → Within m (span_end e >>= f)
    unfolding span_end
    Within-span_end m (expression e none) f k = tt
    Within-span_end m (expression e (some span)) f k = k span.end

    pub Within-ok_or :
        {B : Type 0} (m : ℕ) (e : Error) (o : Option B) (f : B → Result (A × Tokens F))
        → ((b : B) → Within m (f b))
        → Within m (ok_or e o >>= f)
    Within-ok_or m e none f k = tt
    Within-ok_or m e (some b) f k = k b

    -- A token that is expected is taken away, whether its absence is an error or a panic.
    pub Within-expect_token :
        (m : ℕ) (expected : Token F) (tokens : Tokens F)
        (f : ℕ × ℕ × Tokens F → Result (A × Tokens F))
        → ((s e : ℕ) (rest : Tokens F)
            → length rest ≤ length tokens - 1
            → Within m (f (s, e, rest)))
        → Within m (expect_token expected tokens >>= f)
          × Within m (unwrap (expect_token expected tokens) >>= f)
    unfolding expect_token
    Within-expect_token m expected [] f k = (tt, tt)
    Within-expect_token m expected ((token, s, e) ∷ rest) f k =
        elim (Bool-cases (token_eq token expected)) [
          | inl h ↦ rw h (k s e rest (omega arith), k s e rest (omega arith))
          | inr h ↦ rw h (tt, tt)
        ]

    pub Within-remove_first :
        (m : ℕ) (tokens : Tokens F) (f : Tokens F → Result (A × Tokens F))
        → ((rest : Tokens F) → length rest ≤ length tokens - 1 → Within m (f rest))
        → Within m (remove_first tokens >>= f)
    unfolding remove_first
    Within-remove_first m [] f k = tt
    Within-remove_first m (_ ∷ rest) f k = k rest (omega arith)

  pub length-skip_comma-le : (tokens : Tokens F) → length (skip_comma tokens) ≤ length tokens
  unfolding skip_comma
  length-skip_comma-le [] = omega arith
  length-skip_comma-le ((token, s, e) ∷ rest) = elim (Bool-cases (token_eq token Token.comma)) [
    | inl h ↦ rw (h, skip_comma) (omega arith)
    | inr h ↦ rw (h, skip_comma) (omega arith)
  ]
