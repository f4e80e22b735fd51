-- ===== src/Expression/Parser/Fuel.antt =====
-- A unit of fuel for each token and one more is enough for `perform_parse`, on any tokens; and what
-- it parses takes at least one token.
use vegafusion.Expression.Parser.FormsWithin.{parse_form-Within}
use vegafusion.Expression.Parser.InfixWithin.{extend-Within}
use vegafusion.Expression.Parser.Forms.{parse_form}
use vegafusion.Expression.Parser.Parse.{extend, perform_parse, parse_tokens, finish}
use vegafusion.Expression.Parser.Within.{Within, Within-bind, Within-weaken}
use vegafusion.Expression.Result.{Result, ok, err, panic, out_of_fuel, ◌>>=◌}
use vegafusion.Expression.Syntax.{Expression}
use vegafusion.Expression.Token.{Tokens}
use vegafusion.Prelude.{ℕ, zero, suc, ◌-◌, ◌≤◌, ◌<◌, ◌≡◌, ◌≢◌, refl, subst, [], ◌∷◌, length, arith}

module _ {F : Type 0} where
  perform_parse-Within :
      (fuel bp : ℕ) (tokens : Tokens F)
      → length tokens < fuel
      → Within (length tokens - 1) (perform_parse fuel bp tokens)
  unfolding perform_parse
  perform_parse-Within zero bp tokens h = absurd (omega arith)
  perform_parse-Within (suc fuel) bp [] h = tt
  perform_parse-Within (suc fuel) bp ((token, s, e) ∷ rest) h =
      let n = length rest in
      let reads = λ (bp : ℕ) (tokens : Tokens F) (less : length tokens ≤ n).
        perform_parse-Within fuel bp tokens (omega arith) in
      Within-weaken n (suc n - 1) (perform_parse (suc fuel) bp ((token, s, e) ∷ rest)) (omega arith)
        (Within-bind n n (parse_form (perform_parse fuel) fuel token s e rest) _
          (parse_form-Within (perform_parse fuel) n reads fuel token s e rest (omega arith)
            (omega arith))
          (λ lhs t₁ h₁.
            Within-weaken (length t₁) n (extend (perform_parse fuel) fuel lhs bp t₁) h₁
              (extend-Within (perform_parse fuel) n reads fuel lhs bp t₁ h₁ (omega arith))))

  -- With a unit of fuel for each token and one more, `perform_parse` ends on any tokens and at any
  -- binding power.
  pub perform_parse-ne-out_of_fuel :
      (fuel bp : ℕ) (tokens : Tokens F)
      → length tokens < fuel
      → perform_parse fuel bp tokens ≢ out_of_fuel
  perform_parse-ne-out_of_fuel fuel bp tokens h e =
      subst (Within (length tokens - 1)) e (perform_parse-Within fuel bp tokens h)

  -- With more fuel than tokens, an expression that `perform_parse` returns took at least one token.
  pub perform_parse-takes :
      (fuel bp : ℕ) (tokens rest : Tokens F) (e : Expression F)
      → length tokens < fuel
      → perform_parse fuel bp tokens ≡ ok (e, rest)
      → length rest < length tokens
  unfolding perform_parse
  perform_parse-takes zero bp tokens rest e h r = absurd (omega arith)
  perform_parse-takes (suc fuel) bp [] rest e h r = cc
  perform_parse-takes (suc fuel) bp (token ∷ tokens) rest e h r =
      let w : length rest ≤ suc (length tokens) - 1 =
        subst (Within (suc (length tokens) - 1)) r
          (perform_parse-Within (suc fuel) bp (token ∷ tokens) h) in
      omega (arith, w)

  finish-ne-out_of_fuel : (r : Expression F × Tokens F) → finish r ≢ out_of_fuel
  unfolding finish
  finish-ne-out_of_fuel (e, []) = cc
  finish-ne-out_of_fuel (e, _ ∷ _) = cc

  -- The parser ends on every list of tokens, with an expression, an error or a panic.
  pub parse_tokens-ends : (tokens : Tokens F) → parse_tokens tokens ≢ out_of_fuel
  unfolding parse_tokens
  parse_tokens-ends tokens =
      ends (perform_parse (suc (length tokens)) 0 tokens)
        (perform_parse-ne-out_of_fuel (suc (length tokens)) 0 tokens (omega arith))
    where
      ends : (r : Result (Expression F × Tokens F)) → r ≢ out_of_fuel → (r >>= finish) ≢ out_of_fuel
      ends (ok a) h = finish-ne-out_of_fuel a
      ends (err _) h = cc
      ends panic h = cc
      ends out_of_fuel h = absurd (h refl)
