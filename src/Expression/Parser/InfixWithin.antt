-- ===== src/Expression/Parser/InfixWithin.antt =====
-- The same of the forms that extend an expression, and of the loop over them.
use vegafusion.Expression.Parser.Branches.{
  WithinSome-if, Within-elim, WithinSome-maybe, Within-round,
}
use vegafusion.Expression.Parser.FormsWithin.{parse_elements-Within}
use vegafusion.Expression.Parser.Atoms.{Parse}
use vegafusion.Expression.Parser.Forms.{parse_elements}
use vegafusion.Expression.Parser.Infix.{
  operand, parse_binary, parse_logical, parse_call, parse_computed_member, parse_static_member,
  parse_ternary, extend_form,
}
use vegafusion.Expression.Power.{
  infix_binding_power, logical_binding_power, ternary_binding_power, computed_member_bp,
}
use vegafusion.Expression.Parser.Parse.{extend}
use vegafusion.Expression.Parser.Within.{
  Within, WithinSome, Within-bind, Within-weaken, Within-or_err, Within-span_end, Within-ok_or,
  Within-expect_token, Within-remove_first,
}
use vegafusion.Expression.Result.{Error, or_err}
use vegafusion.Expression.Syntax.{Expression, Expr, as_identifier}
use vegafusion.Expression.Token.{
  Token, Tokens, token_eq, closes, binary_op_from_token, logical_op_from_token,
}
use vegafusion.Prelude.{ℕ, zero, suc, ◌-◌, ◌≤◌, ◌<◌, [], ◌∷◌, length, arith, ltb, leb}

-- `parse` does its work on up to `k` tokens.
module _ {F : Type 0} (parse : Parse F) (k : ℕ)
    (reads : (bp : ℕ) (tokens : Tokens F)
      → length tokens ≤ k
      → Within (length tokens - 1) (parse bp tokens)) where
  operand-Within :
      (node : Expression F → Expr F) (bp start : ℕ) (token : Token F × ℕ × ℕ) (rest : Tokens F)
      → length rest ≤ k
      → Within (length rest) (operand parse node bp start (token ∷ rest))
  unfolding operand
  operand-Within node bp start token rest h =
      Within-remove_first (length rest) (token ∷ rest) _ (λ t₁ h₁.
        Within-bind (length t₁ - 1) (length rest) (parse bp t₁) _ (reads bp t₁ (omega arith))
          (λ rhs t₂ h₂. Within-span_end (length rest) rhs _ (λ _. omega arith)))

  parse_call-Within :
      (fuel : ℕ) (lhs : Expression F) (bp start : ℕ) (token : Token F × ℕ × ℕ) (rest : Tokens F)
      → length rest ≤ k
      → length rest < fuel
      → WithinSome (length rest) (parse_call parse fuel lhs bp start (token ∷ rest))
  unfolding parse_call
  parse_call-Within fuel lhs bp start token rest h g =
      let n = length rest in
      WithinSome-maybe n (as_identifier lhs) _ _
        (λ name. WithinSome-if n (leb computed_member_bp bp) _ _ tt (
          (Within-expect_token n Token.open_paren (token ∷ rest) _ (λ _ _ t₁ h₁.
            Within-bind (length t₁) n (parse_elements parse Token.close_paren fuel t₁) _
              (parse_elements-Within parse k reads Token.close_paren fuel t₁ (omega arith)
                (omega arith))
              (λ es t₂ h₂.
                (Within-expect_token n Token.close_paren t₂ _ (λ _ _ _ last. omega arith)).1))).1))
        tt

  parse_member-Within :
      (lhs : Expression F) (bp start : ℕ) (token : Token F × ℕ × ℕ) (rest : Tokens F)
      → length rest ≤ k
      → WithinSome (length rest) (parse_computed_member parse lhs bp start (token ∷ rest))
        × WithinSome (length rest) (parse_static_member parse lhs bp start (token ∷ rest))
  unfolding parse_computed_member parse_static_member
  parse_member-Within lhs bp start token rest h =
      let n = length rest in
      (
        WithinSome-if n (leb computed_member_bp bp) _ _ tt (
            (Within-expect_token n Token.open_square (token ∷ rest) _ (λ _ _ t₁ h₁.
              Within-bind (length t₁ - 1) n (parse 10 t₁) _ (reads 10 t₁ (omega arith)) (λ e t₂ h₂.
                (Within-expect_token n Token.close_square t₂ _ (λ _ _ _ last. omega arith)).1))).1),
        WithinSome-if n (leb computed_member_bp bp) _ _ tt (
            (Within-expect_token n Token.dot (token ∷ rest) _ (λ _ _ t₁ h₁.
              Within-bind (length t₁ - 1) n (parse 10000 t₁) _ (reads 10000 t₁ (omega arith))
                (λ e t₂ h₂. Within-span_end n e _ (λ _.
                  Within-ok_or n Error.not_an_identifier (as_identifier e) _
                    (λ _. omega arith))))).1),
      )

  parse_ternary-Within :
      (lhs : Expression F) (bp start : ℕ) (token : Token F × ℕ × ℕ) (rest : Tokens F)
      → length rest ≤ k
      → WithinSome (length rest) (parse_ternary parse lhs bp start (token ∷ rest))
  unfolding parse_ternary
  parse_ternary-Within lhs bp start token rest h =
      let n = length rest in
      WithinSome-if n (leb ternary_binding_power.0 bp) _ _ tt (
        (Within-expect_token n Token.question (token ∷ rest) _ (λ _ _ t₁ h₁.
          Within-bind (length t₁ - 1) n
            (or_err Error.bad_consequent (parse ternary_binding_power.1 t₁)) _
            (Within-or_err (length t₁ - 1) Error.bad_consequent (parse ternary_binding_power.1 t₁)
              (reads ternary_binding_power.1 t₁ (omega arith)))
            (λ consequent t₂ h₂.
              (Within-expect_token n Token.colon t₂ _ (λ _ _ t₃ h₃.
                Within-bind (length t₃ - 1) n
                  (or_err Error.bad_alternate (parse ternary_binding_power.2 t₃)) _
                  (Within-or_err (length t₃ - 1) Error.bad_alternate
                    (parse ternary_binding_power.2 t₃)
                    (reads ternary_binding_power.2 t₃ (omega arith)))
                  (λ alternate t₄ h₄. Within-span_end n alternate _ (λ _. omega arith)))).1))).1)

  extend_form-Within :
      (fuel : ℕ) (token : Token F) (lhs : Expression F) (bp start s e : ℕ) (rest : Tokens F)
      → length rest ≤ k
      → length rest < fuel
      → WithinSome (length rest) (extend_form parse fuel token lhs bp start ((token, s, e) ∷ rest))
  unfolding extend_form parse_binary parse_logical
  extend_form-Within fuel token lhs bp start s e rest h g =
      let n = length rest in
      let here : Token F × ℕ × ℕ = (token, s, e) in
      WithinSome-maybe n (binary_op_from_token token) _ _
        (λ op.
          WithinSome-if n (ltb (infix_binding_power op).0 bp) _ _ tt
            (operand-Within _ (infix_binding_power op).1 start here rest h))
        (WithinSome-maybe n (logical_op_from_token token) _ _
          (λ op.
            WithinSome-if n (ltb (logical_binding_power op).0 bp) _ _ tt
              (operand-Within _ (logical_binding_power op).1 start here rest h))
          (WithinSome-if n (token_eq token Token.open_paren) _ _
            (parse_call-Within fuel lhs bp start here rest h g)
            (WithinSome-if n (token_eq token Token.open_square) _ _
              (parse_member-Within lhs bp start here rest h).0
              (WithinSome-if n (token_eq token Token.dot) _ _
                (parse_member-Within lhs bp start here rest h).1
                (WithinSome-if n (token_eq token Token.question) _ _
                  (parse_ternary-Within lhs bp start here rest h) tt)))))

  pub extend-Within :
      (fuel : ℕ) (lhs : Expression F) (bp : ℕ) (tokens : Tokens F)
      → length tokens ≤ k
      → length tokens < fuel
      → Within (length tokens) (extend parse fuel lhs bp tokens)
  unfolding extend
  extend-Within zero lhs bp tokens h g = absurd (omega arith)
  extend-Within (suc fuel) lhs bp [] h g = omega arith
  extend-Within (suc fuel) lhs bp ((token, s, e) ∷ rest) h g =
      let n = length rest in
      Within-elim (suc n) (closes token) _ _ (omega arith) (
        Within-round (suc n) n _ _ _ (omega arith)
          (extend_form-Within fuel token lhs bp s s e rest (omega arith) (omega arith))
          (λ new_lhs t₁ h₁.
            Within-weaken (length t₁) (suc n) (extend parse fuel new_lhs bp t₁) (omega arith)
              (extend-Within fuel new_lhs bp t₁ (omega arith) (omega arith))))
