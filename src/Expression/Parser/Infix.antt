-- ===== src/Expression/Parser/Infix.antt =====
-- The forms that extend an expression to the right, over `perform_parse` at less fuel. `none` means
-- that the operator binds too weakly here, and leaves the tokens as they are.
use vegafusion.Expression.Parser.Atoms.{Parse, expect_token, remove_first, span_end, spanned}
use vegafusion.Expression.Parser.Forms.{parse_elements}
use vegafusion.Expression.Power.{
  infix_binding_power, logical_binding_power, ternary_binding_power, computed_member_bp,
}
use vegafusion.Expression.Result.{Result, Error, ok, err, ◌>>=◌, unwrap, ok_or, or_err}
use vegafusion.Expression.Syntax.{
  as_i32, LogicalOperator, BinaryOperator, Expression, Expr, as_identifier,
}
use vegafusion.Expression.Token.{
  Token, Tokens, binary_op_from_token, logical_op_from_token, token_eq,
}
use vegafusion.Prelude.{ℕ, true, false, Option, none, some, ltb, leb, if◌then◌else◌}

module _ {F : Type 0} (parse : Parse F) where
  -- What `parse_binary` and `parse_logical` do once they commit to the operator.
  unfoldable pub operand :
      (Expression F → Expr F) → ℕ → ℕ → Tokens F → Result (Expression F × Tokens F)
  operand node right_bp start tokens = do
    rest ← remove_first tokens
    (rhs, rest') ← parse right_bp rest
    end ← span_end rhs
    ok (spanned (node rhs) start end, rest')

  unfoldable pub parse_binary :
      BinaryOperator → Expression F → ℕ → ℕ → Tokens F → Option (Result (Expression F × Tokens F))
  unfolding operand
  parse_binary op lhs min_bp start tokens =
      if ltb (infix_binding_power op).0 min_bp
      then none
      else some (operand (λ rhs. Expr.binary lhs op rhs) (infix_binding_power op).1 start tokens)

  unfoldable pub parse_logical :
      LogicalOperator → Expression F → ℕ → ℕ → Tokens F → Option (Result (Expression F × Tokens F))
  unfolding operand
  parse_logical op lhs min_bp start tokens =
      if ltb (logical_binding_power op).0 min_bp
      then none
      else some (operand (λ rhs. Expr.logical lhs op rhs) (logical_binding_power op).1 start tokens)

  unfoldable pub parse_call :
      ℕ → Expression F → ℕ → ℕ → Tokens F → Option (Result (Expression F × Tokens F))
  parse_call fuel lhs min_bp start tokens = elim (as_identifier lhs) [
    | none ↦ some (err Error.not_callable)
    | some name ↦
        if leb computed_member_bp min_bp
        then none
        else some do
          (_, _, rest) ← unwrap (expect_token Token.open_paren tokens)
          (arguments, rest') ← parse_elements parse Token.close_paren fuel rest
          (_, end, rest₂) ← unwrap (expect_token Token.close_paren rest')
          ok (spanned (Expr.call name arguments) start (as_i32 end), rest₂)
  ]

  unfoldable pub parse_computed_member :
      Expression F → ℕ → ℕ → Tokens F → Option (Result (Expression F × Tokens F))
  parse_computed_member lhs min_bp start tokens =
      if leb computed_member_bp min_bp
      then none
      else some do
        (_, _, rest) ← unwrap (expect_token Token.open_square tokens)
        (property, rest') ← parse 10 rest
        (_, end, rest₂) ← unwrap (expect_token Token.close_square rest')
        ok (spanned (Expr.member lhs property true) start (as_i32 end), rest₂)

  -- `MemberExpression::new_static` wants an identifier.
  unfoldable pub parse_static_member :
      Expression F → ℕ → ℕ → Tokens F → Option (Result (Expression F × Tokens F))
  parse_static_member lhs min_bp start tokens =
      if leb computed_member_bp min_bp
      then none
      else some do
        (_, _, rest) ← unwrap (expect_token Token.dot tokens)
        (property, rest') ← parse 10000 rest
        end ← span_end property
        _ ← ok_or Error.not_an_identifier (as_identifier property)
        ok (spanned (Expr.member lhs property false) start end, rest')

  unfoldable pub parse_ternary :
      Expression F → ℕ → ℕ → Tokens F → Option (Result (Expression F × Tokens F))
  parse_ternary lhs min_bp start tokens =
      if leb ternary_binding_power.0 min_bp
      then none
      else some do
        (_, _, t₁) ← unwrap (expect_token Token.question tokens)
        (consequent, t₂) ← or_err Error.bad_consequent (parse ternary_binding_power.1 t₁)
        (_, _, t₃) ← unwrap (expect_token Token.colon t₂)
        (alternate, t₄) ← or_err Error.bad_alternate (parse ternary_binding_power.2 t₃)
        end ← span_end alternate
        ok (spanned (Expr.conditional lhs consequent alternate) start end, t₄)

  -- The choice of a round of the loop of `perform_parse`.
  unfoldable pub extend_form :
      ℕ → Token F → Expression F → ℕ → ℕ → Tokens F → Option (Result (Expression F × Tokens F))
  extend_form fuel token lhs min_bp start tokens = elim (binary_op_from_token token) [
    | some op ↦ parse_binary op lhs min_bp start tokens
    | none ↦ elim (logical_op_from_token token) [
      | some op ↦ parse_logical op lhs min_bp start tokens
      | none ↦
          if token_eq token Token.open_paren
          then parse_call fuel lhs min_bp start tokens
          else if token_eq token Token.open_square
          then parse_computed_member lhs min_bp start tokens
          else if token_eq token Token.dot
          then parse_static_member lhs min_bp start tokens
          else if token_eq token Token.question
          then parse_ternary lhs min_bp start tokens
          else some (err Error.unexpected_token)
    ]
  ]
