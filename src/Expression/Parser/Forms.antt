-- ===== src/Expression/Parser/Forms.antt =====
-- The forms that begin an expression, over `perform_parse` at less fuel.
use vegafusion.Expression.Parser.Atoms.{
  Parse, expect_token, skip_comma, span_end, spanned, parse_atom, try_new,
}
use vegafusion.Expression.Power.{unary_binding_power}
use vegafusion.Expression.Result.{Result, Error, ok, err, out_of_fuel, ◌>>=◌, unwrap}
use vegafusion.Expression.Syntax.{
  as_i32, UnaryOperator, Expression, Expr, Expressions, no_expressions, push_expression, Properties,
  no_properties, push_property,
}
use vegafusion.Expression.Token.{Token, Tokens, unary_op_from_token, is_atom, token_eq}
use vegafusion.Prelude.{ℕ, zero, suc, true, false, [], ◌∷◌, none, some, if◌then◌else◌}

module _ {F : Type 0} (parse : Parse F) where
  unfoldable pub parse_unary : UnaryOperator → ℕ → Tokens F → Result (Expression F × Tokens F)
  parse_unary op start tokens = do
    (rhs, rest) ← parse (unary_binding_power op) tokens
    end ← span_end rhs
    ok (spanned (Expr.unary op rhs) start end, rest)

  unfoldable pub parse_paren_grouping : Tokens F → Result (Expression F × Tokens F)
  parse_paren_grouping tokens = do
    (new_lhs, rest) ← parse 0 tokens
    (_, _, rest') ← expect_token Token.close_paren rest
    ok (new_lhs, rest')

  -- The loops over the arguments of a call and the elements of an array: up to the closing token
  -- or the end, expressions with a comma behind each that may be missing.
  unfoldable pub parse_elements : Token F → ℕ → Tokens F → Result (Expressions F × Tokens F)
  parse_elements close zero tokens = out_of_fuel
  parse_elements close (suc fuel) [] = ok (no_expressions, [])
  parse_elements close (suc fuel) ((token, start, end) ∷ rest) = elim (token_eq token close) [
    | true ↦ ok (no_expressions, (token, start, end) ∷ rest)
    | false ↦ do
      (element, tokens) ← parse 10 ((token, start, end) ∷ rest)
      (elements, tokens') ← parse_elements close fuel (skip_comma tokens)
      ok (push_expression element elements, tokens')
  ]

  unfoldable pub parse_array : ℕ → ℕ → Tokens F → Result (Expression F × Tokens F)
  parse_array fuel start tokens = do
    (elements, rest) ← parse_elements Token.close_square fuel tokens
    (_, end, rest') ← unwrap (expect_token Token.close_square rest)
    ok (spanned (Expr.array elements) start (as_i32 end), rest')

  -- The loop of `parse_object`.
  unfoldable pub parse_properties : ℕ → Tokens F → Result (Properties F × Tokens F)
  parse_properties zero tokens = out_of_fuel
  parse_properties (suc fuel) [] = ok (no_properties, [])
  parse_properties (suc fuel) ((token, start, end) ∷ rest) =
      elim (token_eq token Token.close_curly) [
        | true ↦ ok (no_properties, (token, start, end) ∷ rest)
        | false ↦ do
          (key, t₁) ← parse 10 ((token, start, end) ∷ rest)
          (_, _, t₂) ← expect_token Token.colon t₁
          (value, t₃) ← parse 10 t₂
          property ← try_new key
          (properties, t₄) ← parse_properties fuel (skip_comma t₃)
          ok (push_property property value properties, t₄)
      ]

  unfoldable pub parse_object : ℕ → ℕ → Tokens F → Result (Expression F × Tokens F)
  parse_object fuel start tokens = do
    (properties, rest) ← parse_properties fuel tokens
    (_, end, rest') ← unwrap (expect_token Token.close_curly rest)
    ok (spanned (Expr.object properties) start (as_i32 end), rest')

  -- The form that starts with the token, in `perform_parse`.
  unfoldable pub parse_form : ℕ → Token F → ℕ → ℕ → Tokens F → Result (Expression F × Tokens F)
  parse_form fuel lhs_token start end tokens =
      if is_atom lhs_token
      then (parse_atom lhs_token start end >>= λ lhs. ok (lhs, tokens))
      else elim (unary_op_from_token lhs_token) [
        | some op ↦ parse_unary op start tokens
        | none ↦
            if token_eq lhs_token Token.open_paren
            then parse_paren_grouping tokens
            else if token_eq lhs_token Token.open_square
            then parse_array fuel start tokens
            else if token_eq lhs_token Token.open_curly
            then parse_object fuel start tokens
            else err Error.unexpected_token
      ]
