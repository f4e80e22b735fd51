-- ===== src/Expression/Tests.antt =====
-- The properties of the parser at concrete token lists, with natural numbers for the `f64` values.
use vegafusion.Expression.Parser.Arrays.{names, parse_tokens-array, separated}
use vegafusion.Expression.Parser.Atoms.{spanned, parse_atom, expect_token, remove_first, span_end}
use vegafusion.Expression.Parser.Forms.{parse_form, parse_paren_grouping}
use vegafusion.Expression.Parser.Infix.{extend_form, parse_ternary, parse_binary}
use vegafusion.Expression.Power.{infix_binding_power}
use vegafusion.Expression.Parser.Fuel.{parse_tokens-ends, perform_parse-takes}
use vegafusion.Expression.Parser.Parse.{parse_tokens, perform_parse, extend}
use vegafusion.Expression.Parser.Precedence.{name, named, parse_tokens-chain, token_of}
use vegafusion.Expression.Result.{ok, panic, out_of_fuel}
use vegafusion.Expression.Syntax.{Text, Expression, Expr, BinaryOperator, as_i32}
use vegafusion.Expression.Token.{
  Token, Tokens, is_atom, unary_op_from_token, token_eq, closes, binary_op_from_token,
  logical_op_from_token,
}
use vegafusion.Prelude.{ℕ, ◌<◌, List, [], ◌∷◌, ◌++◌, ◌≡◌, ◌≢◌, refl, arith}

abbrev a_name : Text × ℕ × ℕ
a_name = ("a", 0, 1)

abbrev b_name : Text × ℕ × ℕ
b_name = ("b", 4, 5)

abbrev c_name : Text × ℕ × ℕ
c_name = ("c", 8, 9)

-- `a + b * c`
abbrev sum_of_product : Tokens ℕ
sum_of_product =
    name a_name ∷ (Token.plus, 2, 3) ∷ name b_name ∷ (Token.asterisk, 6, 7) ∷ name c_name ∷ []

-- `(a ? b`, which stops before its colon
abbrev broken_conditional : Tokens ℕ
broken_conditional =
    (Token.open_paren, 0, 1) ∷ name a_name ∷ (Token.question, 2, 3) ∷ name b_name ∷ []

broken_conditional-panics : parse_tokens broken_conditional ≡ panic
unfolding parse_tokens perform_parse parse_form is_atom unary_op_from_token token_eq
    parse_paren_grouping parse_atom extend closes extend_form binary_op_from_token
    logical_op_from_token parse_ternary expect_token
broken_conditional-panics = refl

abbrev product : Expression ℕ
product = spanned (Expr.binary (named b_name) BinaryOperator.mult (named c_name)) 6 (as_i32 9)

abbrev sum : Expression ℕ
sum = spanned (Expr.binary (named a_name) BinaryOperator.plus product) 2 (as_i32 9)

parse_tokens-chain_example : parse_tokens sum_of_product ≡ ok sum
unfolding token_of infix_binding_power
parse_tokens-chain_example =
    parse_tokens-chain a_name b_name c_name BinaryOperator.plus BinaryOperator.mult 2 3 6 7

parse_tokens-ends_example : parse_tokens broken_conditional ≢ out_of_fuel
parse_tokens-ends_example = parse_tokens-ends broken_conditional

perform_parse-takes_example : 0 < 5
unfolding perform_parse parse_form is_atom parse_atom extend closes extend_form binary_op_from_token
    parse_binary infix_binding_power remove_first span_end
perform_parse-takes_example = perform_parse-takes 6 0 sum_of_product [] sum (ground arith) refl

abbrev two_names : List (Text × ℕ × ℕ)
two_names = a_name ∷ b_name ∷ []

abbrev elements : Tokens ℕ
elements = name a_name ∷ (Token.comma, 0, 0) ∷ name b_name ∷ (Token.comma, 0, 0) ∷ []

parse_tokens-array_example :
    (parse_tokens {F = ℕ}
        ((Token.open_square, 0, 1) ∷ (separated two_names ++ (Token.close_square, 9, 10) ∷ []))
      ≡ ok (spanned (Expr.array (names two_names)) 0 (as_i32 10)))
    × (parse_tokens {F = ℕ} ((Token.open_square, 0, 1) ∷ separated two_names) ≡ panic)
parse_tokens-array_example = parse_tokens-array two_names 0 1 9 10
