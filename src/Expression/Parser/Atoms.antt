-- ===== src/Expression/Parser/Atoms.antt =====
-- The parts of parser.rs that do not recur: single tokens, spans and atoms.
use vegafusion.Expression.Result.{Result, Error, ok, err, panic}
use vegafusion.Expression.Syntax.{
  Text, as_i32, Value, Key, literal_key, identifier_key, Expression, expression, Expr,
  as_identifier, as_literal,
}
use vegafusion.Expression.Token.{Token, Tokens, token_eq}
use vegafusion.Prelude.{ℕ, [], ◌∷◌, Option, none, some, if◌then◌else◌}

-- `perform_parse` with its fuel given: the lowest binding power, and the tokens.
abbrev pub Parse : Type 0 → Type 0
Parse F = ℕ → Tokens F → Result (Expression F × Tokens F)

abbrev null_text : Text
null_text = "null"

module _ {F : Type 0} where
  unfoldable pub expect_token : Token F → Tokens F → Result (ℕ × ℕ × Tokens F)
  unfolding token_eq
  expect_token expected [] = err Error.expected_reached_end
  expect_token expected ((token, start, end) ∷ rest) =
      if token_eq token expected then ok (start, end, rest) else err Error.expected_received

  -- `expect_token(tokens, Token::Comma).ok()`
  unfoldable pub skip_comma : Tokens F → Tokens F
  unfolding expect_token
  skip_comma tokens = elim (expect_token Token.comma tokens) [ ok (_, _, rest) ↦ rest | _ ↦ tokens ]

  -- `tokens.remove(0)`
  unfoldable pub remove_first : Tokens F → Result (Tokens F)
  remove_first [] = panic
  remove_first (_ ∷ rest) = ok rest

  -- `expr.span.clone().unwrap().end`
  unfoldable pub span_end : Expression F → Result ℕ
  span_end (expression _ (some span)) = ok span.end
  span_end (expression _ none) = panic

  -- An expression with the span from a token's start to an end that is an `i32` already.
  abbrev pub spanned : Expr F → ℕ → ℕ → Expression F
  spanned e start end = expression e (some (record { start = as_i32 start; end = end }))

  unfoldable pub atom : Token F → Option (Expr F)
  atom Token.null = some (Expr.literal (record { raw = null_text; value = Value.null }))
  atom (Token.bool v raw) = some (Expr.literal (record { raw = raw; value = Value.boolean v }))
  atom (Token.number v raw) = some (Expr.literal (record { raw = raw; value = Value.number v }))
  atom (Token.string v raw) = some (Expr.literal (record { raw = raw; value = Value.string v }))
  atom (Token.identifier name) = some (Expr.identifier name)
  atom _ = none

  unfoldable pub parse_atom : Token F → ℕ → ℕ → Result (Expression F)
  unfolding atom
  parse_atom token start end = elim (atom token) [
    | some e ↦ ok (spanned e start (as_i32 end))
    | none ↦ err Error.not_an_atom
  ]

  -- `Property::try_new`, its key
  unfoldable pub try_new : Expression F → Result (Key F)
  try_new key = elim (as_identifier key) [
    | some name ↦ ok (identifier_key name)
    | none ↦ elim (as_literal key) [
      | some v ↦ ok (literal_key v)
      | none ↦ err Error.not_an_object_key
    ]
  ]
