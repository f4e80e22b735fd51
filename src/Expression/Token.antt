-- ===== src/Expression/Token.antt =====
-- The tokens of lexer.rs, and the operators that they stand for (ops.rs).
use vegafusion.Expression.Syntax.{Text, UnaryOperator, LogicalOperator, BinaryOperator}
use vegafusion.Prelude.{ℕ, Bool, true, false, Option, none, some, List, nat_beq}

pub data Token (F : Type 0) : Type 0 where
  null : Token F
  bool : Bool → Text → Token F
  number : F → Text → Token F
  string : Text → Text → Token F
  identifier : Text → Token F
  asterisk close_curly close_paren close_square dot : Token F
  double_equals triple_equals exclamation exclamation_equals exclamation_double_equals : Token F
  minus open_curly open_paren open_square plus slash percent : Token F
  comma colon question : Token F
  greater_than greater_than_equals less_than less_than_equals : Token F
  logical_and logical_or bitwise_and bitwise_or bitwise_xor : Token F
  bitwise_shift_left bitwise_shift_right : Token F

-- A token with the positions of its first byte and of the byte behind it.
abbrev pub Tokens : Type 0 → Type 0
Tokens F = List (Token F × ℕ × ℕ)

module _ {F : Type 0} where
  unfoldable pub unary_op_from_token : Token F → Option UnaryOperator
  unary_op_from_token plus = some UnaryOperator.pos
  unary_op_from_token minus = some UnaryOperator.neg
  unary_op_from_token exclamation = some UnaryOperator.not_op
  unary_op_from_token _ = none

  unfoldable pub binary_op_from_token : Token F → Option BinaryOperator
  binary_op_from_token plus = some BinaryOperator.plus
  binary_op_from_token minus = some BinaryOperator.minus
  binary_op_from_token asterisk = some BinaryOperator.mult
  binary_op_from_token slash = some BinaryOperator.div
  binary_op_from_token percent = some BinaryOperator.mod_op
  binary_op_from_token double_equals = some BinaryOperator.equals
  binary_op_from_token triple_equals = some BinaryOperator.strict_equals
  binary_op_from_token exclamation_equals = some BinaryOperator.not_equals
  binary_op_from_token exclamation_double_equals = some BinaryOperator.not_strict_equals
  binary_op_from_token greater_than = some BinaryOperator.greater_than
  binary_op_from_token greater_than_equals = some BinaryOperator.greater_than_equal
  binary_op_from_token less_than = some BinaryOperator.less_than
  binary_op_from_token less_than_equals = some BinaryOperator.less_than_equal
  binary_op_from_token bitwise_and = some BinaryOperator.bitwise_and
  binary_op_from_token bitwise_or = some BinaryOperator.bitwise_or
  binary_op_from_token bitwise_xor = some BinaryOperator.bitwise_xor
  binary_op_from_token bitwise_shift_left = some BinaryOperator.bitwise_shift_left
  binary_op_from_token bitwise_shift_right = some BinaryOperator.bitwise_shift_right
  binary_op_from_token _ = none

  unfoldable pub logical_op_from_token : Token F → Option LogicalOperator
  logical_op_from_token logical_or = some LogicalOperator.or_op
  logical_op_from_token logical_and = some LogicalOperator.and_op
  logical_op_from_token _ = none

  -- The tokens that always close an expression, in `perform_parse`.
  unfoldable pub closes : Token F → Bool
  closes close_paren = true
  closes close_curly = true
  closes close_square = true
  closes comma = true
  closes colon = true
  closes _ = false

  unfoldable pub is_atom : Token F → Bool
  is_atom null = true
  is_atom (number _ _) = true
  is_atom (identifier _) = true
  is_atom (string _ _) = true
  is_atom (bool _ _) = true
  is_atom _ = false

  -- The place of a token's variant in the enum.
  unfoldable pub discriminant : Token F → ℕ
  discriminant null = 0
  discriminant (bool _ _) = 1
  discriminant (number _ _) = 2
  discriminant (string _ _) = 3
  discriminant (identifier _) = 4
  discriminant asterisk = 5
  discriminant close_curly = 6
  discriminant close_paren = 7
  discriminant close_square = 8
  discriminant dot = 9
  discriminant double_equals = 10
  discriminant triple_equals = 11
  discriminant exclamation = 12
  discriminant exclamation_equals = 13
  discriminant exclamation_double_equals = 14
  discriminant minus = 15
  discriminant open_curly = 16
  discriminant open_paren = 17
  discriminant open_square = 18
  discriminant plus = 19
  discriminant slash = 20
  discriminant percent = 21
  discriminant comma = 22
  discriminant colon = 23
  discriminant question = 24
  discriminant greater_than = 25
  discriminant greater_than_equals = 26
  discriminant less_than = 27
  discriminant less_than_equals = 28
  discriminant logical_and = 29
  discriminant logical_or = 30
  discriminant bitwise_and = 31
  discriminant bitwise_or = 32
  discriminant bitwise_xor = 33
  discriminant bitwise_shift_left = 34
  discriminant bitwise_shift_right = 35

-- `token == expected`, for an expected token that carries nothing: the derived `==` compares the
-- variants.
unfoldable pub token_eq : {F : Type 0} → Token F → Token F → Bool
unfolding discriminant
token_eq token expected = nat_beq (discriminant token) (discriminant expected)
