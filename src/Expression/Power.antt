-- ===== src/Expression/Power.antt =====
-- The binding powers of ast/binary.rs, ast/logical.rs, ast/unary.rs, ast/member.rs and
-- ast/conditional.rs, in tenths: 14.5 is 145.
use vegafusion.Expression.Syntax.{
  UnaryOperator, LogicalOperator, or_op, and_op, BinaryOperator, equals, not_equals, strict_equals,
  not_strict_equals, less_than, less_than_equal, greater_than, greater_than_equal, plus, minus,
  mult, div, mod_op, bitwise_and, bitwise_or, bitwise_xor, bitwise_shift_left, bitwise_shift_right,
}
use vegafusion.Prelude.{ℕ}

unfoldable pub infix_binding_power : BinaryOperator → ℕ × ℕ
infix_binding_power plus = (140, 145)
infix_binding_power minus = (140, 145)
infix_binding_power mult = (150, 155)
infix_binding_power div = (150, 155)
infix_binding_power mod_op = (150, 155)
infix_binding_power greater_than = (120, 125)
infix_binding_power less_than = (120, 125)
infix_binding_power greater_than_equal = (120, 125)
infix_binding_power less_than_equal = (120, 125)
infix_binding_power equals = (110, 115)
infix_binding_power strict_equals = (110, 115)
infix_binding_power not_equals = (110, 115)
infix_binding_power not_strict_equals = (110, 115)
infix_binding_power bitwise_shift_left = (100, 105)
infix_binding_power bitwise_shift_right = (100, 105)
infix_binding_power bitwise_and = (70, 75)
infix_binding_power bitwise_xor = (60, 65)
infix_binding_power bitwise_or = (50, 55)

unfoldable pub logical_binding_power : LogicalOperator → ℕ × ℕ
logical_binding_power or_op = (60, 65)
logical_binding_power and_op = (70, 75)

abbrev pub unary_binding_power : UnaryOperator → ℕ
unary_binding_power _ = 170

abbrev pub ternary_binding_power : ℕ × ℕ × ℕ
ternary_binding_power = (48, 46, 44)

-- `computed_member_bp` of parser.rs.
abbrev pub computed_member_bp : ℕ
computed_member_bp = 200
