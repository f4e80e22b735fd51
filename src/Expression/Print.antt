-- ===== src/Expression/Print.antt =====
-- The `Display` instances of ast/ and of the tokens: how an expression is printed. The printing of an
-- `f64` is a parameter.
use Prim.Native.String.{◌++◌}
use vegafusion.Expression.Power.{
  infix_binding_power, logical_binding_power, unary_binding_power, ternary_binding_power,
}
use vegafusion.Expression.Syntax.{
  Text, Span, Value, Literal, Key, literal_key, identifier_key, UnaryOperator, LogicalOperator,
  BinaryOperator, Expression, expression, Expr, identifier, literal, binary, logical, unary,
  conditional, call, array, object, member, Expressions, no_expressions, push_expression,
  Properties, no_properties, push_property,
}
use vegafusion.Expression.Token.{Token}
use vegafusion.Prelude.{ℕ, Bool, true, false, String, ltb, not}
pub mod Chain
mod Tests

unfoldable pub binary_text : BinaryOperator → String
binary_text BinaryOperator.plus = "+"
binary_text BinaryOperator.minus = "-"
binary_text BinaryOperator.mult = "*"
binary_text BinaryOperator.div = "/"
binary_text BinaryOperator.mod_op = "%"
binary_text BinaryOperator.equals = "=="
binary_text BinaryOperator.strict_equals = "==="
binary_text BinaryOperator.not_equals = "!="
binary_text BinaryOperator.not_strict_equals = "!=="
binary_text BinaryOperator.greater_than = ">"
binary_text BinaryOperator.less_than = "<"
binary_text BinaryOperator.greater_than_equal = ">="
binary_text BinaryOperator.less_than_equal = "<="
binary_text BinaryOperator.bitwise_and = "&"
binary_text BinaryOperator.bitwise_or = "|"
binary_text BinaryOperator.bitwise_xor = "^"
binary_text BinaryOperator.bitwise_shift_left = "<<"
binary_text BinaryOperator.bitwise_shift_right = ">>"

unfoldable pub logical_text : LogicalOperator → String
logical_text LogicalOperator.or_op = "||"
logical_text LogicalOperator.and_op = "&&"

unfoldable pub unary_text : UnaryOperator → String
unary_text UnaryOperator.pos = "+"
unary_text UnaryOperator.neg = "-"
unary_text UnaryOperator.not_op = "!"

abbrev pub bool_text : Bool → String
bool_text true = "true"
bool_text false = "false"

abbrev pub parens : Bool → String → String
parens true s = "(" ++ (s ++ ")")
parens false s = s

-- `ExpressionTrait::binding_power`, in tenths.
unfoldable pub binding_power : {F : Type 0} → Expression F → ℕ × ℕ
unfolding infix_binding_power logical_binding_power
binding_power (expression (binary _ op _) _) = infix_binding_power op
binding_power (expression (logical _ op _) _) = logical_binding_power op
binding_power (expression (unary op _) _) = (unary_binding_power op, unary_binding_power op)
binding_power (expression (conditional _ _ _) _) =
    (ternary_binding_power.0, ternary_binding_power.2)
binding_power (expression (member _ _ _) _) = (200, 205)
binding_power _ = (10000, 10000)

-- The `Display` instances of the nodes, from what their parts are printed as and from the parts'
-- powers.
abbrev pub binary_form : BinaryOperator → ℕ × ℕ → String → ℕ × ℕ → String → String
binary_form op lhs_bp lhs rhs_bp rhs =
    parens (ltb lhs_bp.1 (infix_binding_power op).0) lhs
    ++ (" " ++ (binary_text op ++ (" " ++ parens (ltb rhs_bp.0 (infix_binding_power op).1) rhs)))

abbrev pub logical_form : LogicalOperator → ℕ × ℕ → String → ℕ × ℕ → String → String
logical_form op lhs_bp lhs rhs_bp rhs =
    parens (ltb lhs_bp.1 (logical_binding_power op).0) lhs
    ++ (" " ++ (logical_text op ++ (" " ++ parens (ltb rhs_bp.0 (logical_binding_power op).1) rhs)))

abbrev pub unary_form : UnaryOperator → ℕ × ℕ → String → String
unary_form op arg_bp arg = unary_text op ++ parens (ltb arg_bp.1 (unary_binding_power op)) arg

abbrev pub conditional_form : ℕ × ℕ → String → ℕ × ℕ → String → ℕ × ℕ → String → String
conditional_form test_bp test consequent_bp consequent alternate_bp alternate =
    parens (ltb test_bp.1 ternary_binding_power.0) test
    ++ (" ? "
        ++ (parens (ltb consequent_bp.1 ternary_binding_power.1) consequent
            ++ (": " ++ parens (ltb alternate_bp.0 ternary_binding_power.2) alternate)))

abbrev pub call_form : Text → String → String
call_form callee args = callee ++ ("(" ++ (args ++ ")"))

abbrev pub array_form : String → String
array_form elements = "[" ++ (elements ++ "]")

abbrev pub object_form : String → String
object_form property_csv = "{" ++ (property_csv ++ "}")

abbrev pub member_form : ℕ × ℕ → String → String → Bool → String
member_form object_bp obj property true =
    parens (ltb object_bp.1 200) obj ++ ("[" ++ (property ++ "]"))
member_form object_bp obj property false = parens (ltb object_bp.1 200) obj ++ ("." ++ property)

module _ {F : Type 0} (number_text : F → String) where
  unfoldable pub token_text : Token F → String
  token_text (Token.bool v _) = bool_text v
  token_text (Token.number v _) = number_text v
  token_text (Token.string v _) = "\"" ++ (v ++ "\"")
  token_text (Token.identifier v) = v
  token_text Token.null = "null"
  token_text Token.asterisk = "*"
  token_text Token.close_curly = "}"
  token_text Token.close_paren = ")"
  token_text Token.close_square = "]"
  token_text Token.dot = "."
  token_text Token.double_equals = "=="
  token_text Token.triple_equals = "==="
  token_text Token.exclamation = "!"
  token_text Token.exclamation_equals = "!="
  token_text Token.exclamation_double_equals = "!=="
  token_text Token.minus = "-"
  token_text Token.open_curly = "{"
  token_text Token.open_paren = "("
  token_text Token.open_square = "["
  token_text Token.plus = "+"
  token_text Token.slash = "/"
  token_text Token.percent = "%"
  token_text Token.comma = ","
  token_text Token.colon = ":"
  token_text Token.question = "?"
  token_text Token.greater_than = ">"
  token_text Token.greater_than_equals = ">="
  token_text Token.less_than = "<"
  token_text Token.less_than_equals = "<="
  token_text Token.logical_and = "&&"
  token_text Token.logical_or = "||"
  token_text Token.bitwise_and = "&"
  token_text Token.bitwise_or = "|"
  token_text Token.bitwise_xor = "^"
  token_text Token.bitwise_shift_left = "<<"
  token_text Token.bitwise_shift_right = ">>"

  unfoldable pub value_text : Value F → String
  value_text (Value.boolean v) = bool_text v
  value_text (Value.number v) = number_text v
  value_text (Value.string v) = "\"" ++ (v ++ "\"")
  value_text Value.null = "null"

  unfoldable pub key_text : Key F → String
  unfolding value_text
  key_text (literal_key l) = value_text l.value
  key_text (identifier_key name) = name

unfoldable mutual
  unfolding binding_power key_text binary_text logical_text unary_text

  pub display : {F : Type 0} → (F → String) → Expression F → String
  display n (expression e _) = display_expr n e

  pub display_expr : {F : Type 0} → (F → String) → Expr F → String
  display_expr n (identifier name) = name
  display_expr n (literal l) = value_text n l.value
  display_expr n (binary l op r) =
      binary_form op (binding_power l) (display n l) (binding_power r) (display n r)
  display_expr n (logical l op r) =
      logical_form op (binding_power l) (display n l) (binding_power r) (display n r)
  display_expr n (unary op e) = unary_form op (binding_power e) (display n e)
  display_expr n (conditional t c a) =
      conditional_form (binding_power t) (display n t) (binding_power c) (display n c)
        (binding_power a) (display n a)
  display_expr n (call callee args) = call_form callee (display_all n args)
  display_expr n (array elements) = array_form (display_all n elements)
  display_expr n (object ps) = object_form (display_properties n ps)
  display_expr n (member o p computed) =
      member_form (binding_power o) (display n o) (display n p) computed

  -- The arguments or the elements, with `join(", ")`.
  pub display_all : {F : Type 0} → (F → String) → Expressions F → String
  display_all n no_expressions = ""
  display_all n (push_expression e no_expressions) =
      parens (not (ltb 10 (binding_power e).0)) (display n e)
  display_all n (push_expression e (push_expression e' es)) =
      parens (not (ltb 10 (binding_power e).0)) (display n e)
      ++ (", " ++ display_all n (push_expression e' es))

  pub display_properties : {F : Type 0} → (F → String) → Properties F → String
  display_properties n no_properties = ""
  display_properties n (push_property key value no_properties) =
      key_text n key ++ (": " ++ display n value)
  display_properties n (push_property key value (push_property key' value' ps)) =
      key_text n key
      ++ (": "
          ++ (display n value ++ (", " ++ display_properties n (push_property key' value' ps))))
