-- ===== src/Expression/Visitors/Tests.antt =====
-- The visitors on `data('cars')[row] + datum.x`, with natural numbers for the `f64` values.
use vegafusion.Expression.Syntax.{
  Text, Span, Value, Expression, expression, Expr, BinaryOperator, no_expressions, push_expression,
}
use vegafusion.Expression.Visitors.Checks.{all_checks, is_supported_lem}
use vegafusion.Expression.Visitors.Supported.{is_supported}
use vegafusion.Expression.Visitors.Members.{
  as_input, is_implicit, is_signal, implicit_vars-mentions, input_vars-mentions,
}
use vegafusion.Expression.Visitors.Mentions.{mentions}
use vegafusion.Expression.Visitors.Variables.{input_key, input_vars, implicit_vars}
use vegafusion.Expression.Visitors.Change.{clear_spans}
use vegafusion.Expression.Visitors.Spans.{unspanned, clear_spans_lem}
use vegafusion.Prelude.Sets.{contains}
use vegafusion.Prelude.{ℕ, true, false, ◌≡◌, none, some, Option, text_key}

abbrev bare : Expr ℕ → Expression ℕ
bare e = expression e none

abbrev variable : Text → Expression ℕ
variable name = bare (Expr.identifier name)

abbrev cars : Expression ℕ
cars = bare (
    Expr.call "data" (
      push_expression (bare (Expr.literal (record { raw = "'cars'"; value = Value.string "cars" })))
        no_expressions))

abbrev row_of_cars : Expression ℕ
row_of_cars = bare (
    Expr.binary (bare (Expr.member cars (variable "row") true)) BinaryOperator.plus
      (bare (Expr.member (variable "datum") (variable "x") false)))

-- The signal `row` is not seen.
input_vars-mentions_example :
    contains (as_input "row") (input_vars row_of_cars) ≡ mentions (is_signal "row") row_of_cars
input_vars-mentions_example = input_vars-mentions "row" row_of_cars

implicit_vars-mentions_example :
    contains "datum" (implicit_vars row_of_cars) ≡ mentions (is_implicit "datum") row_of_cars
implicit_vars-mentions_example = implicit_vars-mentions "datum" row_of_cars

is_supported_lem_example : is_supported row_of_cars ≡ all_checks row_of_cars
is_supported_lem_example = is_supported_lem row_of_cars

abbrev from_to : ℕ → ℕ → Option Span
from_to start end = some (record { start = start; end = end })

-- `datum.x` as it is parsed.
abbrev spanned_member : Expression ℕ
spanned_member =
    expression
      (Expr.member (expression (Expr.identifier "datum") (from_to 0 5))
        (expression (Expr.identifier "x") (from_to 6 7)) false)
      (from_to 0 7)

clear_spans_lem_example : clear_spans spanned_member ≡ unspanned spanned_member
clear_spans_lem_example = clear_spans_lem spanned_member
